-- ===== src/Order/Fill.antt =====
-- What `fill` and `modify` of include/orderbook/Core/Order.hpp do to the quantities and the status.
use financial_order_book.Prelude.{
  ℕ, ◌+◌, ◌-◌, ◌≤◌, ◌<◌, ◌≡◌, ◌↔◌, true, false, arith, if◌then◌else◌,
}
use financial_order_book.Prelude.Double.{Double}
use financial_order_book.Types.{OrderStatus, u64}
use financial_order_book.Order.{Order, is_fully_filled, remaining_quantity, is_active, fill, modify}

module _ {Price : Type 0} where
  -- The filled part lies within the order, and the order within an `uint64_t`.
  pub record IsSound (o : Order Price) : Type 0 where
    pub within : o.filled_quantity ≤ o.quantity
    pub range : o.quantity < u64

  pub remaining_quantity_lem :
      (o : Order Price) → IsSound o → remaining_quantity o ≡ o.quantity - o.filled_quantity
  remaining_quantity_lem o s = ground arith

  -- What a fill of an order does that does not exceed what remains of it.
  pub record Fills (o : Order Price) (q : ℕ) (o' : Order Price) : Type 0 where
    pub sound : IsSound o'
    pub filled_is : o'.filled_quantity ≡ o.filled_quantity + q
    pub remaining_is : remaining_quantity o' + q ≡ remaining_quantity o
    pub same_quantity : o'.quantity ≡ o.quantity
    pub status_is :
        o'.status
        ≡ (if is_fully_filled o' then OrderStatus.filled else OrderStatus.partially_filled)
    pub active_iff : (is_active o' ≡ true) ↔ (0 < remaining_quantity o')

  -- A fill of at most the remaining quantity of a sound order adds to the filled part, takes
  -- from the remaining one, keeps the order sound, sets the status by what is left, and leaves
  -- the order active exactly when something remains.
  pub fill-Fills :
      (o : Order Price) (q : ℕ) → IsSound o → q ≤ remaining_quantity o → Fills o q (fill o q)
  unfolding fill
  fill-Fills o q s h = record {
    sound = ground arith;
    filled_is = ground arith;
    remaining_is = ground arith;
    same_quantity = ground arith;
    status_is = ground arith;
    active_iff = ground arith;
  }

  pub fill_full :
      (o : Order Price) (q : ℕ)
      → IsSound o
      → q ≤ remaining_quantity o
      → is_fully_filled (fill o q) ≡ true
      → q ≡ remaining_quantity o
  unfolding fill
  fill_full o q s h e = ground arith

  pub fill_part :
      (o : Order Price) (q : ℕ)
      → IsSound o
      → q ≤ remaining_quantity o
      → is_fully_filled (fill o q) ≡ false
      → q < remaining_quantity o
  unfolding fill
  fill_part o q s h e = ground arith

  pub fill_all :
      (o : Order Price) (q : ℕ)
      → IsSound o
      → q ≡ remaining_quantity o
      → is_fully_filled (fill o q) ≡ true
  unfolding fill
  fill_all o q s h = ground arith

  -- A fill of more than what remains, while the sum fits 64 bits, marks the order filled, and
  -- leaves it with a remaining quantity that has wrapped around below zero.
  pub fill_overfilled :
      (o : Order Price) (q : ℕ)
      → IsSound o
      → remaining_quantity o < q
      → o.filled_quantity + q < u64
      → (remaining_quantity (fill o q) + q ≡ u64 + remaining_quantity o)
        × (is_fully_filled (fill o q) ≡ true)
        × (is_active (fill o q) ≡ false)
  unfolding fill
  fill_overfilled o q s h r = (ground arith, ground arith, ground arith)

  -- `modify` with a 64-bit quantity keeps a sound order sound, whatever the new price.
  pub modify-IsSound :
      ⦃d : Double Price⦄ (o : Order Price) (p : Price) (q : ℕ)
      → IsSound o
      → q < u64
      → IsSound (modify o p q)
  unfolding modify
  modify-IsSound o p q s h = ground arith
