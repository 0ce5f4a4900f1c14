-- ===== src/Level.antt =====
-- `struct PriceLevel` and `struct OrderLocation` of include/orderbook/Core/Order.hpp. The orders
-- stand in a store that gives the order at each address, since a level, its neighbours and the
-- caller share them; a level operation returns the new store and the new level.
pub mod Segment
pub mod Unlink
pub mod Queue
pub mod Passive
pub mod Tests
use financial_order_book.Prelude.{
  ℕ, ◌+◌, Bool, true, false, Option, none, some, ◌==◌, leb, ◌||◌, if◌then◌else◌,
}
use financial_order_book.Types.{Side, add64, sub64}
use financial_order_book.Order.{Addr, Order, is_fully_filled, remaining_quantity}

abbrev pub Store : Type 0 → Type 0
Store Price = Addr → Order Price

pub record PriceLevel (Price : Type 0) : Type 0 where
  pub price : Price
  pub total_quantity : ℕ
  pub order_count : ℕ
  pub head : Option Addr
  pub tail : Option Addr

pub record OrderLocation (Level : Type 0) : Type 0 where
  pub order : Option Addr
  pub price_level : Option Level
  pub side : Side

abbrev is_null {ℓ} : {A : Type ℓ} → Option A → Bool
is_null none = true
is_null (some a) = false

abbrev both_set : {A B : Type 0} → Option A → Option B → Bool
both_set (some a) (some b) = true
both_set _ _ = false

-- `isValid`
abbrev pub is_valid : {Level : Type 0} → OrderLocation Level → Bool
is_valid l = both_set l.order l.price_level

-- `head` or `tail` after a write that goes to a neighbour where there is one.
abbrev pub or_end : Option Addr → Option Addr → Option Addr → Option Addr
or_end none old new = new
or_end (some a) old new = old

module _ {Price : Type 0} where
  unfoldable pub write : Store Price → Addr → Order Price → Store Price
  write s a o b = if a == b then o else s b

  -- `order->next = p`, `order->prev = p`, also where the order is reached by a null pointer,
  -- which the callers test for: then nothing is written.
  unfoldable pub set_next : Store Price → Option Addr → Option Addr → Store Price
  set_next s none p = s
  set_next s (some a) p = write s a (record (s a) { next = p })

  unfoldable pub set_prev : Store Price → Option Addr → Option Addr → Store Price
  set_prev s none p = s
  set_prev s (some a) p = write s a (record (s a) { prev = p })

  abbrev pub empty_level : Price → PriceLevel Price
  empty_level p = record {
    price = p;
    total_quantity = 0;
    order_count = 0;
    head = none;
    tail = none;
  }

  -- The size_t counters wrap as 64-bit words.
  unfoldable pub add_order : Store Price → PriceLevel Price → Addr → Store Price × PriceLevel Price
  add_order s l a =
      let s1 = set_prev (set_next s (some a) none) (some a) l.tail in
      let s2 = set_next s1 l.tail (some a) in
      (
        s2,
        record l {
          head = or_end l.tail l.head (some a);
          tail = some a;
          total_quantity = add64 l.total_quantity (remaining_quantity (s2 a));
          order_count = add64 l.order_count 1;
        },
      )

  -- The store after `order->prev->next = order->next`.
  abbrev pub join_next : Store Price → Addr → Store Price
  join_next s a = set_next s (s a).prev (s a).next

  -- The store after both neighbours are joined and the order's own pointers are cleared.
  unfoldable pub unlink : Store Price → Addr → Store Price
  unlink s a =
      let s1 = join_next s a in
      let s2 = set_prev s1 (s1 a).next (s1 a).prev in
      set_prev (set_next s2 (some a) none) (some a) none

  unfoldable pub remove_order :
      Store Price → PriceLevel Price → Addr → Store Price × PriceLevel Price
  remove_order s l a =
      let s1 = join_next s a in
      (
        unlink s a,
        record l {
          total_quantity = sub64 l.total_quantity (remaining_quantity (s a));
          order_count = sub64 l.order_count 1;
          head = or_end (s a).prev l.head (s a).next;
          tail = or_end (s1 a).next l.tail (s1 a).prev;
        },
      )

  -- `if (filled_quantity <= total_quantity) total_quantity -= filled_quantity`
  abbrev pub take_quantity : PriceLevel Price → ℕ → PriceLevel Price
  take_quantity l q =
      if leb q l.total_quantity then record l { total_quantity = sub64 l.total_quantity q } else l

  unfoldable pub update_quantity :
      Store Price → PriceLevel Price → Addr → ℕ → Store Price × PriceLevel Price
  update_quantity s l a q =
      if is_fully_filled (s a) then remove_order s (take_quantity l q) a else (s, take_quantity l q)

  -- `isEmpty`
  abbrev pub is_empty_level : PriceLevel Price → Bool
  is_empty_level l = l.order_count == 0 || is_null l.head
