-- ===== src/Book/Lookup.antt =====
-- The price index and the order index: the level that `findOrCreatePriceLevel` of
-- src/Core/OrderBook.cpp gives, and an order that was cancelled.
use financial_order_book.Prelude.{
  ℕ, ◌≡◌, refl, ap, ◌⊎◌, inl, inr, Bool, true, Option, none, some, Bool-cases,
}
use financial_order_book.Prelude.Double.{Double}
use financial_order_book.Prelude.Map.{Key, nat_key, lookup, lookup-erase_self}
use financial_order_book.Types.{Side, Result, success, error, result_of}
use financial_order_book.Order.{Addr}
use financial_order_book.Level.{PriceLevel, OrderLocation, empty_level}
use financial_order_book.Matching.{insert_level}
use financial_order_book.Book.{
  OrderBook, Slot, dangling_level, BookError, order_not_found, Increment, nth, levels_of,
  set_levels, level_at, publish_market_data_update,
}
use financial_order_book.Book.Index.{
  lower_bound, create_price_level, take_or_create, found_price_level, find_or_create_price_level,
}
use financial_order_book.Book.Calls.{
  take_out, cancel_at, cancel_found, cancel_order, modify_found, modify_order,
}
use financial_order_book.Book.Sorting.{nth-insert_level}
use financial_order_book.Book.Kept.{Holds, Holds-read, Holds-success}

module _ {Price : Type 0} ⦃d : Double Price⦄ ⦃k : Key Price⦄ where
  -- The slot has a level whose price is `p`, or near enough.
  abbrev pub IsLevelFor : ⦃i : Increment Price⦄ → Price → OrderBook Price × Slot → Type 0
  IsLevelFor ⦃i⦄ p r =
      (l : PriceLevel Price) × (level_at r.0 r.1 ≡ success l)
      × ((l.price ≡ p) ⊎ (i.within l.price p ≡ true))

  create_price_level-IsLevelFor :
      ⦃i : Increment Price⦄ (b : OrderBook Price) (p : Price) (side : Side)
      → IsLevelFor p (create_price_level b p side)
  unfolding create_price_level level_at
  create_price_level-IsLevelFor b p side = (empty_level p, found side, inl refl)
    where
      found :
          (t : Side)
          → result_of dangling_level (
              nth
                (levels_of (set_levels b t (insert_level t (empty_level p) (levels_of b t))) t)
                (lower_bound t p (levels_of b t)))
            ≡ success (empty_level p)
      found Side.buy = ap (result_of dangling_level) (nth-insert_level Side.buy p b.bids)
      found Side.sell = ap (result_of dangling_level) (nth-insert_level Side.sell p b.asks)

  found_price_level-IsLevelFor :
      ⦃i : Increment Price⦄ (b : OrderBook Price) (p : Price) (side : Side) (o : Option Slot)
      → Holds (IsLevelFor p) (found_price_level b p side o)
  unfolding take_or_create
  found_price_level-IsLevelFor b p side none = create_price_level-IsLevelFor b p side
  found_price_level-IsLevelFor ⦃i⦄ b p side (some s) =
      Holds-read (IsLevelFor p) (level_at b s) _ (λ l at. elim (Bool-cases (i.within l.price p)) [
        | inl e ↦ rw e (l, at, inr e)
        | inr e ↦ rw e (create_price_level-IsLevelFor _ p side)
      ])

  -- A level that is found or made has the price that was asked for, or one within an increment
  -- of it; nothing is said of its side.
  pub find_or_create_price_level-IsLevelFor :
      ⦃i : Increment Price⦄ (b b' : OrderBook Price) (p : Price) (side : Side) (s : Slot)
      → find_or_create_price_level b p side ≡ success (b', s)
      → IsLevelFor p (b', s)
  unfolding find_or_create_price_level
  find_or_create_price_level-IsLevelFor b b' p side s e =
      Holds-success (IsLevelFor p) _ (b', s) e
        (found_price_level-IsLevelFor b p side (lookup p b.price_index))

  -- What a cancellation that succeeds says of the index.
  abbrev Forgets : ℕ → Result (BookError Price) Bool × OrderBook Price → Type 0
  Forgets id (success t, b) = lookup id b.order_index ≡ none
  Forgets id (error e, b) = Unit

  cancel_order-Forgets : (b : OrderBook Price) (id : ℕ) → Holds (Forgets id) (cancel_order b id)
  unfolding cancel_order publish_market_data_update
  cancel_order-Forgets b id = found (lookup id b.order_index)
    where
      updated :
          (b : OrderBook Price)
          → lookup id b.order_index ≡ none
          → lookup id (publish_market_data_update b).order_index ≡ none
      updated b h = elim (Bool-cases b.has_market_data) [ inl e ↦ rw e h | inr e ↦ rw e h ]

      at :
          (a : Option Addr) (s : Option Slot) (side : Side)
          → Holds (Forgets id) (cancel_at b id a s side)
      at none s side = tt
      at (some a) none side = tt
      at (some a) (some s) side =
          Holds-read (Forgets id) (take_out b a s side) _
            (λ b1 e. updated _ (lookup-erase_self id b1.order_index))

      found : (l : Option (OrderLocation Slot)) → Holds (Forgets id) (cancel_found b id l)
      found none = tt
      found (some l) = at l.order l.price_level l.side

  -- After an order was cancelled, to cancel or modify it again is an error that changes nothing.
  pub cancel_order_once :
      ⦃i : Increment Price⦄ (b b' : OrderBook Price) (id : ℕ) (t : Bool) (p : Price) (q : ℕ)
      → cancel_order b id ≡ success (success t, b')
      → (cancel_order b' id ≡ success (error order_not_found, b'))
        × (modify_order b' id p q ≡ success (error order_not_found, b'))
  unfolding cancel_order modify_order
  cancel_order_once b b' id t p q e =
      let gone = Holds-success (Forgets id) _ (success t, b') e (cancel_order-Forgets b id) in
      (ap (cancel_found b' id) gone, ap (modify_found b' id p q) gone)
