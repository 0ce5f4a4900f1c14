-- ===== src/Book/Index.antt =====
-- src/Core/OrderBook.cpp: `findOrCreatePriceLevel`, `removePriceLevel`, `maintainSortedOrder` and
-- `rebuildPriceIndex`. `std::lower_bound` on levels that are not sorted is undefined: the model
-- takes the first position there too.
use financial_order_book.Prelude.{
  Option, none, some, ℕ, suc, Bool, true, not, ◌&&◌, List, [], ◌∷◌, none, some, if◌then◌else◌,
}
use financial_order_book.Prelude.Double.{Double}
use financial_order_book.Prelude.Map.{Key, lookup, insert, erase}
use financial_order_book.Types.{Side, Result, success, ◌>>=◌, side_eq}
use financial_order_book.Level.{PriceLevel, empty_level, is_empty_level}
use financial_order_book.Matching.{goes_before, insert_level, sort_levels}
use financial_order_book.Book.{
  OrderBook, Slot, Undefined, Increment, levels_of, set_levels, level_at, erase_nth,
}

module _ {Price : Type 0} ⦃d : Double Price⦄ where
  -- `std::is_sorted`: no level goes before the one ahead of it.
  unfoldable pub is_sorted : Side → List (PriceLevel Price) → Bool
  is_sorted side [] = true
  is_sorted side (l ∷ []) = true
  is_sorted side (l ∷ m ∷ ls) = not (goes_before side m l) && is_sorted side (m ∷ ls)

  -- Bids ascend and asks descend: the order of the levels of a side is that of
  -- `goes_before` for the side.
  unfoldable pub sorted_if_needed : Side → List (PriceLevel Price) → List (PriceLevel Price)
  sorted_if_needed side ls = if is_sorted side ls then ls else sort_levels side ls

  -- `std::lower_bound`
  unfoldable pub lower_bound : Side → Price → List (PriceLevel Price) → ℕ
  lower_bound side p [] = 0
  lower_bound side p (m ∷ ms) =
      if goes_before side m (empty_level p) then suc (lower_bound side p ms) else 0

  module _ ⦃k : Key Price⦄ where
    -- The `for` of `rebuildPriceIndex` over one side, from slot `i` on.
    unfoldable pub index_levels :
        Side → ℕ → List (PriceLevel Price) → List (Price × Slot) → List (Price × Slot)
    index_levels side i [] index = index
    index_levels side i (l ∷ ls) index =
        index_levels side (suc i) ls (insert l.price (record { side = side; index = i }) index)

    unfoldable pub rebuild_price_index : OrderBook Price → OrderBook Price
    rebuild_price_index b = record b {
      price_index = index_levels Side.sell 0 b.asks (index_levels Side.buy 0 b.bids []);
    }

    unfoldable pub maintain_sorted_order : OrderBook Price → OrderBook Price
    maintain_sorted_order b = rebuild_price_index (record b {
      bids = sorted_if_needed Side.buy b.bids;
      asks = sorted_if_needed Side.sell b.asks;
    })

    -- A new level at its place in the levels of `side`, and its entry in the index.
    unfoldable pub create_price_level : OrderBook Price → Price → Side → OrderBook Price × Slot
    create_price_level b p side =
        let s : Slot = record { side = side; index = lower_bound side p (levels_of b side) } in
        let b1 = set_levels b side (insert_level side (empty_level p) (levels_of b side)) in
        (record b1 { price_index = insert p s b.price_index }, s)

    -- The level of the index is taken where its price is near enough, whatever its side.
    unfoldable pub take_or_create :
        ⦃i : Increment Price⦄
        → OrderBook Price
        → Price
        → Side
        → Slot
        → PriceLevel Price
        → OrderBook Price × Slot
    take_or_create ⦃i⦄ b p side s l =
        if i.within l.price p
        then (b, s)
        else create_price_level (record b { price_index = erase p b.price_index }) p side

    abbrev pub found_price_level :
        ⦃i : Increment Price⦄
        → OrderBook Price
        → Price
        → Side
        → Option Slot
        → Result Undefined (OrderBook Price × Slot)
    found_price_level b p side none = success (create_price_level b p side)
    found_price_level b p side (some s) =
        level_at b s >>= λ l. success (take_or_create b p side s l)

    -- `findOrCreatePriceLevel`. It never returns null, so that the tests of its callers for a
    -- null level pass.
    unfoldable pub find_or_create_price_level :
        ⦃i : Increment Price⦄
        → OrderBook Price
        → Price
        → Side
        → Result Undefined (OrderBook Price × Slot)
    find_or_create_price_level b p side = found_price_level b p side (lookup p b.price_index)

module _ {Price : Type 0} ⦃k : Key Price⦄ where
  -- What `removePriceLevel` does with an empty level: the one at slot `s` leaves its vector,
  -- and stays where the levels of `side` do not have it.
  unfoldable pub erase_level : OrderBook Price → Slot → Side → Price → OrderBook Price
  erase_level b s side p =
      let b1 : OrderBook Price = record b { price_index = erase p b.price_index } in
      if side_eq s.side side then set_levels b1 side (erase_nth (levels_of b side) s.index) else b1

  unfoldable pub remove_price_level :
      OrderBook Price → Slot → Side → Result Undefined (OrderBook Price)
  remove_price_level b s side =
      level_at b s >>= λ l. success (if is_empty_level l then erase_level b s side l.price else b)
