-- ===== src/Book/Trading.antt =====
-- src/Core/OrderBook.cpp: `processMatching`, `executeMatching`, `matchAgainstPriceLevel` and
-- `executeTrade`. Logging is left out. The incoming order stands in the store, at `inc`.
use financial_order_book.Prelude.{
  ℕ, zero, suc, Bool, false, not, ◌&&◌, ◌||◌, [], ◌∷◌, ◌++◌, Option, none, some, min, ◌==◌, length,
  if◌then◌else◌,
}
use financial_order_book.Prelude.Double.{Double}
use financial_order_book.Prelude.Map.{Key, nat_key, erase}
use financial_order_book.Types.{Side, Result, success, error, ◌>>=◌, add64, sub64}
use financial_order_book.Order.{Addr, Order, is_fully_filled, remaining_quantity, fill}
use financial_order_book.Level.{PriceLevel, write, update_quantity, is_empty_level}
use financial_order_book.Matching.{trade_of, sort_levels, crosses_level}
use financial_order_book.Risk.{update_position}
use financial_order_book.Book.{
  OrderBook, Slot, Event, UpdateType, Undefined, freed_order, levels_of, set_levels, level_at,
  put_level, map_option, back, publish_book_update,
}
use financial_order_book.Book.Index.{remove_price_level}

abbrev pub opposite : Side → Side
opposite Side.buy = Side.sell
opposite Side.sell = Side.buy

module _ {Price : Type 0} where
  -- Both orders are filled in the store, then the trade is booked and published.
  unfoldable pub execute_trade : OrderBook Price → Addr → Addr → Price → ℕ → OrderBook Price
  execute_trade b inc a price q =
      let s1 = write b.store inc (fill (b.store inc) q) in
      let s2 = write s1 a (fill (s1 a) q) in
      let t = trade_of b.trade_counter (s2 inc) (s2 a) price q in
      record b {
        store = s2;
        trade_counter = add64 b.trade_counter 1;
        risk_manager = map_option (λ r. update_position r t) b.risk_manager;
        events = if b.has_market_data then b.events ++ Event.trade t ∷ [] else b.events;
      }

  -- The book update for the order at `a` after a trade.
  unfoldable pub publish_passive : OrderBook Price → Addr → ℕ → OrderBook Price
  publish_passive b a count =
      let o = b.store a in
      if is_fully_filled o
      then publish_book_update b UpdateType.remove o.side o.price 0 (sub64 count 1)
      else publish_book_update b UpdateType.modify o.side o.price (remaining_quantity o) count

  -- A filled order leaves the index and is deleted; the result is the order to go on with.
  unfoldable pub drop_filled :
      OrderBook Price → Addr → Addr → Result Undefined (OrderBook Price × Option Addr)
  drop_filled b inc a =
      let o = b.store a in
      if not (is_fully_filled o)
      then success (b, some a)
      else if a == inc
      then error freed_order
      else success (record b { order_index = erase o.id b.order_index }, o.next)

  -- The body of the `while` after the trade quantity is known.
  unfoldable pub trade_at :
      OrderBook Price → Addr → Slot → Addr → ℕ → Result Undefined (OrderBook Price × Option Addr)
  trade_at b inc s a q = level_at b s >>= λ l.
      (let b1 = execute_trade b inc a l.price q in
        let r = update_quantity b1.store l a q in
        let b2 = put_level (record b1 { store = r.0 }) s r.1 in
        drop_filled (publish_passive b2 a r.1.order_count) inc a)

  unfoldable pub match_once :
      OrderBook Price → Addr → Slot → Addr → Result Undefined (OrderBook Price × Option Addr)
  match_once b inc s a =
      let q = min (remaining_quantity (b.store inc)) (remaining_quantity (b.store a)) in
      if q == 0 then success (b, none) else trade_at b inc s a q

  -- The `while`, on fuel.
  unfoldable pub match_orders :
      ℕ → OrderBook Price → Addr → Slot → Option Addr → Result Undefined (OrderBook Price)
  match_orders zero b inc s current = success b
  match_orders (suc fuel) b inc s none = success b
  match_orders (suc fuel) b inc s (some a) =
      let rest = match_once b inc s a >>= λ r. match_orders fuel r.0 inc s r.1 in
      if is_fully_filled (b.store inc) then success b else rest

  module _ ⦃d : Double Price⦄ ⦃k : Key Price⦄ where
    -- Two rounds of fuel are enough: no run makes a third.
    unfoldable pub match_against_price_level :
        OrderBook Price → Addr → Slot → Result Undefined (OrderBook Price)
    match_against_price_level b inc s = level_at b s >>= λ l.
        match_orders 2 b inc s l.head >>= λ b1. level_at b1 s >>= λ l1.
        (if is_empty_level l1
          then remove_price_level b1 s (opposite (b1.store inc).side)
          else success b1)

    -- The `for` over the levels, `count` of them from slot `i` on: the end of the vector is
    -- read once, before the loop, while the loop may shorten the vector.
    unfoldable pub match_slots :
        ℕ → OrderBook Price → Addr → Side → ℕ → Result Undefined (OrderBook Price)
    match_slots zero b inc side i = success b
    match_slots (suc count) b inc side i = level_at b (record { side = side; index = i }) >>= λ l.
        (let further = match_against_price_level b inc (record { side = side; index = i }) >>= λ b1.
        match_slots count b1 inc side (suc i) in
          if is_empty_level l || is_fully_filled (b.store inc)
          then success b
          else if not (crosses_level (b.store inc) l)
          then success b
          else further)

    -- `executeMatching` on the levels of `side`, the opposite of the incoming order's.
    unfoldable pub execute_matching :
        OrderBook Price → Addr → Side → Result Undefined (OrderBook Price)
    execute_matching b inc side =
        let ls = sort_levels (b.store inc).side (levels_of b side) in
        match_slots (length ls) (set_levels b side ls) inc side 0

    -- The levels have a best one, that the incoming order may trade with.
    abbrev pub can_match_best : Order Price → Option (PriceLevel Price) → Bool
    can_match_best o none = false
    can_match_best o (some l) = crosses_level o l && not (is_empty_level l)

    unfoldable pub process_matching : OrderBook Price → Addr → Result Undefined (OrderBook Price)
    process_matching b inc =
        let side = opposite (b.store inc).side in
        if can_match_best (b.store inc) (back (levels_of b side))
        then execute_matching b inc side
        else success b
