-- ===== src/Matching.antt =====
-- src/Core/MatchingEngine.cpp and include/orderbook/Core/MatchingEngine.hpp. The engine keeps the
-- trade counter; the resting orders and their levels are the caller's, as a store and a list.
-- Logging and latency measurement are left out.
pub mod Body
pub mod OneTrade
pub mod Accounting
pub mod Results
pub mod Priority
pub mod Tests
use financial_order_book.Prelude.{
  ℕ, zero, suc, ◌+◌, ◌-◌, Bool, true, false, not, ◌&&◌, ◌||◌, List, [], ◌∷◌, ◌++◌, Option, none,
  some, min, leb, ltb, ◌==◌, if◌then◌else◌,
}
use financial_order_book.Prelude.Double.{Double}
use financial_order_book.Prelude.Text.{Bytes, bytes_eq}
use financial_order_book.Types.{Side, OrderStatus, u64, add64, sub64, side_eq}
use financial_order_book.Order.{
  Addr, Order, Trade, is_buy, is_fully_filled, remaining_quantity, fill,
}
use financial_order_book.Report.{ExecutionReport, generate_execution_report}
use financial_order_book.Level.{Store, PriceLevel, write, update_quantity, is_empty_level}

-- What one run over a level works on: the orders, the level, the incoming order, the trades so
-- far, the quantity filled here, the trade counter, and the order that is looked at. A `break`
-- clears the last.
pub record MatchState (Price : Type 0) : Type 0 where
  pub store : Store Price
  pub level : PriceLevel Price
  pub incoming : Order Price
  pub trades : List (Trade Price)
  pub total_filled : ℕ
  pub trade_counter : ℕ
  pub current : Option Addr

pub record Progress (Price : Type 0) : Type 0 where
  pub store : Store Price
  pub incoming : Order Price
  pub trades : List (Trade Price)
  pub total : ℕ
  pub trade_counter : ℕ

pub record MatchResult (Price : Type 0) : Type 0 where
  pub trades : List (Trade Price)
  pub execution_reports : List (ExecutionReport Price)
  pub remaining_order : Option (Order Price)
  pub fully_filled : Bool
  pub total_filled_quantity : ℕ

module _ {Price : Type 0} where
  abbrev pub trade_of : ℕ → Order Price → Order Price → Price → ℕ → Trade Price
  trade_of id aggressive passive price quantity = record {
    id = id;
    buy_order_id = if is_buy aggressive then aggressive.id else passive.id;
    sell_order_id = if is_buy aggressive then passive.id else aggressive.id;
    price = price;
    quantity = quantity;
    symbol = aggressive.symbol;
  }

  module _ ⦃d : Double Price⦄ where
    abbrev pub can_match : Price → Price → Bool
    can_match buy_price sell_price = d.le sell_price buy_price

    abbrev pub price_crosses : Order Price → Order Price → Bool
    price_crosses aggressive passive =
        if is_buy aggressive
        then d.le passive.price aggressive.price
        else d.le aggressive.price passive.price

    unfoldable pub validate_trade : Order Price → Order Price → ℕ → Bool
    validate_trade aggressive passive quantity =
        if quantity == 0
        then false
        else if ltb (remaining_quantity aggressive) quantity
        then false
        else if ltb (remaining_quantity passive) quantity
        then false
        else if not (bytes_eq aggressive.symbol passive.symbol)
        then false
        else if side_eq aggressive.side passive.side
        then false
        else price_crosses aggressive passive

    -- The rest of the loop body, from `executeTrade` on, for the order at `a`.
    unfoldable pub trade_with : MatchState Price → Addr → ℕ → MatchState Price
    trade_with m a q =
        let store' = write m.store a (fill (m.store a) q) in
        let r = update_quantity store' m.level a q in
        record {
          store = r.0;
          level = r.1;
          incoming = fill m.incoming q;
          trades =
              m.trades
              ++ trade_of m.trade_counter (fill m.incoming q) (store' a) m.level.price q ∷ [];
          total_filled = add64 m.total_filled q;
          trade_counter = add64 m.trade_counter 1;
          current = if is_fully_filled (r.0 a) then (r.0 a).next else some a;
        }

    abbrev pub stop : MatchState Price → MatchState Price
    stop m = record m { current = none }

    unfoldable pub match_body : MatchState Price → Addr → MatchState Price
    match_body m a =
        let q = min (remaining_quantity m.incoming) (remaining_quantity (m.store a)) in
        if q == 0
        then stop m
        else if not (validate_trade m.incoming (m.store a) q)
        then stop m
        else trade_with m a q

    -- The guard of the `while`, and one round of it where the guard holds.
    unfoldable pub running : MatchState Price → Bool
    running m = elim m.current [ none ↦ false | some a ↦ not (is_fully_filled m.incoming) ]

    unfoldable pub match_round : MatchState Price → MatchState Price
    match_round m = elim m.current [ none ↦ m | some a ↦ match_body m a ]

    pub match_loop : ℕ → MatchState Price → MatchState Price
    match_loop zero m = m
    match_loop (suc fuel) m =
        let rest = match_loop fuel (match_round m) in if running m then rest else m

    -- `matchAgainstPriceLevel`. Two rounds of fuel are enough, since no run makes a third.
    abbrev pub start :
        Store Price → PriceLevel Price → Order Price → List (Trade Price) → ℕ → MatchState Price
    start s l incoming trades counter = record {
      store = s;
      level = l;
      incoming = incoming;
      trades = trades;
      total_filled = 0;
      trade_counter = counter;
      current = l.head;
    }

    abbrev pub match_against_price_level :
        Store Price → PriceLevel Price → Order Price → List (Trade Price) → ℕ → MatchState Price
    match_against_price_level s l incoming trades counter =
        match_loop 2 (start s l incoming trades counter)

    -- What the loop over the levels works on. `total` is `result.total_filled_quantity`.
    abbrev pub after_level : Progress Price → MatchState Price → Progress Price
    after_level p m = record {
      store = m.store;
      incoming = m.incoming;
      trades = m.trades;
      total = add64 p.total m.total_filled;
      trade_counter = m.trade_counter;
    }

    abbrev pub crosses_level : Order Price → PriceLevel Price → Bool
    crosses_level o l = if is_buy o then can_match o.price l.price else can_match l.price o.price

    abbrev pub keep_level :
        PriceLevel Price
        → Progress Price × List (PriceLevel Price)
        → Progress Price × List (PriceLevel Price)
    keep_level l r = (r.0, l ∷ r.1)

    -- The `for` over the sorted levels, with the levels as it leaves them.
    pub match_levels :
        Progress Price → List (PriceLevel Price) → Progress Price × List (PriceLevel Price)
    match_levels p [] = (p, [])
    match_levels p (l ∷ ls) =
        let m = match_against_price_level p.store l p.incoming p.trades p.trade_counter in
        let p' = after_level p m in
        let skipped = keep_level l (match_levels p ls) in
        let further = keep_level m.level (match_levels p' ls) in
        if is_empty_level l
        then skipped
        else if not (crosses_level p.incoming l)
        then (p, l ∷ ls)
        else if is_fully_filled m.incoming
        then (p', m.level ∷ ls)
        else further

    -- `std::sort` by price, ascending to match a buy order and descending to match a sell order.
    abbrev pub goes_before : Side → PriceLevel Price → PriceLevel Price → Bool
    goes_before Side.buy a b = d.lt a.price b.price
    goes_before Side.sell a b = d.lt b.price a.price

    unfoldable pub insert_level :
        Side → PriceLevel Price → List (PriceLevel Price) → List (PriceLevel Price)
    insert_level side l [] = l ∷ []
    insert_level side l (m ∷ ms) =
        if goes_before side m l then m ∷ insert_level side l ms else l ∷ m ∷ ms

    unfoldable pub sort_levels : Side → List (PriceLevel Price) → List (PriceLevel Price)
    unfolding insert_level
    sort_levels side [] = []
    sort_levels side (l ∷ ls) = insert_level side l (sort_levels side ls)

    abbrev last_id : List (Trade Price) → Option ℕ
    last_id [] = none
    last_id (t ∷ []) = some t.id
    last_id (t ∷ u ∷ ts) = last_id (u ∷ ts)

    -- What follows the loop in `matchBuyOrder` and `matchSellOrder`.
    unfoldable pub match_result : Progress Price → MatchResult Price
    match_result p = record {
      trades = p.trades;
      execution_reports =
          if ltb 0 p.total
          then generate_execution_report p.incoming (last_id p.trades) ∷ []
          else [];
      remaining_order = if is_fully_filled p.incoming then none else some p.incoming;
      fully_filled = is_fully_filled p.incoming;
      total_filled_quantity = p.total;
    }

    -- `matchOrder`, `matchBuyOrder` and `matchSellOrder`: the result, what the call has made of
    -- the orders, the incoming order and the counter, and the levels.
    pub match_order :
        Store Price
        → ℕ
        → Order Price
        → List (PriceLevel Price)
        → MatchResult Price × Progress Price × List (PriceLevel Price)
    match_order s counter incoming levels =
        let p : Progress Price = record {
          store = s;
          incoming = incoming;
          trades = [];
          total = 0;
          trade_counter = counter;
        } in
        let r = match_levels p (sort_levels incoming.side levels) in (match_result r.0, r.0, r.1)
