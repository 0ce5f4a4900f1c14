-- ===== src/Matching/Tests.antt =====
-- A buy order against a level of two sell orders, and the theorems on matching at it.
use mathlib.Core.List.{Perm}
use financial_order_book.Prelude.{◌≡◌, ◌<◌, refl, ◌⊎◌, [], ◌∷◌, some, false}
use financial_order_book.Prelude.Double.{cents_double, cents-IsOrdered}
use financial_order_book.Prelude.Text.{bytes_eq}
use financial_order_book.Types.{Side}
use financial_order_book.Order.{Addr, fill}
use financial_order_book.Order.Tests.{ten, ten-IsSound}
use financial_order_book.Level.{
  add_order, remove_order, update_quantity, write, set_next, set_prev, unlink, empty_level,
}
use financial_order_book.Level.Tests.{two_orders, two_orders-IsSound}
use financial_order_book.Matching.{
  start, running, match_loop, match_round, match_body, trade_with, match_against_price_level,
  match_order, match_levels, match_result, validate_trade, sort_levels, insert_level,
}
use financial_order_book.Matching.Body.{least}
use financial_order_book.Matching.Results.{Settles, match_order-Settles, match_loop_once}
use financial_order_book.Matching.Priority.{SortedLevels, RankedTrades, match_order-RankedTrades}

-- Ten units are wanted at up to 1.05, two orders of five stand at 1.00; five are traded.
half_matched : (match_order two_orders.0 1 ten (two_orders.1 ∷ [])).0.total_filled_quantity ≡ 5
unfolding match_order match_levels match_result match_loop match_round match_body trade_with running
    validate_trade sort_levels insert_level add_order remove_order update_quantity unlink set_next
    set_prev write fill bytes_eq
half_matched = refl

match_order-Settles_example :
    let r = match_order two_orders.0 1 ten (two_orders.1 ∷ []) in Settles ten 1 r.0 r.1
match_order-Settles_example =
    match_order-Settles two_orders.0 1 ten (two_orders.1 ∷ []) two_orders-IsSound ten-IsSound

match_loop_once_example :
    let m = start two_orders.0 two_orders.1 ten [] 1 in
    let m' = match_loop 5 m in
    (m' ≡ match_against_price_level two_orders.0 two_orders.1 ten [] 1)
    × (running m' ≡ false)
    × (((m'.trades ≡ [])
          × (m'.incoming ≡ ten)
          × (m'.store ≡ two_orders.0)
          × (m'.level ≡ two_orders.1))
        ⊎ ((a : Addr) × (two_orders.1.head ≡ some a)
            × (0 < least m a)
            × (m' ≡ trade_with m a (least m a))))
match_loop_once_example =
    match_loop_once 3 two_orders.0 two_orders.1 ten 1 two_orders-IsSound ten-IsSound

match_order-RankedTrades_example :
    let ls = two_orders.1 ∷ empty_level 90 ∷ [] in
    Perm (sort_levels Side.buy ls) ls
    × SortedLevels Side.buy (sort_levels Side.buy ls)
    × RankedTrades Side.buy (match_order two_orders.0 1 ten ls).0.trades
match_order-RankedTrades_example =
    match_order-RankedTrades cents-IsOrdered two_orders.0 1 ten (two_orders.1 ∷ empty_level 90 ∷ [])
      two_orders-IsSound ten-IsSound
