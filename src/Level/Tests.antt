-- ===== src/Level/Tests.antt =====
-- A level of sell orders, and the theorems on the queue at it.
use financial_order_book.Prelude.{ℕ, ◌≡◌, refl, arith, [], ◌∷◌, none, some}
use financial_order_book.Prelude.Text.{codes}
use financial_order_book.Types.{Side, OrderType, TimeInForce}
use financial_order_book.Order.{Addr, new_order}
use financial_order_book.Order.Fill.{IsSound}
use financial_order_book.Level.{
  Store, PriceLevel, empty_level, add_order, remove_order, write, set_next, set_prev,
}
use financial_order_book.Level.Queue.{IsQueue, add_order-IsQueue, remove_order-IsQueue}

-- At address `a` a sell order for five units at 100.
abbrev pub five_each : Store ℕ
five_each a =
    new_order a Side.sell OrderType.limit TimeInForce.gtc 100 5 (codes "BTC/USD") (codes "shop")

pub five_each-IsSound : (a : Addr) → IsSound (five_each a)
five_each-IsSound a = record { within = omega arith; range = omega arith }

abbrev pub one_order : Store ℕ × PriceLevel ℕ
one_order = add_order five_each (empty_level 100) 1

abbrev pub two_orders : Store ℕ × PriceLevel ℕ
two_orders = add_order one_order.0 one_order.1 2

pub empty-IsQueue : IsQueue five_each (empty_level 100) []
empty-IsQueue = record { links = (refl, refl); distinct = tt; total = refl; count = refl }

pub one_order-IsQueue : IsQueue one_order.0 one_order.1 (1 ∷ [])
one_order-IsQueue = add_order-IsQueue five_each (empty_level 100) [] 1 empty-IsQueue tt

pub two_orders-IsQueue : IsQueue two_orders.0 two_orders.1 (1 ∷ 2 ∷ [])
two_orders-IsQueue =
    add_order-IsQueue one_order.0 one_order.1 (1 ∷ []) 2 one_order-IsQueue ((λ e. omega arith), tt)

pub two_orders-IsSound : (a : Addr) → IsSound (two_orders.0 a)
unfolding add_order set_next set_prev write
two_orders-IsSound a = ground arith

links_of_two :
    (two_orders.1.head ≡ some 1)
    × ((two_orders.0 1).next ≡ some 2)
    × ((two_orders.0 2).prev ≡ some 1)
    × (two_orders.1.total_quantity ≡ 10)
unfolding add_order set_next set_prev write
links_of_two = (refl, refl, refl, refl)

add_order-IsQueue_example : IsQueue one_order.0 one_order.1 (1 ∷ [])
add_order-IsQueue_example = add_order-IsQueue five_each (empty_level 100) [] 1 empty-IsQueue tt

remove_order-IsQueue_example :
    let r = remove_order two_orders.0 two_orders.1 1 in
    IsQueue r.0 r.1 (2 ∷ []) × ((r.0 1).next ≡ none) × ((r.0 1).prev ≡ none)
remove_order-IsQueue_example =
    remove_order-IsQueue two_orders.0 two_orders.1 [] (2 ∷ []) 1 two_orders-IsQueue
