-- ===== src/Book/Tests.antt =====
-- A book in whole cents with one bid and two asks, and the theorems on the order book at it.
use mathlib.Core.Option.{some-injective}
use financial_order_book.Prelude.{
  arith, ℕ, ◌==◌, ◌≡◌, refl, inl, inr, [], ◌∷◌, Option, none, some, true, false, map, ltb, ◌||◌,
  ◌+◌, ◌*◌, if◌then◌else◌, ap, Bool,
}
use financial_order_book.Prelude.Double.{cents_double, cents-IsOrdered}
use financial_order_book.Prelude.Map.{nat_key, lookup, insert, erase}
use financial_order_book.Types.{Side, OrderType, TimeInForce, Result, success, error}
use financial_order_book.Order.{Order, new_order, fill}
use financial_order_book.Level
use financial_order_book.Level.{
  Store, PriceLevel, OrderLocation, write, remove_order, update_quantity, unlink, set_next,
  set_prev,
}
use financial_order_book.Matching.{insert_level, sort_levels}
use financial_order_book.Book.{
  OrderBook, Slot, Increment, Undefined, order_not_found, depth_level, map_option, nth, set_nth,
  erase_nth, back, new_book, level_at, put_level, best_bid, best_ask, get_best_prices, depth_loop,
  get_depth, publish_market_data_update, publish_book_update,
}
use financial_order_book.Book.Index.{
  is_sorted, sorted_if_needed, lower_bound, index_levels, rebuild_price_index,
  maintain_sorted_order, create_price_level, take_or_create, find_or_create_price_level,
  erase_level, remove_price_level,
}
use financial_order_book.Book.Trading.{
  execute_trade, publish_passive, drop_filled, trade_at, match_once, match_orders,
  match_against_price_level, match_slots, can_match_best, execute_matching, process_matching,
}
use financial_order_book.Book.Calls.{
  Call, enqueue, dequeue, locate, change_quantity, modify_quantity, take_out, put_in, add_copy,
  add_checked, add_order, move_order, modify_price, modify_order, cancel_order,
}
use financial_order_book.Matching.Priority.{SortedLevels}
use financial_order_book.Book.Depth.{take, reverse, get_depth-take}
use financial_order_book.Book.Sorted.{SortedBook, calls-SortedBook, process_matching_reverses}
use financial_order_book.Book.Sequence.{IsFollowed, calls-IsFollowed}
use financial_order_book.Matching.Body.{AllSound}
use financial_order_book.Book.Rounds.{match_orders_enough}
use financial_order_book.Book.Lookup.{cancel_order_once}

instance abbrev cents_increment : Increment ℕ
cents_increment = record { within = λ a b. a == b; beyond = λ a b. ltb (a + 1) b || ltb (b + 1) a }

abbrev order_at : ℕ → Side → ℕ → ℕ → Order ℕ
order_at id side price quantity =
    new_order id side OrderType.limit TimeInForce.gtc price quantity (65 ∷ []) (66 ∷ [])

abbrev empty_book : OrderBook ℕ
empty_book = new_book none true (λ a. order_at 0 Side.buy 0 0) 0 1

abbrev level_of : ℕ → ℕ → PriceLevel ℕ
level_of price a = record {
  price = price;
  total_quantity = 5;
  order_count = 1;
  head = some a;
  tail = some a;
}

abbrev location_of : Side → ℕ → ℕ → OrderLocation Slot
location_of side index a = record {
  order = some a;
  price_level = some (record { side = side; index = index });
  side = side;
}

-- A bid at 1.00, and asks at 1.07 and 1.05, of five units each.
abbrev three_orders : OrderBook ℕ
three_orders = record empty_book {
  bids = level_of 100 1 ∷ [];
  asks = level_of 107 3 ∷ level_of 105 2 ∷ [];
  price_index =
      (100, record { side = Side.buy; index = 0 })
      ∷ (107, record { side = Side.sell; index = 0 })
      ∷ (105, record { side = Side.sell; index = 1 })
      ∷ [];
  order_index =
      (1, location_of Side.buy 0 1)
      ∷ (2, location_of Side.sell 1 2)
      ∷ (3, location_of Side.sell 0 3)
      ∷ [];
  store = λ a. if a == 1 then order_at 1 Side.buy 100 5 else order_at a Side.sell (101 + 2 * a) 5;
}

abbrev book_of : {A : Type 0} → Call ℕ A → OrderBook ℕ
book_of (success (r, b)) = b
book_of (error e) = empty_book

abbrev granted : {A : Type 0} → Call ℕ A → Option A
granted (success (success x, b)) = some x
granted (success (error e, b)) = none
granted (error e) = none

granted-book_of :
    {A : Type 0} (x : A) (c : Call ℕ A) → granted c ≡ some x → c ≡ success (success x, book_of c)
granted-book_of x (success (success y, b)) h =
    ap (λ z. success (success z, b)) (some-injective _ _ h)
granted-book_of x (success (error e, b)) h = cc h
granted-book_of x (error e) h = cc h

abbrev cancelled : Call ℕ Bool
cancelled = cancel_order three_orders 1

abbrev modified : Call ℕ Bool
modified = modify_order three_orders 3 104 9

abbrev crossed : Call ℕ ℕ
crossed = add_order three_orders 4 (order_at 4 Side.buy 106 2)

-- A sell order at the price of the bid, which fills it.
abbrev shared : Call ℕ ℕ
shared = add_order three_orders 4 (order_at 4 Side.sell 100 2)

-- The book with a bid for two units at 1.06 that is in no level yet.
abbrev bidding : OrderBook ℕ
bidding = record three_orders {
  store = λ a. if a == 4 then order_at 4 Side.buy 106 2 else three_orders.store a;
}

abbrev book_or : OrderBook ℕ → Result Undefined (OrderBook ℕ) → OrderBook ℕ
book_or b (success b') = b'
book_or b (error e) = b

abbrev is_defined : Result Undefined (OrderBook ℕ) → Bool
is_defined (success b) = true
is_defined (error e) = false

defined-book_or :
    (b : OrderBook ℕ) (r : Result Undefined (OrderBook ℕ))
    → is_defined r ≡ true
    → r ≡ success (book_or b r)
defined-book_or b (success b') h = refl
defined-book_or b (error e) h = cc h

-- A cancellation; a modification that makes a new best ask; a purchase at 1.05, after which the
-- best ask is read as 1.07; and a sell order that joins the level of the bid.
runs :
    (granted cancelled ≡ some true)
    × (best_bid (book_of cancelled) ≡ none)
    × (granted modified ≡ some true)
    × (best_ask (book_of modified) ≡ some 104)
    × (granted crossed ≡ some 4)
    × (best_ask (book_of crossed) ≡ some 107)
    × (map (λ l. l.order_count) (book_of shared).bids ≡ 2 ∷ [])
    × (map (λ l. l.price) (book_of shared).asks ≡ 107 ∷ 105 ∷ [])
    × (can_match_best (bidding.store 4) (back bidding.asks) ≡ true)
    × (is_defined (process_matching bidding 4) ≡ true)
unfolding nth set_nth erase_nth back level_at put_level best_bid best_ask get_best_prices depth_loop
    get_depth publish_market_data_update publish_book_update is_sorted sorted_if_needed lower_bound
    index_levels rebuild_price_index maintain_sorted_order create_price_level take_or_create
    find_or_create_price_level erase_level remove_price_level execute_trade publish_passive
    drop_filled trade_at match_once match_orders match_against_price_level match_slots
    execute_matching process_matching enqueue dequeue locate change_quantity modify_quantity
    take_out put_in add_copy add_checked add_order move_order modify_price modify_order cancel_order
    insert_level sort_levels Level.add_order write remove_order update_quantity unlink set_next
    set_prev lookup insert erase fill
runs = (refl, refl, refl, refl, refl, refl, refl, refl, refl, refl)

calls-IsFollowed_example : IsFollowed 0 (book_of modified)
calls-IsFollowed_example =
    calls-IsFollowed 0 three_orders (book_of modified) 4 (order_at 4 Side.buy 106 2) 3 104 9
      (success 4) (success true) refl (inr (inr (granted-book_of true modified runs.2)))

calls-SortedBook_example : SortedBook (book_of cancelled)
calls-SortedBook_example =
    calls-SortedBook cents-IsOrdered three_orders (book_of cancelled) 1 0 0 (success true)
      (ground arith) (inl (granted-book_of true cancelled runs.0))

process_matching_reverses_example :
    SortedLevels Side.buy (book_or three_orders (process_matching bidding 4)).asks
process_matching_reverses_example =
    process_matching_reverses cents-IsOrdered bidding
      (book_or three_orders (process_matching bidding 4)) 4 (runs.8)
      (defined-book_or three_orders (process_matching bidding 4) runs.9)

cancel_order_once_example :
    let b = book_of cancelled in
    (cancel_order b 1 ≡ success (error order_not_found, b))
    × (modify_order b 1 104 9 ≡ success (error order_not_found, b))
cancel_order_once_example =
    cancel_order_once three_orders (book_of cancelled) 1 true 104 9
      (granted-book_of true cancelled runs.0)

get_depth-take_example :
    ((get_depth three_orders 1).bids ≡ map depth_level (take 1 (reverse three_orders.bids)))
    × ((get_depth three_orders 1).asks ≡ map depth_level (take 1 (reverse three_orders.asks)))
    × (map_option (λ d. d.price) (nth (get_depth three_orders 2).bids 0) ≡ best_bid three_orders)
    × (map_option (λ d. d.price) (nth (get_depth three_orders 2).asks 0) ≡ best_ask three_orders)
get_depth-take_example = get_depth-take three_orders 1

bidding-AllSound : AllSound bidding.store
bidding-AllSound a = ground arith

match_orders_enough_example :
    let s : Slot = record { side = Side.sell; index = 1 } in
    match_orders 7 bidding 4 s (some 2) ≡ match_orders 2 bidding 4 s (some 2)
match_orders_enough_example =
    match_orders_enough 5 bidding 4 (record { side = Side.sell; index = 1 }) 2 bidding-AllSound
      (λ e. omega arith)
