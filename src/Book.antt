-- ===== src/Book.antt =====
-- include/orderbook/Core/OrderBook.hpp, the market data structures of
-- include/orderbook/Core/Interfaces.hpp and include/orderbook/Core/MarketData.hpp, and the queries
-- and the publication of src/Core/OrderBook.cpp. `bids` and `asks` are the vectors from front to
-- back, with the best price at the back. A `PriceLevel*` is a slot of a vector, which keeps its
-- number when the vector grows or shrinks, as long as the reserved capacity is not exceeded.
pub mod Index
pub mod Trading
pub mod Calls
pub mod Depth
pub mod Sorting
pub mod Sorted
pub mod Sequence
pub mod Kept
pub mod Lookup
pub mod Rounds
mod Tests
use financial_order_book.Prelude.{
  ℕ, zero, suc, ◌+◌, ◌-◌, Bool, true, false, List, [], ◌∷◌, ◌++◌, Option, none, some, min, ◌==◌,
  length, if◌then◌else◌,
}
use financial_order_book.Types.{Side, Result, success, error, add64, ◌>>=◌, result_of}
use financial_order_book.Order.{Trade}
use financial_order_book.Level.{Store, PriceLevel, OrderLocation}
use financial_order_book.Risk.{RiskManager, RiskReason}

pub record Slot : Type 0 where
  pub side : Side
  pub index : ℕ

-- `BookUpdate::Type`
pub data UpdateType : Type 0 where
  add remove modify : UpdateType

pub record BookUpdate (Price : Type 0) : Type 0 where
  pub type : UpdateType
  pub side : Side
  pub price : Price
  pub quantity : ℕ
  pub order_count : ℕ
  pub sequence : ℕ

-- `MarketDepth::Level`
pub record DepthLevel (Price : Type 0) : Type 0 where
  pub price : Price
  pub quantity : ℕ
  pub order_count : ℕ

pub record MarketDepth (Price : Type 0) : Type 0 where
  pub bids : List (DepthLevel Price)
  pub asks : List (DepthLevel Price)

pub record BestPrices (Price : Type 0) : Type 0 where
  pub bid : Option Price
  pub ask : Option Price
  pub bid_size : Option ℕ
  pub ask_size : Option ℕ

-- A call on the market data publisher.
pub data Event (Price : Type 0) : Type 0 where
  trade : Trade Price → Event Price
  book_update : BookUpdate Price → Event Price
  best_prices : BestPrices Price → Event Price
  depth : MarketDepth Price → Event Price

-- `risk_manager` is `none` and `has_market_data` false where the pointer is null. `events` are
-- the calls on the publisher, in order. `store` holds the orders, `book_sequence` and
-- `trade_counter` are the static counters.
pub record OrderBook (Price : Type 0) : Type 0 where
  pub bids : List (PriceLevel Price)
  pub asks : List (PriceLevel Price)
  pub price_index : List (Price × Slot)
  pub order_index : List (ℕ × OrderLocation Slot)
  pub risk_manager : Option (RiskManager Price)
  pub has_market_data : Bool
  pub events : List (Event Price)
  pub store : Store Price
  pub book_sequence : ℕ
  pub trade_counter : ℕ

-- What the source leaves undefined: a level pointer past the end of its vector, and a read of
-- the incoming order after it was deleted.
pub data Undefined : Type 0 where
  dangling_level freed_order : Undefined

-- The error results of the calls.
pub data BookError (Price : Type 0) : Type 0 where
  risk_validation_failed : RiskReason Price → BookError Price
  order_id_already_exists order_not_found invalid_order_location : BookError Price

-- `std::abs(a - b) < MinPriceIncrement` and `std::abs(a - b) > MinPriceIncrement`
pub record Increment (W : Type 0) : Type 0 where
  pub within : W → W → Bool
  pub beyond : W → W → Bool

-- Slots of a list, and its last element.
module _ {ℓ} {A : Type ℓ} where
  unfoldable pub nth : List A → ℕ → Option A
  nth [] i = none
  nth (x ∷ xs) zero = some x
  nth (x ∷ xs) (suc i) = nth xs i

  unfoldable pub set_nth : List A → ℕ → A → List A
  set_nth [] i y = []
  set_nth (x ∷ xs) zero y = y ∷ xs
  set_nth (x ∷ xs) (suc i) y = x ∷ set_nth xs i y

  unfoldable pub erase_nth : List A → ℕ → List A
  erase_nth [] i = []
  erase_nth (x ∷ xs) zero = xs
  erase_nth (x ∷ xs) (suc i) = x ∷ erase_nth xs i

  unfoldable pub back : List A → Option A
  unfolding nth
  back xs = nth xs (length xs - 1)

abbrev pub map_option {ℓ κ} : {A : Type ℓ} {B : Type κ} → (A → B) → Option A → Option B
map_option f none = none
map_option f (some a) = some (f a)

module _ {Price : Type 0} where
  -- The constructor. What it reserves is not modelled.
  abbrev pub new_book : Option (RiskManager Price) → Bool → Store Price → ℕ → ℕ → OrderBook Price
  new_book risk_manager market_data store book_sequence trade_counter = record {
    bids = [];
    asks = [];
    price_index = [];
    order_index = [];
    risk_manager = risk_manager;
    has_market_data = market_data;
    events = [];
    store = store;
    book_sequence = book_sequence;
    trade_counter = trade_counter;
  }

  abbrev pub levels_of : OrderBook Price → Side → List (PriceLevel Price)
  levels_of b Side.buy = b.bids
  levels_of b Side.sell = b.asks

  abbrev pub set_levels : OrderBook Price → Side → List (PriceLevel Price) → OrderBook Price
  set_levels b Side.buy ls = record b { bids = ls }
  set_levels b Side.sell ls = record b { asks = ls }

  unfoldable pub level_at : OrderBook Price → Slot → Result Undefined (PriceLevel Price)
  level_at b s = result_of dangling_level (nth (levels_of b s.side) s.index)

  -- A write through a level pointer.
  unfoldable pub put_level : OrderBook Price → Slot → PriceLevel Price → OrderBook Price
  put_level b s l = set_levels b s.side (set_nth (levels_of b s.side) s.index l)

  unfoldable pub best_bid : OrderBook Price → Option Price
  best_bid b = map_option (λ l. l.price) (back b.bids)

  unfoldable pub best_ask : OrderBook Price → Option Price
  best_ask b = map_option (λ l. l.price) (back b.asks)

  unfoldable pub get_best_prices : OrderBook Price → BestPrices Price
  get_best_prices b = record {
    bid = map_option (λ l. l.price) (back b.bids);
    ask = map_option (λ l. l.price) (back b.asks);
    bid_size = map_option (λ l. l.total_quantity) (back b.bids);
    ask_size = map_option (λ l. l.total_quantity) (back b.asks);
  }

  abbrev pub depth_level : PriceLevel Price → DepthLevel Price
  depth_level l = record {
    price = l.price;
    quantity = l.total_quantity;
    order_count = l.order_count;
  }

  -- The `for` of `getDepth` on one side: `count` rounds from `i` on. An index that is out of
  -- range, which is undefined, ends it.
  unfoldable pub depth_loop : List (PriceLevel Price) → ℕ → ℕ → List (DepthLevel Price)
  depth_loop ls zero i = []
  depth_loop ls (suc count) i = elim (nth ls (length ls - 1 - i)) [
    | none ↦ []
    | some l ↦ depth_level l ∷ depth_loop ls count (suc i)
  ]

  unfoldable pub get_depth : OrderBook Price → ℕ → MarketDepth Price
  get_depth b n = record {
    bids = depth_loop b.bids (min n (length b.bids)) 0;
    asks = depth_loop b.asks (min n (length b.asks)) 0;
  }

  abbrev pub get_order_count : OrderBook Price → ℕ
  get_order_count b = length b.order_index

  abbrev pub get_bid_level_count : OrderBook Price → ℕ
  get_bid_level_count b = length b.bids

  abbrev pub get_ask_level_count : OrderBook Price → ℕ
  get_ask_level_count b = length b.asks

  unfoldable pub publish_market_data_update : OrderBook Price → OrderBook Price
  publish_market_data_update b =
      if b.has_market_data
      then record b {
        events = b.events ++ best_prices (get_best_prices b) ∷ depth (get_depth b 5) ∷ [];
      }
      else b

  unfoldable pub publish_book_update :
      OrderBook Price → UpdateType → Side → Price → ℕ → ℕ → OrderBook Price
  publish_book_update b type side price quantity order_count =
      if b.has_market_data
      then record b {
        events =
            b.events
            ++ book_update (record {
              type = type;
              side = side;
              price = price;
              quantity = quantity;
              order_count = order_count;
              sequence = add64 b.book_sequence 1;
            })
              ∷ [];
        book_sequence = add64 b.book_sequence 1;
      }
      else b
