-- ===== src/Feed/Format.antt =====
-- src/MarketData/MarketDataFeed.cpp: the texts of the messages, and the four publications. The
-- text of a time stamp, in microseconds, is an argument.
use financial_order_book.Prelude.{ℕ, Bool, List, [], ◌∷◌, ◌++◌, Option, none, some, length}
use financial_order_book.Prelude.Double.{Double}
use financial_order_book.Prelude.Decimal.{to_string}
use financial_order_book.Prelude.Text.{Bytes, codes}
use financial_order_book.Types.{Side, add64}
use financial_order_book.Order.{Trade}
use financial_order_book.Book.{BookUpdate, UpdateType, BestPrices, MarketDepth, DepthLevel}
use financial_order_book.Feed.{
  World, Publisher, on_trade, on_book_update, on_best_prices, on_depth, publish, next_sequence,
}

-- The parts with a bar before each but the first.
abbrev pub barred : List Bytes → Bytes
barred [] = []
barred (s ∷ ss) = b'|' ∷ s ++ barred ss

abbrev update_name : UpdateType → Bytes
update_name UpdateType.add = codes "ADD"
update_name UpdateType.remove = codes "REMOVE"
update_name UpdateType.modify = codes "MODIFY"

abbrev side_name : Side → Bytes
side_name Side.buy = codes "BUY"
side_name Side.sell = codes "SELL"

abbrev or_nought : Option ℕ → ℕ
or_nought none = 0
or_nought (some n) = n

module _ {Price : Type 0} ⦃d : Double Price⦄ where
  unfoldable pub format_trade_message : Bytes → Trade Price → ℕ → Bytes
  format_trade_message stamp t seq =
      codes "TRADE"
      ++ barred (
          to_string seq
          ∷ to_string t.id
          ∷ t.symbol
          ∷ d.fixed2 t.price
          ∷ to_string t.quantity
          ∷ to_string t.buy_order_id
          ∷ to_string t.sell_order_id
          ∷ stamp
          ∷ [])

  unfoldable pub format_book_update_message : Bytes → BookUpdate Price → Bytes
  format_book_update_message stamp u =
      codes "BOOK"
      ++ barred (
          to_string u.sequence
          ∷ update_name u.type
          ∷ side_name u.side
          ∷ d.fixed2 u.price
          ∷ to_string u.quantity
          ∷ to_string u.order_count
          ∷ stamp
          ∷ [])

  -- The price and the size of one side of the best prices.
  abbrev best_parts : Option Price → Option ℕ → List Bytes
  best_parts none size = codes "0" ∷ codes "0" ∷ []
  best_parts (some p) size = d.fixed2 p ∷ to_string (or_nought size) ∷ []

  unfoldable pub format_best_prices_message : Bytes → BestPrices Price → ℕ → Bytes
  format_best_prices_message stamp p seq =
      codes "BEST"
      ++ barred
          (to_string seq ∷ best_parts p.bid p.bid_size ++ best_parts p.ask p.ask_size ++ stamp ∷ [])

  abbrev level_parts : List (DepthLevel Price) → List Bytes
  level_parts [] = []
  level_parts (l ∷ ls) =
      d.fixed2 l.price ∷ to_string l.quantity ∷ to_string l.order_count ∷ level_parts ls

  unfoldable pub format_depth_message : Bytes → MarketDepth Price → ℕ → Bytes
  format_depth_message stamp m seq =
      codes "DEPTH"
      ++ barred (
          to_string seq ∷ to_string (length m.bids) ∷ level_parts m.bids
          ++ to_string (length m.asks) ∷ level_parts m.asks
          ++ stamp ∷ [])

  unfoldable pub publish_trade :
      World → Bytes → ℕ → Publisher Price → Trade Price → Publisher Price × Bool
  publish_trade w stamp latency p t =
      let p1 = next_sequence p in
      publish w p1 (on_trade t p1.sequence_number) (format_trade_message stamp t p1.sequence_number)
        latency (λ s. record s { trades_published = add64 s.trades_published 1 })

  -- A book update brings its own number.
  unfoldable pub publish_book_update :
      World → Bytes → ℕ → Publisher Price → BookUpdate Price → Publisher Price × Bool
  publish_book_update w stamp latency p u =
      publish w p (on_book_update u) (format_book_update_message stamp u) latency
        (λ s. record s { book_updates_published = add64 s.book_updates_published 1 })

  unfoldable pub publish_best_prices :
      World → Bytes → ℕ → Publisher Price → BestPrices Price → Publisher Price × Bool
  publish_best_prices w stamp latency p b =
      let p1 = next_sequence p in
      publish w p1 (on_best_prices b p1.sequence_number)
        (format_best_prices_message stamp b p1.sequence_number) latency
        (λ s. record s { best_price_updates_published = add64 s.best_price_updates_published 1 })

  unfoldable pub publish_depth :
      World → Bytes → ℕ → Publisher Price → MarketDepth Price → Publisher Price × Bool
  publish_depth w stamp latency p m =
      let p1 = next_sequence p in
      publish w p1 (on_depth m p1.sequence_number) (format_depth_message stamp m p1.sequence_number)
        latency (λ s. record s { depth_updates_published = add64 s.depth_updates_published 1 })
