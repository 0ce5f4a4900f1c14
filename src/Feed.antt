-- ===== src/Feed.antt =====
-- src/MarketData/MarketDataFeed.cpp and include/orderbook/MarketData/MarketDataFeed.hpp. A
-- subscriber is a number; what a weak pointer to it gives, and how its callback ends, are
-- arguments, as are the time stamps and latencies. Callbacks run under a lock that is not
-- recursive: one that calls the publisher back is not modelled, nor are concurrent calls.
pub mod Format
pub mod Notify
pub mod Tally
pub mod Latency
mod Tests
use financial_order_book.Prelude.{
  ℕ, zero, suc, ◌+◌, ◌≤◌, Bool, true, false, not, ◌&&◌, List, [], ◌∷◌, ◌++◌, Option, none, some,
  min, leb, ◌==◌, length, if◌then◌else◌,
}
use financial_order_book.Prelude.Double.{Double}
use financial_order_book.Prelude.Text.{Bytes}
use financial_order_book.Types.{add64, u64}
use financial_order_book.Order.{Trade}
use financial_order_book.Book.{BookUpdate, BestPrices, MarketDepth, nth, erase_nth}

-- What a subscriber is called with: one of the four methods of `IMarketDataSubscriber`, or the
-- text for a callback on strings.
pub data Payload (Price : Type 0) : Type 0 where
  on_trade : Trade Price → ℕ → Payload Price
  on_book_update : BookUpdate Price → Payload Price
  on_best_prices : BestPrices Price → ℕ → Payload Price
  on_depth : MarketDepth Price → ℕ → Payload Price
  on_text : Bytes → Payload Price

-- How a callback ends: it returns, throws a `std::exception`, or throws something else.
pub data Outcome : Type 0 where
  returns throws throws_other : Outcome

-- `locks s` where `weak_ptr::lock` gives the subscriber; `calls s` is the end of a call of it.
pub record World : Type 0 where
  pub locks : ℕ → Bool
  pub calls : ℕ → Outcome

pub record PublishingStats : Type 0 where
  pub trades_published : ℕ
  pub book_updates_published : ℕ
  pub best_price_updates_published : ℕ
  pub depth_updates_published : ℕ
  pub total_latency_ns : ℕ
  pub max_latency_ns : ℕ
  pub min_latency_ns : ℕ

-- `delivered` is what subscribers were called with, in order.
pub record Publisher (Price : Type 0) : Type 0 where
  pub string_subscribers : List ℕ
  pub typed_subscribers : List ℕ
  pub sequence_number : ℕ
  pub stats : PublishingStats
  pub delivered : List (ℕ × Payload Price)

abbrev pub no_stats : PublishingStats
no_stats = record {
  trades_published = 0;
  book_updates_published = 0;
  best_price_updates_published = 0;
  depth_updates_published = 0;
  total_latency_ns = 0;
  max_latency_ns = 0;
  min_latency_ns = 18446744073709551615;
}

abbrev pub is_caught : Outcome → Bool
is_caught Outcome.returns = true
is_caught Outcome.throws = true
is_caught Outcome.throws_other = false

abbrev pub max : ℕ → ℕ → ℕ
max a b = if leb a b then b else a

-- `recordLatency`
unfoldable pub record_latency : PublishingStats → ℕ → PublishingStats
record_latency s t = record s {
  total_latency_ns = add64 s.total_latency_ns t;
  max_latency_ns = max s.max_latency_ns t;
  min_latency_ns = min s.min_latency_ns t;
}

-- What a loop over the subscribers leaves: those that are left, the calls that were made, and
-- whether it came to its end.
pub record Notified (Price : Type 0) : Type 0 where
  pub subscribers : List ℕ
  pub delivered : List (ℕ × Payload Price)
  pub completed : Bool

abbrev pub remove_expired : (ℕ → Bool) → List ℕ → List ℕ
remove_expired locks [] = []
remove_expired locks (s ∷ ss) =
    let rest = remove_expired locks ss in if locks s then s ∷ rest else rest

module _ {Price : Type 0} where
  abbrev pub new_publisher : Publisher Price
  new_publisher = record {
    string_subscribers = [];
    typed_subscribers = [];
    sequence_number = 0;
    stats = no_stats;
    delivered = [];
  }

  -- The iterator loop of `notifyTypedSubscribers`, at position `i`; each round moves the
  -- position or erases an element, so that the number of elements is enough fuel.
  unfoldable pub notify_loop :
      World → Payload Price → ℕ → List ℕ → ℕ → List (ℕ × Payload Price) → Notified Price
  notify_loop w m zero ss i sent = record { subscribers = ss; delivered = sent; completed = true }
  notify_loop w m (suc fuel) ss i sent = elim (nth ss i) [
    | none ↦ record { subscribers = ss; delivered = sent; completed = true }
    | some s ↦
        let further = notify_loop w m fuel ss (suc i) (sent ++ (s, m) ∷ []) in
        let dropped = notify_loop w m fuel (erase_nth ss i) i sent in
        if w.locks s
        then (if is_caught (w.calls s)
            then further
            else record { subscribers = ss; delivered = sent ++ (s, m) ∷ []; completed = false })
        else dropped
  ]

  unfoldable pub notify_typed_subscribers :
      World → Publisher Price → Payload Price → Publisher Price × Bool
  notify_typed_subscribers w p m =
      let r = notify_loop w m (length p.typed_subscribers) p.typed_subscribers 0 p.delivered in
      (record p { typed_subscribers = r.subscribers; delivered = r.delivered }, r.completed)

  -- The loop of `notifyStringSubscribers`.
  unfoldable pub notify_each :
      World → Payload Price → List ℕ → List (ℕ × Payload Price) → List (ℕ × Payload Price) × Bool
  notify_each w m [] sent = (sent, true)
  notify_each w m (s ∷ ss) sent =
      let rest = notify_each w m ss (sent ++ (s, m) ∷ []) in
      if is_caught (w.calls s) then rest else (sent ++ (s, m) ∷ [], false)

  unfoldable pub notify_string_subscribers :
      World → Publisher Price → Bytes → Publisher Price × Bool
  notify_string_subscribers w p text =
      let r = notify_each w (on_text text) p.string_subscribers p.delivered in
      (record p { delivered = r.0 }, r.1)

  abbrev pub and_then :
      Publisher Price × Bool → (Publisher Price → Publisher Price × Bool) → Publisher Price × Bool
  and_then (p, true) f = f p
  and_then (p, false) f = (p, false)

  -- Both notifications, then the statistics; an exception that is not caught ends the call.
  unfoldable pub publish :
      World
      → Publisher Price
      → Payload Price
      → Bytes
      → ℕ
      → (PublishingStats → PublishingStats)
      → Publisher Price × Bool
  publish w p m text latency count = and_then (notify_typed_subscribers w p m) (λ p1.
      and_then (notify_string_subscribers w p1 text)
        (λ p2. (record p2 { stats = count (record_latency p2.stats latency) }, true)))

  -- `++sequence_number_`
  unfoldable pub next_sequence : Publisher Price → Publisher Price
  next_sequence p = record p { sequence_number = add64 p.sequence_number 1 }

  abbrev pub subscribe_text : Publisher Price → ℕ → Publisher Price
  subscribe_text p s = record p { string_subscribers = p.string_subscribers ++ s ∷ [] }

  abbrev pub subscribe : Publisher Price → ℕ → Publisher Price
  subscribe p s = record p { typed_subscribers = p.typed_subscribers ++ s ∷ [] }

  -- The subscriber and all expired ones are removed.
  abbrev pub unsubscribe : World → Publisher Price → ℕ → Publisher Price
  unsubscribe w p s = record p {
    typed_subscribers = remove_expired (λ t. w.locks t && not (t == s)) p.typed_subscribers;
  }

  unfoldable pub cleanup_expired_subscribers : World → Publisher Price → Publisher Price
  cleanup_expired_subscribers w p = record p {
    typed_subscribers = remove_expired w.locks p.typed_subscribers;
  }

  -- `getSubscriberCount`, which cleans up first.
  unfoldable pub get_subscriber_count : World → Publisher Price → Publisher Price × ℕ
  get_subscriber_count w p =
      let p1 = cleanup_expired_subscribers w p in
      (p1, length p1.string_subscribers + length p1.typed_subscribers)

  abbrev pub get_total_published_messages : Publisher Price → ℕ
  get_total_published_messages p =
      add64
        (add64 (add64 p.stats.trades_published p.stats.book_updates_published)
          p.stats.best_price_updates_published)
        p.stats.depth_updates_published

  abbrev pub reset_stats : Publisher Price → Publisher Price
  reset_stats p = record p { stats = no_stats }
