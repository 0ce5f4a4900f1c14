-- ===== src/Feed/Latency.antt =====
-- `recordLatency` of src/MarketData/MarketDataFeed.cpp.
use financial_order_book.Prelude.{ℕ, ◌+◌, ◌%◌, ◌≤◌, ◌≡◌, refl, List, [], ◌∷◌, arith, All}
use financial_order_book.Types.{u64}
use financial_order_book.Feed.{PublishingStats, record_latency}

abbrev pub record_all : PublishingStats → List ℕ → PublishingStats
record_all s [] = s
record_all s (t ∷ ts) = record_all (record_latency s t) ts

abbrev pub sum : List ℕ → ℕ
sum [] = 0
sum (t ∷ ts) = t + sum ts

-- What the statistics say of latencies that were recorded after they stood at `s`.
pub record Measures (s : PublishingStats) (ts : List ℕ) (r : PublishingStats) : Type 0 where
  pub within : All (λ t. (r.min_latency_ns ≤ t) × (t ≤ r.max_latency_ns)) ts
  pub lowest : r.min_latency_ns ≤ s.min_latency_ns
  pub highest : s.max_latency_ns ≤ r.max_latency_ns
  pub total : r.total_latency_ns % u64 ≡ (s.total_latency_ns + sum ts) % u64
  pub same_trades : r.trades_published ≡ s.trades_published

-- After any latencies, the smallest and the largest one bound each of them and move only outwards,
-- and the total has grown by their sum, as a 64-bit word; the counts of messages stay.
pub record_all-Measures : (s : PublishingStats) (ts : List ℕ) → Measures s ts (record_all s ts)
unfolding record_latency
record_all-Measures s [] = record {
  within = tt;
  lowest = omega arith;
  highest = omega arith;
  total = omega arith;
  same_trades = refl;
}
record_all-Measures s (t ∷ ts) =
    let r = record_all-Measures (record_latency s t) ts in
    record {
      within = ((ground (arith, r.lowest), ground (arith, r.highest)), r.within);
      lowest = ground (arith, r.lowest);
      highest = ground (arith, r.highest);
      total = omega (arith, r.total);
      same_trades = r.same_trades;
    }
