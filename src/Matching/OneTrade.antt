-- ===== src/Matching/OneTrade.antt =====
-- What one run of `matchAgainstPriceLevel` comes to: no trade, or one with the first order.
use financial_order_book.Prelude.{
  ℕ, suc, ◌<◌, ◌≡◌, refl, inl, inr, true, false, none, some, arith, Bool-cases, Option-cases,
  if◌then◌else◌,
}
use financial_order_book.Prelude.Double.{Double}
use financial_order_book.Order.{Addr}
use financial_order_book.Order.Fill.{IsSound}
use financial_order_book.Order.{is_fully_filled}
use financial_order_book.Matching.{
  MatchState, validate_trade, trade_with, match_body, running, match_round, match_loop,
}
use financial_order_book.Matching.Body.{AllSound, least, match_body_cases, trade_with_halts}

module _ {Price : Type 0} ⦃d : Double Price⦄ where
  running-none : (m : MatchState Price) → m.current ≡ none → running m ≡ false
  unfolding running
  running-none m e = rw (e, running)

  pub round_some :
      (m : MatchState Price) (a : Addr) → m.current ≡ some a → match_round m ≡ match_body m a
  unfolding match_round
  round_some m a e = ground arith

  pub running-some :
      (m : MatchState Price) (a : Addr)
      → m.current ≡ some a
      → is_fully_filled m.incoming ≡ false
      → running m ≡ true
  unfolding running
  running-some m a e h = ground arith

  pub match_body_trades :
      (m : MatchState Price) (a : Addr)
      → 0 < least m a
      → validate_trade m.incoming (m.store a) (least m a) ≡ true
      → match_body m a ≡ trade_with m a (least m a)
  unfolding match_body
  match_body_trades m a pos valid = ground arith

  -- A round leaves a state in which the loop does not run.
  round_halts :
      (m : MatchState Price)
      → IsSound m.incoming
      → AllSound m.store
      → running (match_round m) ≡ false
  unfolding running match_round
  round_halts m si sa = elim (Option-cases m.current) [
    | inl e ↦ rw (e, match_round) (rw (e, running))
    | inr (a, e) ↦
        rw (e, match_round)
          (elim (match_body_cases m a) [
            | inl h ↦ rw h
            | inr (_, _, h) ↦ rw h (trade_with_halts m a si (sa a))
          ])
  ]

  -- With two rounds of fuel or more the loop ends by its own test, after one round at most.
  pub match_loop_ends :
      (fuel : ℕ) (m : MatchState Price)
      → IsSound m.incoming
      → AllSound m.store
      → (match_loop (suc (suc fuel)) m ≡ (if running m then match_round m else m))
        × (running (match_loop (suc (suc fuel)) m) ≡ false)
  unfolding match_loop
  match_loop_ends fuel m si sa =
      let halts = round_halts m si sa in
      elim (Bool-cases (running m)) [
        | inl go ↦ rw (go, halts) (refl, halts)
        | inr done ↦ rw done (refl, done)
      ]

  -- What a run over a level has done.
  pub data Outcome (m m' : MatchState Price) : Type 0 where
    untouched :
        m'.store ≡ m.store
        → m'.level ≡ m.level
        → m'.incoming ≡ m.incoming
        → m'.trades ≡ m.trades
        → m'.total_filled ≡ m.total_filled
        → m'.trade_counter ≡ m.trade_counter
        → Outcome m m'
    traded :
        (a : Addr)
        → m.current ≡ some a
        → 0 < least m a
        → validate_trade m.incoming (m.store a) (least m a) ≡ true
        → m' ≡ trade_with m a (least m a)
        → Outcome m m'

  pub match_loop-Outcome :
      (fuel : ℕ) (m : MatchState Price)
      → IsSound m.incoming
      → AllSound m.store
      → Outcome m (match_loop (suc (suc fuel)) m)
  match_loop-Outcome fuel m si sa =
      rw (match_loop_ends fuel m si sa).0 (elim (Bool-cases (running m)) [
        | inr done ↦ rw done (untouched refl refl refl refl refl refl)
        | inl go ↦ rw go (elim (Option-cases m.current) [
          | inl e ↦ cc (running-none m e, go)
          | inr (a, e) ↦ rw (round_some m a e) (elim (match_body_cases m a) [
            | inl h ↦ rw h (untouched refl refl refl refl refl refl)
            | inr (h0, h1, h2) ↦ traded a e h0 h1 h2
          ])
        ])
      ])
