-- ===== src/Session/Dropped.antt =====
-- What the heartbeat timer of a session comes to, whatever the other side sends.
use financial_order_book.Prelude.{
  ◌≡◌, refl, sym, subst, ◌∙◌, true, false, List, arith, Bool-cases, inl, inr,
}
use financial_order_book.Prelude.Double.{Double}
use financial_order_book.Prelude.Int.{ℤ, ◌+ℤ◌, ltb_ℤ}
use financial_order_book.Prelude.Text.{Bytes}
use financial_order_book.Fix.Wire.{IsClean}
use financial_order_book.Session.{
  SessionState, Session, update_state, close, send_heartbeat, send_numbered, on_heartbeat_timeout,
  read_stream,
}
use financial_order_book.Session.Reading.{
  fields_of, rejecting, rejecting_all, rejecting_all_keeps, read_stream-Rejects,
}

module _ {Price Time : Type 0} where
  -- A session that has ended: disconnected, with its socket closed and its timers stopped.
  pub record IsEnded (s : Session Price Time) : Type 0 where
    pub disconnected : s.state ≡ SessionState.disconnected
    pub closed : s.is_open ≡ false
    pub no_heartbeat_timer : s.heartbeat_timer ≡ false
    pub no_test_request_timer : s.test_request_timer ≡ false

  -- A session that is logged in and waits for the answer to a test request, with some interval.
  record IsAsking (i : ℤ) (s : Session Price Time) : Type 0 where
    logged : s.state ≡ SessionState.logged_in
    asked : s.test_request_sent ≡ true
    every : s.interval ≡ i

  module _ (now what : Bytes) where
    rejecting_all-IsEnded :
        (s : Session Price Time) (texts : List Bytes)
        → IsEnded s
        → IsEnded (rejecting_all now what s texts)
    rejecting_all-IsEnded s texts h = record {
      disconnected = keeps (λ t. t.state) (λ t text. refl) ∙ h.disconnected;
      closed = keeps (λ t. t.is_open) (λ t text. refl) ∙ h.closed;
      no_heartbeat_timer = keeps (λ t. t.heartbeat_timer) (λ t text. refl) ∙ h.no_heartbeat_timer;
      no_test_request_timer =
          keeps (λ t. t.test_request_timer) (λ t text. refl) ∙ h.no_test_request_timer;
    }
      where
        keeps :
            {A : Type 0} (f : Session Price Time → A)
            → ((t : Session Price Time) (text : Bytes) → f (rejecting now what t text) ≡ f t)
            → f (rejecting_all now what s texts) ≡ f s
        keeps f same = rejecting_all_keeps now what f same s texts

    rejecting_all-IsAsking :
        (i : ℤ) (s : Session Price Time) (texts : List Bytes)
        → IsAsking i s
        → IsAsking i (rejecting_all now what s texts)
    rejecting_all-IsAsking i s texts h = record {
      logged = rejecting_all_keeps now what (λ t. t.state) (λ t text. refl) s texts ∙ h.logged;
      asked =
          rejecting_all_keeps now what (λ t. t.test_request_sent) (λ t text. refl) s texts
          ∙ h.asked;
      every = rejecting_all_keeps now what (λ t. t.interval) (λ t text. refl) s texts ∙ h.every;
    }

  module _ (now : Bytes) where
    -- The timer, when the other side has been silent for two intervals: once it asks, twice it ends.
    first_timeout :
        (s : Session Price Time) (elapsed : ℤ)
        → s.state ≡ SessionState.logged_in
        → ltb_ℤ (s.interval +ℤ s.interval) elapsed ≡ true
        → s.test_request_sent ≡ false
        → IsAsking s.interval (on_heartbeat_timeout now s false elapsed)
    unfolding on_heartbeat_timeout send_heartbeat send_numbered
    first_timeout s elapsed l late e = record {
      logged = ground arith;
      asked = ground arith;
      every = ground arith;
    }

    second_timeout :
        (s : Session Price Time) (elapsed : ℤ)
        → s.state ≡ SessionState.logged_in
        → ltb_ℤ (s.interval +ℤ s.interval) elapsed ≡ true
        → s.test_request_sent ≡ true
        → IsEnded (on_heartbeat_timeout now s false elapsed)
    unfolding on_heartbeat_timeout close update_state
    second_timeout s elapsed l late e = record {
      disconnected = ground arith;
      closed = ground arith;
      no_heartbeat_timer = ground arith;
      no_test_request_timer = ground arith;
    }

    on_heartbeat_timeout-IsEnded :
        (s : Session Price Time) (elapsed : ℤ)
        → IsEnded s
        → IsEnded (on_heartbeat_timeout now s false elapsed)
    unfolding on_heartbeat_timeout
    on_heartbeat_timeout-IsEnded s elapsed h = record {
      disconnected = grind (arith, h.disconnected);
      closed = grind (arith, h.disconnected, h.closed);
      no_heartbeat_timer = grind (arith, h.disconnected, h.no_heartbeat_timer);
      no_test_request_timer = grind (arith, h.disconnected, h.no_test_request_timer);
    }

  -- A session that is logged in finds at its heartbeat timer, twice in a row, that more than two
  -- intervals have passed since the last heartbeat: after the second time it is disconnected, with
  -- its socket closed and its timers stopped, whatever bytes arrived between the two, an answer to
  -- its test request among them; no handler of requests was called with any of them.
  pub silence-IsEnded :
      ⦃d : Double Price⦄ (now : Bytes) (time : Time) (what : Bytes) (s : Session Price Time)
      (buffer bytes : Bytes) (first second : ℤ)
      → s.state ≡ SessionState.logged_in
      → IsClean buffer
      → ltb_ℤ (s.interval +ℤ s.interval) first ≡ true
      → ltb_ℤ (s.interval +ℤ s.interval) second ≡ true
      → let asked = on_heartbeat_timeout now s false first in
        let answered = (read_stream now time what asked buffer bytes).0 in
        IsEnded (on_heartbeat_timeout now answered false second)
        × (answered.delivered ≡ asked.delivered)
  silence-IsEnded now time what s buffer bytes first second logged clean late later =
      let asked = on_heartbeat_timeout now s false first in
      let r = read_stream-Rejects now what time asked buffer bytes clean in
      let texts = fields_of buffer bytes in
      let last = λ (t : Session Price Time). IsEnded (on_heartbeat_timeout now t false second) in
      (
        subst last (sym r.0) (elim (Bool-cases s.test_request_sent) [
          | inl waiting ↦
              on_heartbeat_timeout-IsEnded now (rejecting_all now what asked texts) second (
                rejecting_all-IsEnded now what asked texts
                  (second_timeout now s first logged late waiting))
          | inr idle ↦
              let a =
                rejecting_all-IsAsking now what s.interval asked texts
                  (first_timeout now s first logged late idle) in
              second_timeout now (rejecting_all now what asked texts) second a.logged
                (rw a.every later) a.asked
        ]),
        r.1.same_delivered,
      )
