-- ===== src/Session/Tests.antt =====
-- Runs of a session, and the theorems on it at concrete sessions.
use financial_order_book.Prelude.{ℕ, ◌≡◌, ◌≢◌, refl, true, false, [], ◌∷◌, ◌++◌}
use financial_order_book.Prelude.Double.{cents_double}
use financial_order_book.Prelude.Int.{pos, ◌+ℤ◌}
use financial_order_book.Prelude.Text.{Bytes, codes}
use financial_order_book.Session.{
  SessionState, Session, close, handle_error, on_heartbeat_timeout, read_stream, run, starts, reads,
  heartbeat_is_due, socket_fails,
}
use financial_order_book.Session.Sending.{IsCounted}
use financial_order_book.Session.Counts.{run-IsCounted}
use financial_order_book.Session.Reading.{Rejects, fields_of, rejecting_all, read_stream-Rejects}
use financial_order_book.Session.Dropped.{IsEnded, silence-IsEnded}
use financial_order_book.Session.Faults.{close_lem, handle_error_keeps_open}

-- A session that is logged in, with a handler for new orders.
abbrev pub logged : Session ℕ ℕ
logged = record {
  state = SessionState.logged_in;
  sender = codes "ME";
  target = codes "YOU";
  incoming_seq = 0;
  outgoing_seq = 0;
  interval = pos 30;
  test_request_sent = false;
  messages_received = 0;
  messages_sent = 0;
  heartbeats_sent = 0;
  heartbeats_received = 0;
  sent = [];
  is_open = true;
  heartbeat_timer = true;
  test_request_timer = false;
  hears_orders = true;
  hears_replaces = false;
  hears_cancels = false;
  hears_events = true;
  delivered = [];
  events = [];
}

-- A market order with the number 5.
abbrev pub market_text : Bytes
market_text =
    codes "8=FIX.4.4"
    ++ 1 ∷ codes "9=5"
    ++ 1 ∷ codes "35=D"
    ++ 1 ∷ codes "34=5"
    ++ 1 ∷ codes "11=c1"
    ++ 1 ∷ codes "55=BTC"
    ++ 1 ∷ codes "54=1"
    ++ 1 ∷ codes "40=1"
    ++ 1 ∷ codes "38=7"
    ++ 1 ∷ codes "10=000"
    ++ 1 ∷ []

run-IsCounted_example : IsCounted (
    run
      (codes "now")
      3
      (codes "stoi")
      logged
      (starts ∷ reads market_text ∷ heartbeat_is_due false (pos 31) ∷ socket_fails false ∷ []))
run-IsCounted_example =
    run-IsCounted (codes "now") 3 (codes "stoi") logged
      (starts ∷ reads market_text ∷ heartbeat_is_due false (pos 31) ∷ socket_fails false ∷ [])
      (record { numbered = refl; counted = refl; each = tt })

read_stream-Rejects_example :
    let s' = (read_stream (codes "now") 3 (codes "stoi") logged [] market_text).0 in
    (s' ≡ rejecting_all (codes "now") (codes "stoi") logged (fields_of [] market_text))
    × Rejects 10 logged s'
read_stream-Rejects_example =
    read_stream-Rejects (codes "now") (codes "stoi") 3 logged [] market_text tt

close_lem_example :
    ((close logged).state ≡ SessionState.disconnected)
    × (close (close logged) ≡ close logged)
    × (logged.state ≢ SessionState.disconnected
        → ((close logged).is_open ≡ false)
          × ((close logged).heartbeat_timer ≡ false)
          × ((close logged).test_request_timer ≡ false))
close_lem_example = close_lem logged

handle_error_keeps_open_example :
    ((handle_error logged false).state ≡ SessionState.disconnected)
    × ((handle_error logged false).is_open ≡ true)
    × ((handle_error logged false).heartbeat_timer ≡ true)
    × ((handle_error logged false).test_request_timer ≡ false)
handle_error_keeps_open_example = handle_error_keeps_open logged

silence-IsEnded_example :
    let asked = on_heartbeat_timeout (codes "now") logged false (pos 61) in
    let answered = (read_stream (codes "now") 3 (codes "stoi") asked [] market_text).0 in
    IsEnded (on_heartbeat_timeout (codes "now") answered false (pos 65))
    × (answered.delivered ≡ asked.delivered)
unfolding ◌+ℤ◌
silence-IsEnded_example =
    silence-IsEnded (codes "now") 3 (codes "stoi") logged [] market_text (pos 61) (pos 65) refl tt
      refl refl
