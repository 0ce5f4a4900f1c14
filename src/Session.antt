-- ===== src/Session.antt =====
-- src/Network/FixSession.cpp and include/orderbook/Network/FixSession.hpp: what a session does on
-- each message and each timer. The socket is a flag, its write queue the list of all messages
-- that were passed to it, and a registered handler the list of what it was called with. The
-- texts that handlers of session events get, the statistics of times and logging are left out.
-- Parameters: the time and its text, and what an exception of `std::stoi` says of itself.
mod State
pub mod Texts
pub mod Sending
pub mod Counts
pub mod Reading
pub mod Faults
pub mod Dropped
mod Tests
use financial_order_book.Prelude.{
  ℕ, ◌+◌, Bool, true, false, not, ◌&&◌, ◌||◌, List, [], ◌∷◌, ◌++◌, Option, none, some, ◌==◌, ltb,
  leb, if◌then◌else◌,
}
use financial_order_book.Prelude.Double.{Double}
use financial_order_book.Prelude.Decimal.{to_string, stoi, stoull}
use financial_order_book.Prelude.Int.{ℤ, pos, ◌+ℤ◌, ltb_ℤ}
use financial_order_book.Prelude.Text.{Bytes, codes, is_empty}
use financial_order_book.Types.{Result, success, error, add64}
use financial_order_book.Fix.Constants.{
  Tag, field_delimiter, heartbeat_interval, msg_type_heartbeat, msg_type_test_request,
  msg_type_reject, msg_type_logout, msg_type_logon, msg_type_new_order_single,
  msg_type_order_cancel_replace_request, msg_type_order_cancel_request,
}
use financial_order_book.Fix.{FixMessage, get_field, parse_message}
use financial_order_book.Fix.Requests.{
  NewOrderSingle, OrderCancelReplaceRequest, OrderCancelRequest, RequestError,
  parse_new_order_single, parse_order_cancel_replace_request, parse_order_cancel_request,
}
use financial_order_book.Fix.Generate.{
  FixReport, generate_execution_report, generate_heartbeat, generate_logon, generate_logout,
  generate_reject,
}
use Texts.{fix_error_text, request_error_text, Kind}
unfoldable pub use State.*

module _ {Price Time : Type 0} where
  module _ (now : Bytes) where
    -- What `connect` does when the connection is there.
    unfoldable pub connected : Session Price Time → Session Price Time
    connected s =
        start_heartbeat_timer
          (send_logon now (update_state s SessionState.logon_sent) (pos heartbeat_interval))

    abbrev pub read_interval : Session Price Time → Bytes → ℤ
    read_interval s [] = s.interval
    read_interval s (c ∷ t) = elim (stoi (c ∷ t)) [ none ↦ pos heartbeat_interval | some i ↦ i ]

    unfoldable pub handle_logon : Session Price Time → FixMessage → Session Price Time
    handle_logon s m =
        let s1 = update_state s SessionState.logged_in in
        let s2 = record s1 { interval = read_interval s (get_field m Tag.heartbt_int) } in
        if state_eq s.state SessionState.logon_sent || state_eq s.state SessionState.disconnected
        then if state_eq s2.state SessionState.disconnected
          then send_logon now s2 s2.interval
          else s2
        else s

    unfoldable pub handle_logout : Session Price Time → Session Price Time
    handle_logout s =
        close (
          send_logout now (update_state s SessionState.disconnecting) (codes "Logout acknowledged"))

    -- `onHeartbeatTimeout`: the wait may have failed, and so many seconds have passed since the
    -- last heartbeat was received.
    unfoldable pub on_heartbeat_timeout : Session Price Time → Bool → ℤ → Session Price Time
    on_heartbeat_timeout s failed elapsed =
        let asked = send_heartbeat now s (codes "TR" ++ to_string s.outgoing_seq) in
        let waiting = record asked { test_request_sent = true; test_request_timer = true } in
        if failed || not (is_logged_in s)
        then s
        else if ltb_ℤ (s.interval +ℤ s.interval) elapsed
        then if not s.test_request_sent
          then start_heartbeat_timer waiting
          else close (update_state s SessionState.disconnecting)
        else if ltb_ℤ s.interval elapsed
        then start_heartbeat_timer (send_heartbeat now s [])
        else start_heartbeat_timer s

    module _ ⦃d : Double Price⦄ (time : Time) (what : Bytes) where
      -- A request that is read goes to its handler, where one is set, and is rejected otherwise.
      abbrev pub hand_over :
          Kind
          → Bool
          → Session Price Time
          → Result RequestError (Request Price Time)
          → Session Price Time
      hand_over kind true s (success r) = record s { delivered = s.delivered ++ r ∷ [] }
      hand_over kind false s (success r) =
          send_reject now s s.incoming_seq (request_error_text what kind none)
      hand_over kind hears s (error e) =
          send_reject now s s.incoming_seq (request_error_text what kind (some e))

      unfoldable pub handle_new_order_single : Session Price Time → FixMessage → Session Price Time
      handle_new_order_single s m =
          if is_logged_in s
          then hand_over Kind.new_order s.hears_orders s (elim (parse_new_order_single time m) [
            | error e ↦ error e
            | success r ↦ success (new_order r)
          ])
          else s

      unfoldable pub handle_order_cancel_replace_request :
          Session Price Time → FixMessage → Session Price Time
      handle_order_cancel_replace_request s m =
          if is_logged_in s
          then hand_over Kind.replace s.hears_replaces s
              (elim (parse_order_cancel_replace_request time m) [
                | error e ↦ error e
                | success r ↦ success (replace r)
              ])
          else s

      unfoldable pub handle_order_cancel_request :
          Session Price Time → FixMessage → Session Price Time
      handle_order_cancel_request s m =
          if is_logged_in s
          then hand_over Kind.cancel s.hears_cancels s (elim (parse_order_cancel_request time m) [
            | error e ↦ error e
            | success r ↦ success (cancel r)
          ])
          else s

      -- The `switch` on the type of a message; `handleReject` only calls the event handler.
      unfoldable pub dispatch : Session Price Time → FixMessage → ℕ → ℕ → Session Price Time
      dispatch s m type received =
          if type == msg_type_logon
          then handle_logon s m
          else if type == msg_type_logout
          then handle_logout s
          else if type == msg_type_heartbeat
          then handle_heartbeat s m
          else if type == msg_type_test_request
          then send_heartbeat now s (get_field m Tag.test_req_id)
          else if type == msg_type_new_order_single
          then handle_new_order_single s m
          else if type == msg_type_order_cancel_replace_request
          then handle_order_cancel_replace_request s m
          else if type == msg_type_order_cancel_request
          then handle_order_cancel_request s m
          else if type == msg_type_reject
          then s
          else send_reject now s received (codes "Unsupported message type: " ++ type ∷ [])

      -- What follows the check that the message is valid, with the counter moved on.
      unfoldable pub accept : Session Price Time → FixMessage → Option ℕ → Session Price Time
      accept s m none = send_reject now s s.incoming_seq (codes "Invalid sequence number")
      accept s m (some received) =
          if leb s.incoming_seq received
          then elim m.msg_type [ none ↦ s | some type ↦ dispatch s m type received ]
          else send_reject now s received (codes "Sequence number too low")

      unfoldable pub process_message : Session Price Time → Bytes → Session Price Time
      process_message s text =
          let m = parse_message text in
          let s1 = record s { messages_received = add64 s.messages_received 1 } in
          let s2 = record s1 { incoming_seq = add64 s.incoming_seq 1 } in
          if not m.is_valid
          then send_reject now s1 s1.incoming_seq
              (codes "Invalid message format: " ++ fix_error_text what m.error_message)
          else accept s2 m (received_number (get_field m Tag.msg_seq_num))

      -- `readMessage`, over the bytes that arrive: a message is what is read up to the next
      -- delimiter. The second argument is `messageBuffer_`.
      unfoldable pub read_stream : Session Price Time → Bytes → Bytes → Session Price Time × Bytes
      read_stream s buffer [] = (s, buffer)
      read_stream s buffer (c ∷ rest) =
          let ends = c == field_delimiter in
          let s' = if ends then process_message s (buffer ++ c ∷ []) else s in
          read_stream s' (if ends then [] else buffer ++ c ∷ []) rest

-- What a session does by itself or is told to do.
pub data Event (Price : Type 0) : Type 0 where
  starts : Event Price
  connects : Event Price
  reads : Bytes → Event Price
  heartbeat_is_due : Bool → ℤ → Event Price
  test_request_is_due : Bool → Event Price
  socket_fails : Bool → Event Price
  reports : FixReport Price → Event Price
  logs_out : Bytes → Event Price
  closes : Event Price

module _ {Price Time : Type 0} ⦃d : Double Price⦄ (now : Bytes) (time : Time) (what : Bytes) where
  unfoldable pub step : Session Price Time → Event Price → Session Price Time
  step s starts = start s
  step s connects = connected now s
  step s (reads text) = process_message now time what s text
  step s (heartbeat_is_due failed elapsed) = on_heartbeat_timeout now s failed elapsed
  step s (test_request_is_due failed) = on_test_request_timeout s failed
  step s (socket_fails aborted) = handle_error s aborted
  step s (reports r) = send_execution_report now s r
  step s (logs_out text) = send_logout now s text
  step s closes = close s

  unfoldable pub run : Session Price Time → List (Event Price) → Session Price Time
  run s [] = s
  run s (e ∷ es) = run (step s e) es
