-- ===== src/Session/Counts.antt =====
-- The counters of a session, whatever its events.
use financial_order_book.Prelude.{
  ℕ, Bool, true, false, List, [], ◌∷◌, ◌++◌, Option, none, some, not, ◌==◌, leb,
}
use financial_order_book.Prelude.Double.{Double}
use financial_order_book.Prelude.Text.{Bytes, codes}
use financial_order_book.Fix.Constants.{
  Tag, msg_type_heartbeat, msg_type_test_request, msg_type_reject, msg_type_logout, msg_type_logon,
  msg_type_new_order_single, msg_type_order_cancel_replace_request, msg_type_order_cancel_request,
}
use financial_order_book.Types.{Result, success, error}
use financial_order_book.Fix.{get_field, FixMessage, parse_message}
use financial_order_book.Fix.Requests.{RequestError}
use financial_order_book.Session.Texts.{Kind}
use financial_order_book.Session.{
  Session, SessionState, Request, Event, starts, connects, reads, heartbeat_is_due,
  test_request_is_due, socket_fails, reports, logs_out, closes, start, is_logged_in, hand_over,
  handle_new_order_single, handle_order_cancel_replace_request, handle_order_cancel_request,
  dispatch, accept, process_message, step, run,
}
use financial_order_book.Session.Sending.{
  IsCounted, close-IsCounted, update_state-IsCounted, handle_error-IsCounted, send_logout-IsCounted,
  send_heartbeat-IsCounted, send_reject-IsCounted, if-IsCounted, send_execution_report-IsCounted,
  connected-IsCounted, handle_logon-IsCounted, handle_logout-IsCounted, handle_heartbeat-IsCounted,
  on_test_request_timeout-IsCounted, on_heartbeat_timeout-IsCounted,
}

module _ {Price Time : Type 0} where
  module _ ⦃d : Double Price⦄ (now : Bytes) (time : Time) (what : Bytes) where
    hand_over-IsCounted :
        (kind : Kind) (hears : Bool) (s : Session Price Time)
        (r : Result RequestError (Request Price Time))
        → IsCounted s
        → IsCounted (hand_over now time what kind hears s r)
    hand_over-IsCounted kind true s (success r) v = record {
      numbered = v.numbered;
      counted = v.counted;
      each = v.each;
    }
    hand_over-IsCounted kind false s (success r) v = send_reject-IsCounted now s _ _ v
    hand_over-IsCounted kind true s (error e) v = send_reject-IsCounted now s _ _ v
    hand_over-IsCounted kind false s (error e) v = send_reject-IsCounted now s _ _ v

    handle_new_order_single-IsCounted :
        (s : Session Price Time) (m : FixMessage)
        → IsCounted s
        → IsCounted (handle_new_order_single now time what s m)
    unfolding handle_new_order_single
    handle_new_order_single-IsCounted s m v =
        if-IsCounted (is_logged_in s) _ s (hand_over-IsCounted Kind.new_order s.hears_orders s _ v)
          v

    handle_order_cancel_replace_request-IsCounted :
        (s : Session Price Time) (m : FixMessage)
        → IsCounted s
        → IsCounted (handle_order_cancel_replace_request now time what s m)
    unfolding handle_order_cancel_replace_request
    handle_order_cancel_replace_request-IsCounted s m v =
        if-IsCounted (is_logged_in s) _ s (hand_over-IsCounted Kind.replace s.hears_replaces s _ v)
          v

    handle_order_cancel_request-IsCounted :
        (s : Session Price Time) (m : FixMessage)
        → IsCounted s
        → IsCounted (handle_order_cancel_request now time what s m)
    unfolding handle_order_cancel_request
    handle_order_cancel_request-IsCounted s m v =
        if-IsCounted (is_logged_in s) _ s (hand_over-IsCounted Kind.cancel s.hears_cancels s _ v) v

    dispatch-IsCounted :
        (s : Session Price Time) (m : FixMessage) (type received : ℕ)
        → IsCounted s
        → IsCounted (dispatch now time what s m type received)
    unfolding dispatch
    dispatch-IsCounted s m type received v =
        if-IsCounted (type == msg_type_logon) _ _ (handle_logon-IsCounted now s m v) (
          if-IsCounted (type == msg_type_logout) _ _ (handle_logout-IsCounted now s v) (
            if-IsCounted (type == msg_type_heartbeat) _ _ (handle_heartbeat-IsCounted s m v) (
              if-IsCounted (type == msg_type_test_request) _ _
                (send_heartbeat-IsCounted now s (get_field m Tag.test_req_id) v)
                (if-IsCounted (type == msg_type_new_order_single) _ _
                  (handle_new_order_single-IsCounted s m v)
                  (if-IsCounted (type == msg_type_order_cancel_replace_request) _ _
                    (handle_order_cancel_replace_request-IsCounted s m v)
                    (if-IsCounted (type == msg_type_order_cancel_request) _ _
                      (handle_order_cancel_request-IsCounted s m v)
                      (if-IsCounted (type == msg_type_reject) s _ v (
                        send_reject-IsCounted now s received
                          (codes "Unsupported message type: " ++ type ∷ []) v))))))))

    accept-IsCounted :
        (s : Session Price Time) (m : FixMessage) (n : Option ℕ)
        → IsCounted s
        → IsCounted (accept now time what s m n)
    unfolding accept
    accept-IsCounted s m none v = send_reject-IsCounted now s _ _ v
    accept-IsCounted s m (some n) v =
        if-IsCounted (leb s.incoming_seq n) _ _ (typed m.msg_type)
          (send_reject-IsCounted now s n (codes "Sequence number too low") v)
      where
        typed :
            (t : Option ℕ)
            → IsCounted (elim t [ none ↦ s | some type ↦ dispatch now time what s m type n ])
        typed none = v
        typed (some type) = dispatch-IsCounted s m type n v

    process_message-IsCounted :
        (s : Session Price Time) (text : Bytes)
        → IsCounted s
        → IsCounted (process_message now time what s text)
    unfolding process_message
    process_message-IsCounted s text v =
        if-IsCounted (not (parse_message text).is_valid) _ _
          (send_reject-IsCounted now _ _ _
            (record { numbered = v.numbered; counted = v.counted; each = v.each }))
          (accept-IsCounted _ _ _
            (record { numbered = v.numbered; counted = v.counted; each = v.each }))

    step-IsCounted :
        (s : Session Price Time) (e : Event Price)
        → IsCounted s
        → IsCounted (step now time what s e)
    unfolding step start
    step-IsCounted s starts v =
        let w = update_state-IsCounted s SessionState.logged_in v in
        record { numbered = w.numbered; counted = w.counted; each = w.each }
    step-IsCounted s connects v = connected-IsCounted now s v
    step-IsCounted s (reads text) v = process_message-IsCounted s text v
    step-IsCounted s (heartbeat_is_due failed elapsed) v =
        on_heartbeat_timeout-IsCounted now s failed elapsed v
    step-IsCounted s (test_request_is_due failed) v = on_test_request_timeout-IsCounted s failed v
    step-IsCounted s (socket_fails aborted) v = handle_error-IsCounted s aborted v
    step-IsCounted s (reports r) v = send_execution_report-IsCounted now s r v
    step-IsCounted s (logs_out text) v = send_logout-IsCounted now s text v
    step-IsCounted s closes v = close-IsCounted s v

    -- If the n-th message that went to a session's socket carries the number n as a 64-bit word,
    -- and the last outgoing number and the count of messages sent are the number of messages, so
    -- it is after any events.
    pub run-IsCounted :
        (s : Session Price Time) (es : List (Event Price))
        → IsCounted s
        → IsCounted (run now time what s es)
    unfolding run
    run-IsCounted s [] v = v
    run-IsCounted s (e ∷ es) v = run-IsCounted (step now time what s e) es (step-IsCounted s e v)
