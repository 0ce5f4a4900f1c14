-- ===== src/Session/State.antt =====
-- The state of a session, and the operations that set it or send a message.
use financial_order_book.Prelude.{
  ℕ, Bool, true, false, not, ◌&&◌, ◌||◌, List, [], ◌∷◌, ◌++◌, Option, some, if◌then◌else◌,
}
use financial_order_book.Prelude.Double.{Double}
use financial_order_book.Prelude.Decimal.{stoull}
use financial_order_book.Prelude.Int.{ℤ}
use financial_order_book.Prelude.Text.{Bytes, is_empty}
use financial_order_book.Types.{add64}
use financial_order_book.Fix.Constants.{Tag}
use financial_order_book.Fix.{FixMessage, get_field}
use financial_order_book.Fix.Requests.{
  NewOrderSingle, OrderCancelReplaceRequest, OrderCancelRequest,
}
use financial_order_book.Fix.Generate.{
  FixReport, generate_execution_report, generate_heartbeat, generate_logon, generate_logout,
  generate_reject,
}

pub data SessionState : Type 0 where
  disconnected connecting logon_sent logged_in logout_sent disconnecting : SessionState

abbrev pub state_eq : SessionState → SessionState → Bool
state_eq SessionState.disconnected SessionState.disconnected = true
state_eq SessionState.connecting SessionState.connecting = true
state_eq SessionState.logon_sent SessionState.logon_sent = true
state_eq SessionState.logged_in SessionState.logged_in = true
state_eq SessionState.logout_sent SessionState.logout_sent = true
state_eq SessionState.disconnecting SessionState.disconnecting = true
state_eq _ _ = false

pub data Request (Price Time : Type 0) : Type 0 where
  new_order : NewOrderSingle Price Time → Request Price Time
  replace : OrderCancelReplaceRequest Price Time → Request Price Time
  cancel : OrderCancelRequest Time → Request Price Time

pub record Session (Price Time : Type 0) : Type 0 where
  pub state : SessionState
  pub sender : Bytes
  pub target : Bytes
  pub incoming_seq : ℕ
  pub outgoing_seq : ℕ
  pub interval : ℤ
  pub test_request_sent : Bool
  pub messages_received : ℕ
  pub messages_sent : ℕ
  pub heartbeats_sent : ℕ
  pub heartbeats_received : ℕ
  -- the messages passed to the socket, whether it is open, and which timers run
  pub sent : List Bytes
  pub is_open : Bool
  pub heartbeat_timer : Bool
  pub test_request_timer : Bool
  -- which handlers are set, what they were called with, and the states that were announced
  pub hears_orders : Bool
  pub hears_replaces : Bool
  pub hears_cancels : Bool
  pub hears_events : Bool
  pub delivered : List (Request Price Time)
  pub events : List SessionState

-- A missing number is zero; `none` is a throw.
abbrev pub received_number : Bytes → Option ℕ
received_number [] = some 0
received_number (c ∷ t) = stoull (c ∷ t)

module _ {Price Time : Type 0} where
  abbrev pub is_logged_in : Session Price Time → Bool
  is_logged_in s = state_eq s.state SessionState.logged_in

  unfoldable pub update_state : Session Price Time → SessionState → Session Price Time
  update_state s new = record s {
    state = new;
    events =
        if not (state_eq s.state new) && s.hears_events then s.events ++ new ∷ [] else s.events;
  }

  -- `close`, with `socket_.close` and the two `cancel`s.
  unfoldable pub close : Session Price Time → Session Price Time
  close s =
      let s1 = update_state s SessionState.disconnecting in
      let s2 = record s1 { heartbeat_timer = false; test_request_timer = false; is_open = false } in
      if state_eq s.state SessionState.disconnected
      then s
      else update_state s2 SessionState.disconnected

  -- `getNextOutgoingSeqNum` and `sendMessage`, on the text that the number gives.
  unfoldable pub send_numbered : Session Price Time → (ℕ → Bytes) → Session Price Time
  send_numbered s text =
      let n = add64 s.outgoing_seq 1 in
      record s {
        outgoing_seq = n;
        messages_sent = add64 s.messages_sent 1;
        sent = s.sent ++ text n ∷ [];
      }

  -- `handleError`, of an error that is `operation_aborted` or not.
  unfoldable pub handle_error : Session Price Time → Bool → Session Price Time
  handle_error s aborted = if aborted then s else close (update_state s SessionState.disconnected)

  abbrev pub start_heartbeat_timer : Session Price Time → Session Price Time
  start_heartbeat_timer s = record s { heartbeat_timer = true }

  -- `start`, for a socket that has been accepted.
  unfoldable pub start : Session Price Time → Session Price Time
  start s = start_heartbeat_timer (update_state s SessionState.logged_in)

  unfoldable pub handle_heartbeat : Session Price Time → FixMessage → Session Price Time
  handle_heartbeat s m =
      let s1 = record s { heartbeats_received = add64 s.heartbeats_received 1 } in
      if is_empty (get_field m Tag.test_req_id)
      then s1
      else record s1 { test_request_sent = false; test_request_timer = false }

  unfoldable pub on_test_request_timeout : Session Price Time → Bool → Session Price Time
  on_test_request_timeout s failed =
      if failed || not (is_logged_in s)
      then s
      else if s.test_request_sent
      then close (update_state s SessionState.disconnecting)
      else s

  module _ (now : Bytes) where
    unfoldable pub send_logon : Session Price Time → ℤ → Session Price Time
    send_logon s interval =
        let s1 = record s { interval = interval } in
        update_state (send_numbered s1 (λ n. generate_logon s.sender s.target n interval now))
          SessionState.logon_sent

    unfoldable pub send_logout : Session Price Time → Bytes → Session Price Time
    send_logout s text =
        update_state (send_numbered s (λ n. generate_logout s.sender s.target n text now))
          SessionState.logout_sent

    unfoldable pub send_heartbeat : Session Price Time → Bytes → Session Price Time
    send_heartbeat s id =
        let s1 = send_numbered s (λ n. generate_heartbeat s.sender s.target n id now) in
        record s1 { heartbeats_sent = add64 s.heartbeats_sent 1 }

    unfoldable pub send_reject : Session Price Time → ℕ → Bytes → Session Price Time
    send_reject s ref text = send_numbered s (λ n. generate_reject s.sender s.target n ref text now)

    unfoldable pub send_execution_report :
        ⦃d : Double Price⦄ → Session Price Time → FixReport Price → Session Price Time
    send_execution_report s r =
        if is_logged_in s
        then send_numbered s (λ n. generate_execution_report r s.sender s.target n now)
        else s
