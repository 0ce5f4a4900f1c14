-- ===== src/Session/Sending.antt =====
-- What keeps the counters of a session: the operations that set a state or send a message.
use financial_order_book.Prelude.{
  ℕ, suc, subst, ◌+◌, ◌%◌, List, ◌≡◌, refl, Bool, true, false, [], ◌∷◌, ◌++◌, arith, length,
  length-append, if◌then◌else◌, ◌||◌, not,
}
use financial_order_book.Prelude.Double.{Double}
use financial_order_book.Prelude.Int.{ℤ, pos, ◌+ℤ◌, ltb_ℤ}
use financial_order_book.Prelude.Text.{Bytes, codes}
use financial_order_book.Prelude.Decimal.{to_string}
use financial_order_book.Fix.Constants.{heartbeat_interval}
use financial_order_book.Fix.Generate.{
  FixReport, generate_heartbeat, generate_logon, generate_logout, generate_reject,
  generate_execution_report,
}
use financial_order_book.Types.{u64, add64}
use financial_order_book.Fix.{FixMessage, build_fix_message}
use financial_order_book.Session.{
  Session, SessionState, update_state, close, send_numbered, handle_error, send_logon, send_logout,
  send_heartbeat, send_reject, send_execution_report, is_logged_in, connected, handle_logon,
  handle_logout, handle_heartbeat, on_heartbeat_timeout, on_test_request_timeout,
}

-- A text that is a whole message of this sender and target with this number.
abbrev pub IsMessage : Bytes → Bytes → ℕ → Bytes → Type 0
IsMessage sender target n text =
    (type : ℕ) × (body : Bytes) × (now : Bytes) × (text
      ≡ build_fix_message type body sender target n now)

-- The messages stand with the numbers n + 1, n + 2, … , as 64-bit words.
abbrev pub IsNumbered : Bytes → Bytes → ℕ → List Bytes → Type 0
IsNumbered sender target n [] = Unit
IsNumbered sender target n (text ∷ rest) =
    IsMessage sender target (suc n % u64) text × IsNumbered sender target (suc n) rest

IsNumbered-append :
    (sender target : Bytes) (n k : ℕ) (texts : List Bytes) (text : Bytes)
    → k ≡ suc (n + length texts) % u64
    → IsNumbered sender target n texts
    → IsMessage sender target k text
    → IsNumbered sender target n (texts ++ text ∷ [])
IsNumbered-append sender target n k [] text e h m =
    let same : k ≡ suc n % u64 = omega arith in
    (subst (λ x. IsMessage sender target x text) same m, tt)
IsNumbered-append sender target n k (t ∷ ts) text e h m =
    (h.0, IsNumbered-append sender target (suc n) k ts text (omega arith) h.1 m)

module _ {Price Time : Type 0} where
  -- The session has passed the n-th message to the socket with the number n as a 64-bit word, and
  -- its last number and its count of messages are those of the last.
  pub record IsCounted (s : Session Price Time) : Type 0 where
    pub numbered : s.outgoing_seq ≡ length s.sent % u64
    pub counted : s.messages_sent ≡ length s.sent % u64
    pub each : IsNumbered s.sender s.target 0 s.sent

  pub send_numbered-IsCounted :
      (s : Session Price Time) (text : ℕ → Bytes)
      → ((n : ℕ) → IsMessage s.sender s.target n (text n))
      → IsCounted s
      → IsCounted (send_numbered s text)
  unfolding send_numbered
  send_numbered-IsCounted s text h v =
      let e = length-append s.sent (text (add64 s.outgoing_seq 1) ∷ []) in
      record {
        numbered = rw (e, v.numbered) (omega arith);
        counted = rw (e, v.counted) (omega arith);
        each =
            IsNumbered-append s.sender s.target 0 (add64 s.outgoing_seq 1) s.sent _
              (omega (arith, v.numbered)) v.each (h (add64 s.outgoing_seq 1));
      }

  -- A step that sends nothing keeps the counts.
  pub IsCounted-same :
      (s t : Session Price Time)
      → t.outgoing_seq ≡ s.outgoing_seq
      → t.messages_sent ≡ s.messages_sent
      → t.sent ≡ s.sent
      → t.sender ≡ s.sender
      → t.target ≡ s.target
      → IsCounted s
      → IsCounted t
  IsCounted-same s t e f g from to v = record {
    numbered = rw (e, g) v.numbered;
    counted = rw (f, g) v.counted;
    each = rw (g, from, to) v.each;
  }

  pub close-IsCounted : (s : Session Price Time) → IsCounted s → IsCounted (close s)
  unfolding close update_state
  close-IsCounted s v =
      IsCounted-same s (close s) (ground arith) (ground arith) (ground arith) (ground arith)
        (ground arith) v

  pub update_state-IsCounted :
      (s : Session Price Time) (new : SessionState) → IsCounted s → IsCounted (update_state s new)
  unfolding update_state
  update_state-IsCounted s new v = IsCounted-same s (update_state s new) refl refl refl refl refl v

  pub handle_error-IsCounted :
      (s : Session Price Time) (aborted : Bool) → IsCounted s → IsCounted (handle_error s aborted)
  unfolding handle_error
  handle_error-IsCounted s true v = v
  handle_error-IsCounted s false v =
      close-IsCounted (update_state s SessionState.disconnected)
        (update_state-IsCounted s SessionState.disconnected v)

  pub closing-IsCounted :
      (s : Session Price Time)
      → IsCounted s
      → IsCounted (close (update_state s SessionState.disconnecting))
  closing-IsCounted s v =
      close-IsCounted (update_state s SessionState.disconnecting)
        (update_state-IsCounted s SessionState.disconnecting v)

  pub send_logon-IsCounted :
      (now : Bytes) (s : Session Price Time) (i : ℤ) → IsCounted s → IsCounted (send_logon now s i)
  unfolding send_logon
  send_logon-IsCounted now s i v = update_state-IsCounted _ SessionState.logon_sent (
      send_numbered-IsCounted (record s { interval = i })
        (λ n. generate_logon s.sender s.target n i now)
        (λ n. unfold generate_logon in (_, _, _, refl))
        (IsCounted-same s (record s { interval = i }) refl refl refl refl refl v))

  pub send_logout-IsCounted :
      (now : Bytes) (s : Session Price Time) (text : Bytes)
      → IsCounted s
      → IsCounted (send_logout now s text)
  unfolding send_logout
  send_logout-IsCounted now s text v = update_state-IsCounted _ SessionState.logout_sent (
      send_numbered-IsCounted s (λ n. generate_logout s.sender s.target n text now)
        (λ n. unfold generate_logout in (_, _, _, refl)) v)

  pub send_heartbeat-IsCounted :
      (now : Bytes) (s : Session Price Time) (id : Bytes)
      → IsCounted s
      → IsCounted (send_heartbeat now s id)
  unfolding send_heartbeat
  send_heartbeat-IsCounted now s id v =
      let w =
        send_numbered-IsCounted s (λ n. generate_heartbeat s.sender s.target n id now)
          (λ n. unfold generate_heartbeat in (_, _, _, refl)) v in
      record { numbered = w.numbered; counted = w.counted; each = w.each }

  pub send_reject-IsCounted :
      (now : Bytes) (s : Session Price Time) (ref : ℕ) (text : Bytes)
      → IsCounted s
      → IsCounted (send_reject now s ref text)
  unfolding send_reject
  send_reject-IsCounted now s ref text v =
      send_numbered-IsCounted s (λ n. generate_reject s.sender s.target n ref text now)
        (λ n. unfold generate_reject in (_, _, _, refl)) v

  pub if-IsCounted :
      (b : Bool) (s t : Session Price Time)
      → IsCounted s
      → IsCounted t
      → IsCounted (if b then s else t)
  if-IsCounted true s t v w = v
  if-IsCounted false s t v w = w

  pub send_execution_report-IsCounted :
      ⦃d : Double Price⦄ (now : Bytes) (s : Session Price Time) (r : FixReport Price)
      → IsCounted s
      → IsCounted (send_execution_report now s r)
  unfolding send_execution_report
  send_execution_report-IsCounted now s r v =
      if-IsCounted (is_logged_in s) _ s
        (send_numbered-IsCounted s (λ n. generate_execution_report r s.sender s.target n now)
          (λ n. unfold generate_execution_report in (_, _, _, refl)) v)
        v

  pub connected-IsCounted :
      (now : Bytes) (s : Session Price Time) → IsCounted s → IsCounted (connected now s)
  unfolding connected
  connected-IsCounted now s v =
      let s1 = update_state s SessionState.logon_sent in
      let w =
        send_logon-IsCounted now s1 (pos heartbeat_interval)
          (update_state-IsCounted s SessionState.logon_sent v) in
      record { numbered = w.numbered; counted = w.counted; each = w.each }

  pub handle_logon-IsCounted :
      (now : Bytes) (s : Session Price Time) (m : FixMessage)
      → IsCounted s
      → IsCounted (handle_logon now s m)
  unfolding handle_logon update_state
  handle_logon-IsCounted now s m v =
      IsCounted-same s (handle_logon now s m) (ground arith) (ground arith) (ground arith)
        (ground arith) (ground arith) v

  pub handle_logout-IsCounted :
      (now : Bytes) (s : Session Price Time) → IsCounted s → IsCounted (handle_logout now s)
  unfolding handle_logout
  handle_logout-IsCounted now s v =
      close-IsCounted _
        (send_logout-IsCounted now _ _ (update_state-IsCounted s SessionState.disconnecting v))

  pub handle_heartbeat-IsCounted :
      (s : Session Price Time) (m : FixMessage) → IsCounted s → IsCounted (handle_heartbeat s m)
  unfolding handle_heartbeat
  handle_heartbeat-IsCounted s m v =
      IsCounted-same s (handle_heartbeat s m) (ground arith) (ground arith) (ground arith)
        (ground arith) (ground arith) v

  pub on_test_request_timeout-IsCounted :
      (s : Session Price Time) (failed : Bool)
      → IsCounted s
      → IsCounted (on_test_request_timeout s failed)
  unfolding on_test_request_timeout
  on_test_request_timeout-IsCounted s failed v =
      if-IsCounted (failed || not (is_logged_in s)) s _ v
        (if-IsCounted s.test_request_sent _ s (closing-IsCounted s v) v)

  pub on_heartbeat_timeout-IsCounted :
      (now : Bytes) (s : Session Price Time) (failed : Bool) (elapsed : ℤ)
      → IsCounted s
      → IsCounted (on_heartbeat_timeout now s failed elapsed)
  unfolding on_heartbeat_timeout
  on_heartbeat_timeout-IsCounted now s failed elapsed v =
      let asked = send_heartbeat-IsCounted now s (codes "TR" ++ to_string s.outgoing_seq) v in
      let beat = send_heartbeat-IsCounted now s [] v in
      if-IsCounted (failed || not (is_logged_in s)) s _ v (
        if-IsCounted (ltb_ℤ (s.interval +ℤ s.interval) elapsed) _ _
          (if-IsCounted (not s.test_request_sent) _ _
            (record { numbered = asked.numbered; counted = asked.counted; each = asked.each })
            (closing-IsCounted s v))
          (if-IsCounted (ltb_ℤ s.interval elapsed) _ _
            (record { numbered = beat.numbered; counted = beat.counted; each = beat.each })
            (record { numbered = v.numbered; counted = v.counted; each = v.each })))
