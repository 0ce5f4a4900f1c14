-- ===== src/Session/Reading.antt =====
-- What becomes of the bytes that a session reads.
use financial_order_book.Prelude.{
  ℕ, ◌+◌, ◌≡◌, ◌≢◌, refl, sym, subst, ap, ==_iff, ◌∙◌, false, List, [], ◌∷◌, ◌++◌, arith,
  All-append, Bool-cases, inl, inr, ◌==◌, length, length-append, if◌then◌else◌,
}
use financial_order_book.Prelude.Double.{Double}
use financial_order_book.Prelude.Text.{Bytes, codes}
use financial_order_book.Types.{add64}
use financial_order_book.Fix.{parse_message}
use financial_order_book.Fix.Constants.{field_delimiter}
use financial_order_book.Fix.Generate.{generate_reject}
use financial_order_book.Fix.Wire.{IsClean}
use financial_order_book.Fix.Chunks.{parse_message_one_field}
use financial_order_book.Session.{Session, process_message, send_reject, send_numbered, read_stream}
use financial_order_book.Session.Texts.{fix_error_text}

-- The texts that end at a delimiter, where `buffer` has arrived before the bytes.
abbrev pub fields_of : Bytes → Bytes → List Bytes
fields_of buffer [] = []
fields_of buffer (c ∷ bytes) =
    let ended = (buffer ++ c ∷ []) ∷ fields_of [] bytes in
    let going = fields_of (buffer ++ c ∷ []) bytes in if c == field_delimiter then ended else going

-- How many delimiters a text has.
abbrev pub count_delimiters : Bytes → ℕ
count_delimiters [] = 0
count_delimiters (c ∷ s) =
    let rest = count_delimiters s in if c == field_delimiter then 1 + rest else rest

length-fields_of : (buffer bytes : Bytes) → length (fields_of buffer bytes) ≡ count_delimiters bytes
length-fields_of buffer [] = refl
length-fields_of buffer (c ∷ bytes) = elim (Bool-cases (c == field_delimiter)) [
  | inl e ↦ rw e (omega (arith, length-fields_of [] bytes))
  | inr e ↦ rw e (length-fields_of (buffer ++ c ∷ []) bytes)
]

module _ {Price Time : Type 0} where
  -- A session that has answered so many texts, and called no handler of requests.
  pub record Rejects (n : ℕ) (s s' : Session Price Time) : Type 0 where
    pub same_state : s'.state ≡ s.state
    pub same_incoming : s'.incoming_seq ≡ s.incoming_seq
    pub same_delivered : s'.delivered ≡ s.delivered
    pub sends : length s'.sent ≡ length s.sent + n

module _ {Price Time : Type 0} (now what : Bytes) where
  -- The session after a text that is not a valid message: one text more was received, and one
  -- reject with the next number went out, which refers to the last incoming number and
  -- says what is wrong.
  abbrev pub rejecting : Session Price Time → Bytes → Session Price Time
  rejecting s text =
      let reason =
        codes "Invalid message format: "
        ++ fix_error_text what (parse_message text).error_message in
      let answer =
        generate_reject s.sender s.target (add64 s.outgoing_seq 1) s.incoming_seq reason now in
      record s {
        messages_received = add64 s.messages_received 1;
        messages_sent = add64 s.messages_sent 1;
        outgoing_seq = add64 s.outgoing_seq 1;
        sent = s.sent ++ answer ∷ [];
      }

  abbrev pub rejecting_all : Session Price Time → List Bytes → Session Price Time
  rejecting_all s [] = s
  rejecting_all s (text ∷ texts) = rejecting_all (rejecting s text) texts

  pub rejecting_all_keeps :
      {A : Type 0} (f : Session Price Time → A)
      → ((s : Session Price Time) (text : Bytes) → f (rejecting s text) ≡ f s)
      → (s : Session Price Time) (texts : List Bytes) → f (rejecting_all s texts) ≡ f s
  rejecting_all_keeps f same s [] = refl
  rejecting_all_keeps f same s (text ∷ texts) =
      rejecting_all_keeps f same (rejecting s text) texts ∙ same s text

  rejecting_all-Rejects :
      (s : Session Price Time) (texts : List Bytes)
      → Rejects (length texts) s (rejecting_all s texts)
  rejecting_all-Rejects s [] = record {
    same_state = refl;
    same_incoming = refl;
    same_delivered = refl;
    sends = omega arith;
  }
  rejecting_all-Rejects s (text ∷ texts) =
      let r = rejecting_all-Rejects (rejecting s text) texts in
      let answer = length-append s.sent _ in
      record {
        same_state = r.same_state;
        same_incoming = r.same_incoming;
        same_delivered = r.same_delivered;
        sends = r.sends ∙ ap (λ k. k + length texts) answer ∙ omega arith;
      }

  module _ ⦃d : Double Price⦄ (time : Time) where
    process_message-rejecting :
        (s : Session Price Time) (text : Bytes)
        → (parse_message text).is_valid ≡ false
        → process_message now time what s text ≡ rejecting s text
    unfolding process_message send_reject send_numbered
    process_message-rejecting s text h = rw h refl

    read_stream-rejecting :
        (s : Session Price Time) (buffer bytes : Bytes)
        → IsClean buffer
        → (read_stream now time what s buffer bytes).0 ≡ rejecting_all s (fields_of buffer bytes)
    unfolding read_stream
    read_stream-rejecting s buffer [] h = refl
    read_stream-rejecting s buffer (c ∷ bytes) h = elim (Bool-cases (c == field_delimiter)) [
      | inl e ↦
          let is_delimiter : c ≡ field_delimiter = (==_iff c field_delimiter).0 e in
          let rejected =
            subst (λ x. (parse_message (buffer ++ x ∷ [])).is_valid ≡ false) (sym is_delimiter)
              (parse_message_one_field buffer h) in
          let one = process_message-rejecting s (buffer ++ c ∷ []) rejected in
          rw (e, read_stream)
            (ap (λ (t : Session Price Time). (read_stream now time what t [] bytes).0) one
              ∙ read_stream-rejecting (rejecting s (buffer ++ c ∷ [])) [] bytes tt)
      | inr e ↦
          let other : c ≢ field_delimiter = λ q. cc (e, (==_iff c field_delimiter).1 q) in
          rw (e, read_stream)
            (read_stream-rejecting s (buffer ++ c ∷ []) bytes
              (All-append (λ b. b ≢ field_delimiter) buffer (c ∷ []) h (other, tt)))
    ]

    -- However the bytes on the socket are made up, a session whose buffer has no delimiter answers
    -- each text up to a delimiter with one reject: the session that it ends as is the one that
    -- only received those texts and sent those rejects, with nothing else changed. So it has sent
    -- as many messages as delimiters arrived, called no handler of requests, kept its state, and
    -- never moved the number of the next message.
    pub read_stream-Rejects :
        (s : Session Price Time) (buffer bytes : Bytes)
        → IsClean buffer
        → let s' = (read_stream now time what s buffer bytes).0 in
          (s' ≡ rejecting_all s (fields_of buffer bytes)) × Rejects (count_delimiters bytes) s s'
    read_stream-Rejects s buffer bytes h =
        let e = read_stream-rejecting s buffer bytes h in
        (
          e,
          subst (λ (t : Session Price Time). Rejects (count_delimiters bytes) s t) (sym e)
              (subst (λ n. Rejects n s (rejecting_all s (fields_of buffer bytes)))
                (length-fields_of buffer bytes) (rejecting_all-Rejects s (fields_of buffer bytes))),
        )
