-- ===== src/Fix/Chunks.antt =====
-- What the parser makes of one field alone, which is what the session's reading hands it.
use financial_order_book.Prelude.{
  ◌≡◌, refl, false, [], ◌∷◌, ◌++◌, Option, none, some, inl, inr, Bool-cases,
}
use financial_order_book.Prelude.Int.{ℤ, pos}
use financial_order_book.Prelude.Map.{int_eq, int_eq_iff, lookup, insert, int_key}
use financial_order_book.Prelude.Text.{Bytes}
use financial_order_book.Fix.Constants.{field_delimiter}
use financial_order_book.Fix.{
  new_message, split_round, FixMessage, split_loop, parse_fields, parse_field, parse_message,
  check_header, checked,
}
use financial_order_book.Fix.Wire.{IsClean, split_loop-append, split_round-delimiter}

-- A single entry is not a header, which has four.
check_header-short :
    (m : FixMessage) (tag : ℤ) (value : Bytes)
    → m.fields ≡ (tag, value) ∷ []
    → m.is_valid ≡ false
    → (check_header m).is_valid ≡ false
unfolding check_header lookup
check_header-short m tag value h v = elim (Bool-cases (int_eq tag (pos 8))) [
  | inl e ↦ rw (h, e, (int_eq_iff tag (pos 8)).0 e) v
  | inr e ↦ rw (h, e) v
]

parse_fields-one :
    (raw field : Bytes)
    → (checked (new_message raw) (parse_fields [] (field ∷ []))).is_valid ≡ false
unfolding parse_fields insert
parse_fields-one raw field = go (parse_field field) refl
  where
    go :
        (r : Option (Option ℤ × Bytes))
        → parse_field field ≡ r
        → (checked (new_message raw) (parse_fields [] (field ∷ []))).is_valid ≡ false
    go none e = rw (e, parse_fields) refl
    go (some (none, value)) e = rw (e, parse_fields) refl
    go (some (some tag, value)) e =
        rw (e, parse_fields)
          (check_header-short (record (new_message raw) { fields = (tag, value) ∷ [] }) tag value
            refl refl)

parse_message_delimiter : (parse_message (field_delimiter ∷ [])).is_valid ≡ false
unfolding parse_message split_loop split_round parse_fields check_header lookup
parse_message_delimiter = refl

-- A text with one delimiter, at its end, is never parsed as a valid message: such are the texts
-- that `FixSession::readMessage` passes on, since it reads up to the next delimiter.
pub parse_message_one_field :
    (s : Bytes) → IsClean s → (parse_message (s ++ field_delimiter ∷ [])).is_valid ≡ false
unfolding parse_message split_loop
parse_message_one_field [] h = parse_message_delimiter
parse_message_one_field (c ∷ s) h =
    rw (split_loop-append [] [] (c ∷ s) (field_delimiter ∷ []) h, split_loop)
      (rw (split_round-delimiter [] (c ∷ s) (λ e. cc e), split_loop)
        (parse_fields-one (c ∷ s ++ field_delimiter ∷ []) (c ∷ s)))
