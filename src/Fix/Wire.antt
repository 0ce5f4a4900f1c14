-- ===== src/Fix/Wire.antt =====
-- What the parser reads from fields that are written one after the other.
use mathlib.Core.List.{append-nil, append_assoc}
use financial_order_book.Prelude.{
  if◌then◌else◌, Option, ℕ, ◌≡◌, ◌≢◌, ◌<◌, ◌^◌, refl, List, [], ◌∷◌, ◌++◌, map, none, some, arith,
  All, All-append, inl, inr, Bool-cases, ◌==◌,
}
use financial_order_book.Prelude.Decimal.{
  to_string, to_string-IsDigits, to_string-ne-nil, stoi-to_string, IsDigits,
}
use financial_order_book.Prelude.Int.{ℤ, pos}
use financial_order_book.Prelude.Map.{lookup, insert, lookup-insert, int_key}
use financial_order_book.Prelude.Text.{Bytes}
use financial_order_book.Fix.Constants.{Tag, number, field_delimiter}
use financial_order_book.Fix.{
  split_loop, split_round, split_at_equals, parse_field, parse_fields, render, field_text,
}

-- A value without the delimiter.
abbrev pub IsClean : Bytes → Type 0
IsClean = All (λ c. c ≢ field_delimiter)

abbrev pub AllClean : List (Tag × Bytes) → Type 0
AllClean = All (λ f. IsClean f.1)

-- What the fields, read from the left, leave under a tag.
abbrev pub last_value : ℤ → List (Tag × Bytes) → Option Bytes → Option Bytes
last_value k [] v = v
last_value k ((t, value) ∷ fs) v =
    last_value k fs (if int_key.beq (pos (number t)) k then some value else v)

pub IsDigits-IsClean : (s : Bytes) → IsDigits s → IsClean s
IsDigits-IsClean [] h = tt
IsDigits-IsClean (c ∷ s) h = ((λ e. omega arith), IsDigits-IsClean s h.1)

split_round-clean :
    (fields : List Bytes) (current : Bytes) (c : ℕ)
    → c ≢ field_delimiter
    → split_round fields current c ≡ (fields, current ++ c ∷ [])
unfolding split_round
split_round-clean fields current c h = elim (Bool-cases (c == field_delimiter)) [
  | inl e ↦ absurd (h (ground arith))
  | inr e ↦ rw e refl
]

pub split_round-delimiter :
    (fields : List Bytes) (current : Bytes)
    → current ≢ []
    → split_round fields current field_delimiter ≡ (fields ++ current ∷ [], [])
unfolding split_round
split_round-delimiter fields [] h = absurd (h refl)
split_round-delimiter fields (c ∷ current) h = refl

pub split_loop-append :
    (fields : List Bytes) (current w s : Bytes)
    → IsClean w
    → split_loop fields current (w ++ s) ≡ split_loop fields (current ++ w) s
unfolding split_loop
split_loop-append fields current [] s h = rw (append-nil current) refl
split_loop-append fields current (c ∷ w) s h =
    rw (split_round-clean fields current c h.0, split_loop)
      (rw (split_loop-append fields (current ++ c ∷ []) w s h.1, append_assoc current (c ∷ []) w)
        refl)

split_at_equals-digits :
    (digits value : Bytes)
    → IsDigits digits
    → split_at_equals (digits ++ b'=' ∷ value) ≡ some (digits, value)
unfolding split_at_equals
split_at_equals-digits [] value h = refl
split_at_equals-digits (c ∷ digits) value h =
    ground (arith, split_at_equals-digits digits value h.1)

small : (t : Tag) → number t < 2 ^ 31
small t = ground arith

parse_field-text :
    (t : Tag) (value : Bytes)
    → parse_field (field_text (t, value)) ≡ some (some (pos (number t)), value)
unfolding parse_field
parse_field-text t value =
    rw
      (
        split_at_equals-digits (to_string (number t)) value (to_string-IsDigits (number t)),
        stoi-to_string (number t) (small t),
      )
      refl

field_text-IsClean : (f : Tag × Bytes) → IsClean f.1 → IsClean (field_text f)
field_text-IsClean (t, value) h =
    All-append (λ c. c ≢ field_delimiter) (to_string (number t)) (b'=' ∷ value)
      (IsDigits-IsClean (to_string (number t)) (to_string-IsDigits (number t)))
      ((λ e. omega arith), h)

pub append-ne-nil : (s t : Bytes) → s ≢ [] → s ++ t ≢ []
append-ne-nil [] t h e = h refl
append-ne-nil (c ∷ s) t h e = cc e

pub field_text-ne-nil : (f : Tag × Bytes) → field_text f ≢ []
field_text-ne-nil (t, value) =
    append-ne-nil (to_string (number t)) (b'=' ∷ value) (to_string-ne-nil (number t))

pub split_loop-render :
    (fields : List Bytes) (fs : List (Tag × Bytes))
    → AllClean fs
    → split_loop fields [] (render fs) ≡ (fields ++ map field_text fs, [])
unfolding split_loop render
split_loop-render fields [] h = rw (append-nil fields) refl
split_loop-render fields (f ∷ fs) h =
    rw
      (split_loop-append fields [] (field_text f) (field_delimiter ∷ render fs)
        (field_text-IsClean f h.0))
      (rw (split_round-delimiter fields (field_text f) (field_text-ne-nil f), split_loop)
        (rw
          (
            split_loop-render (fields ++ field_text f ∷ []) fs h.1,
            append_assoc fields (field_text f ∷ []) (map field_text fs),
          )
          refl))

pub parse_fields-text :
    (m : List (ℤ × Bytes)) (fs : List (Tag × Bytes)) → (parse_fields m (map field_text fs)).1 ≡ none
unfolding parse_fields
parse_fields-text m [] = refl
parse_fields-text m ((t, value) ∷ fs) =
    rw (parse_field-text t value, parse_fields)
      (parse_fields-text (insert (pos (number t)) value m) fs)

pub lookup-parse_fields :
    (k : ℤ) (m : List (ℤ × Bytes)) (fs : List (Tag × Bytes))
    → lookup k (parse_fields m (map field_text fs)).0 ≡ last_value k fs (lookup k m)
unfolding parse_fields
lookup-parse_fields k m [] = refl
lookup-parse_fields k m ((t, value) ∷ fs) =
    rw
      (
        parse_field-text t value,
        parse_fields,
        lookup-parse_fields k (insert (pos (number t)) value m) fs,
        lookup-insert (pos (number t)) k value m,
      )
      refl
