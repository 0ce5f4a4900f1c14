-- ===== src/Fix/RoundTrip.antt =====
-- A message that is built from fields is parsed into them.
use mathlib.Core.List.{append_assoc}
use financial_order_book.Prelude.{
  inl, inr, Bool-cases, ◌==◌, if◌then◌else◌, Option, ℕ, ◌+◌, ◌≡◌, ◌≢◌, refl, sym, ◌∙◌, ap, Bool,
  true, false, List, [], ◌∷◌, ◌++◌, map, none, some, arith, All, All-append, All-mono, length,
}
use financial_order_book.Prelude.Decimal.{to_string, to_string-IsDigits}
use financial_order_book.Prelude.Int.{ℤ, pos, negsuc}
use financial_order_book.Prelude.Map.{lookup, int_key}
use financial_order_book.Prelude.Text.{Bytes, bytes_eq_refl, is_empty}
use financial_order_book.Fix.Constants.{Tag, number, field_delimiter, begin_string_44}
use financial_order_book.Fix.{
  FixMessage, FixError, checked, new_message, parse_fields, render, field_text, parse_message,
  check_header, build_fix_message, message_text, header_fields, int_text, to_int32, three_digits,
  calculate_checksum,
}
use financial_order_book.Fix.Wire.{
  IsClean, AllClean, last_value, IsDigits-IsClean, split_loop-render, parse_fields-text,
  lookup-parse_fields, field_text-ne-nil, append-ne-nil,
}

render-append : (fs gs : List (Tag × Bytes)) → render (fs ++ gs) ≡ render fs ++ render gs
unfolding render
render-append [] gs = refl
render-append (f ∷ fs) gs =
    rw (render-append fs gs, append_assoc (field_text f) (field_delimiter ∷ render fs) (render gs))
      refl

-- The tags that the header and the trailer do not use and the parser does not test.
abbrev pub is_body_tag : Tag → Bool
is_body_tag Tag.begin_string = false
is_body_tag Tag.body_length = false
is_body_tag Tag.msg_type = false
is_body_tag Tag.checksum = false
is_body_tag _ = true

abbrev pub IsBody : List (Tag × Bytes) → Type 0
IsBody = All (λ f. (is_body_tag f.0 ≡ true) × IsClean f.1)

-- The fields of a built message, in their order.
abbrev pub opening : Bytes → List (Tag × Bytes)
opening body_length = (Tag.begin_string, begin_string_44) ∷ (Tag.body_length, body_length) ∷ []

abbrev pub closing : Bytes → List (Tag × Bytes)
closing sum = (Tag.checksum, sum) ∷ []

abbrev pub length_text : ℕ → List (Tag × Bytes) → Bytes → Bytes → ℕ → Bytes → Bytes
length_text mt body sender target seq now =
    int_text
      (to_int32 (length (render (header_fields mt sender target seq now)) + length (render body)))

abbrev pub checksum_text : ℕ → List (Tag × Bytes) → Bytes → Bytes → ℕ → Bytes → Bytes
checksum_text mt body sender target seq now =
    three_digits (calculate_checksum (message_text mt (render body) sender target seq now))

abbrev pub all_fields : ℕ → List (Tag × Bytes) → Bytes → Bytes → ℕ → Bytes → List (Tag × Bytes)
all_fields mt body sender target seq now =
    opening (length_text mt body sender target seq now)
    ++ header_fields mt sender target seq now
    ++ body
    ++ closing (checksum_text mt body sender target seq now)

build_fix_message-render :
    (mt : ℕ) (body : List (Tag × Bytes)) (sender target : Bytes) (seq : ℕ) (now : Bytes)
    → build_fix_message mt (render body) sender target seq now
      ≡ render (all_fields mt body sender target seq now)
unfolding build_fix_message message_text
build_fix_message-render mt body sender target seq now =
    let op = opening (length_text mt body sender target seq now) in
    let h = header_fields mt sender target seq now in
    let cl = closing (checksum_text mt body sender target seq now) in
    sym (
      render-append (op ++ h ++ body) cl
      ∙ ap (λ x. x ++ render cl)
          (render-append (op ++ h) body ∙ ap (λ x. x ++ render body) (render-append op h)))

pub int_text-IsClean : (a : ℤ) → IsClean (int_text a)
int_text-IsClean (pos n) = IsDigits-IsClean (to_string n) (to_string-IsDigits n)
int_text-IsClean (negsuc n) =
    ((λ e. omega arith), IsDigits-IsClean (to_string (1 + n)) (to_string-IsDigits (1 + n)))

three_digits-IsClean : (n : ℕ) → IsClean (three_digits n)
three_digits-IsClean n = ((λ e. omega arith), ((λ e. omega arith), ((λ e. omega arith), tt)))

pub is_empty-ne-nil : (s : Bytes) → s ≢ [] → is_empty s ≡ false
is_empty-ne-nil [] h = absurd (h refl)
is_empty-ne-nil (c ∷ s) h = refl

checked-none :
    (m : FixMessage) (r : List (ℤ × Bytes) × Option FixError)
    → r.1 ≡ none
    → checked m r ≡ check_header (record m { fields = r.0 })
checked-none m (fields, none) h = refl
checked-none m (fields, some e) h = cc h

parse_message-render :
    (f : Tag × Bytes) (fs : List (Tag × Bytes))
    → AllClean (f ∷ fs)
    → parse_message (render (f ∷ fs))
      ≡ check_header (record {
        msg_type = none;
        fields = (parse_fields [] (map field_text (f ∷ fs))).0;
        raw_message = render (f ∷ fs);
        is_valid = false;
        error_message = none;
      })
unfolding parse_message
parse_message-render f fs h =
    rw
      (
        is_empty-ne-nil (render (f ∷ fs)) (
            unfold render in
            append-ne-nil (field_text f) (field_delimiter ∷ render fs) (field_text-ne-nil f)),
        split_loop-render [] (f ∷ fs) h,
      )
      (checked-none (new_message (render (f ∷ fs))) (parse_fields [] (map field_text (f ∷ fs)))
        (parse_fields-text [] (f ∷ fs)))

number-body :
    (t : Tag)
    → is_body_tag t ≡ true
    → (number t ≢ 8) × (number t ≢ 9) × (number t ≢ 35) × (number t ≢ 10)
number-body t h = ground arith

last_value-other :
    (n : ℕ) (fs : List (Tag × Bytes)) (v : Option Bytes)
    → All (λ f. number f.0 ≢ n) fs
    → last_value (pos n) fs v ≡ v
last_value-other n [] v h = refl
last_value-other n ((t, value) ∷ fs) v h = elim (Bool-cases (number t == n)) [
  | inl e ↦ absurd (h.0 (ground arith))
  | inr e ↦ rw e (last_value-other n fs v h.1)
]

begin_string-IsClean : IsClean begin_string_44
begin_string-IsClean = ground arith

AllClean-fields :
    (mt : ℕ) (body : List (Tag × Bytes)) (sender target : Bytes) (seq : ℕ) (now : Bytes)
    → mt ≢ field_delimiter
    → IsBody body
    → IsClean sender
    → IsClean target
    → IsClean now
    → AllClean (all_fields mt body sender target seq now)
AllClean-fields mt body sender target seq now m b s t n =
    let c = calculate_checksum (message_text mt (render body) sender target seq now) in
    let l =
      to_int32 (length (render (header_fields mt sender target seq now)) + length (render body)) in
    let bodies =
      All-mono (λ f. (is_body_tag f.0 ≡ true) × IsClean f.1) (λ f. IsClean f.1) body (λ f h. h.1)
        b in
    (
      begin_string-IsClean,
      (
        int_text-IsClean l,
        (
          (m, tt),
          (
            s,
            (
              t,
              (
                IsDigits-IsClean (to_string seq) (to_string-IsDigits seq),
                (
                  n,
                  All-append (λ f. IsClean f.1) body (closing (three_digits c)) bodies
                      (three_digits-IsClean c, tt),
                ),
              ),
            ),
          ),
        ),
      ),
    )

last_value-append :
    (k : ℤ) (fs gs : List (Tag × Bytes)) (v : Option Bytes)
    → last_value k (fs ++ gs) v ≡ last_value k gs (last_value k fs v)
last_value-append k [] gs v = refl
last_value-append k ((t, value) ∷ fs) gs v =
    last_value-append k fs gs (if int_key.beq (pos (number t)) k then some value else v)

check_header_lem :
    (m : FixMessage) (mt : ℕ) (l c : Bytes)
    → lookup (pos 8) m.fields ≡ some begin_string_44
    → lookup (pos 9) m.fields ≡ some l
    → lookup (pos 35) m.fields ≡ some (mt ∷ [])
    → lookup (pos 10) m.fields ≡ some c
    → length c ≡ 3
    → check_header m ≡ record m { msg_type = some mt; is_valid = true }
unfolding check_header
check_header_lem m mt l c e8 e9 e35 e10 three =
    rw (e8, e9, e35, e10, three, bytes_eq_refl begin_string_44) refl

-- Behind the header's fields, the body leaves the values under the parser's tags alone.
last_value-body :
    (n : ℕ) (body : List (Tag × Bytes)) (c : Bytes) (v : Option Bytes)
    → All (λ f. number f.0 ≢ n) body
    → last_value (pos n) (body ++ closing c) v ≡ last_value (pos n) (closing c) v
last_value-body n body c v h =
    rw (last_value-append (pos n) body (closing c) v, last_value-other n body v h) refl

built : ℕ → List (Tag × Bytes) → Bytes → Bytes → ℕ → Bytes → FixMessage
built mt body sender target seq now = record {
  msg_type = some mt;
  fields = (parse_fields [] (map field_text (all_fields mt body sender target seq now))).0;
  raw_message = render (all_fields mt body sender target seq now);
  is_valid = true;
  error_message = none;
}

parse_message-built :
    (mt : ℕ) (body : List (Tag × Bytes)) (sender target : Bytes) (seq : ℕ) (now : Bytes)
    → mt ≢ field_delimiter
    → IsBody body
    → IsClean sender
    → IsClean target
    → IsClean now
    → parse_message (render (all_fields mt body sender target seq now))
      ≡ built mt body sender target seq now
unfolding built lookup
parse_message-built mt body sender target seq now m b s t n =
    let l = length_text mt body sender target seq now in
    let c = checksum_text mt body sender target seq now in
    let fs = all_fields mt body sender target seq now in
    let read = λ (k : ℤ). lookup-parse_fields k [] fs in
    let others =
      λ (k : ℕ) (g : (f : Tag × Bytes) → (is_body_tag f.0 ≡ true) × IsClean f.1 → number f.0 ≢ k).
        All-mono (λ f. (is_body_tag f.0 ≡ true) × IsClean f.1) (λ f. number f.0 ≢ k) body g b in
    parse_message-render (Tag.begin_string, begin_string_44)
      ((Tag.body_length, l) ∷ header_fields mt sender target seq now ++ body ++ closing c)
      (AllClean-fields mt body sender target seq now m b s t n)
    ∙ check_header_lem
        (record {
          msg_type = none;
          fields = (parse_fields [] (map field_text fs)).0;
          raw_message = render fs;
          is_valid = false;
          error_message = none;
        })
        mt l c
        (read (pos 8)
          ∙ last_value-body 8 body c (some begin_string_44)
              (others 8 (λ f h. (number-body f.0 h.0).0)))
        (read (pos 9)
          ∙ last_value-body 9 body c (some l) (others 9 (λ f h. (number-body f.0 h.0).1)))
        (read (pos 35)
          ∙ last_value-body 35 body c (some (mt ∷ [])) (others 35 (λ f h. (number-body f.0 h.0).2)))
        (read (pos 10)
          ∙ last_value-body 10 body c none (others 10 (λ f h. (number-body f.0 h.0).3)))
        refl

-- A message built from its type, its body's fields, the two party ids, the sequence number and
-- the text of the time is parsed as valid and of its type, and each tag has the value
-- that stands last under it among the message's fields. The type and the texts hold no delimiter,
-- and the body uses no tag of the standard header and trailer that the parser tests.
pub parse_message-build_fix_message :
    (mt : ℕ) (body : List (Tag × Bytes)) (sender target : Bytes) (seq : ℕ) (now : Bytes)
    → mt ≢ field_delimiter
    → IsBody body
    → IsClean sender
    → IsClean target
    → IsClean now
    → let m = parse_message (build_fix_message mt (render body) sender target seq now) in
      (m.is_valid ≡ true)
      × (m.error_message ≡ none)
      × (m.msg_type ≡ some mt)
      × ((k : ℤ) → lookup k m.fields ≡ last_value k (all_fields mt body sender target seq now) none)
unfolding built lookup
parse_message-build_fix_message mt body sender target seq now m b s t n =
    let fs = all_fields mt body sender target seq now in
    let e =
      ap parse_message (build_fix_message-render mt body sender target seq now)
      ∙ parse_message-built mt body sender target seq now m b s t n in
    (
      ap (λ x. x.is_valid) e,
      ap (λ x. x.error_message) e,
      ap (λ x. x.msg_type) e,
      λ k. ap (λ x. lookup k x.fields) e ∙ lookup-parse_fields k [] fs,
    )
