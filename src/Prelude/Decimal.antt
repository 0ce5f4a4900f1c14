-- ===== src/Prelude/Decimal.antt =====
-- `std::to_string`, `std::stoi` and `std::stoull` on unsigned numbers and bytes.
use Prim.Native.Nat.{ℕ, zero, suc, ◌+◌, ◌-◌, ◌*◌, ◌/◌, ◌%◌, ◌^◌, ◌≤◌, ◌<◌}
use mathlib.Core.Path.{◌≡◌, refl, ap, ◌∙◌}
use mathlib.Core.Bool.{Bool, true, false, ◌&&◌, ◌||◌}
use mathlib.Core.List.{[], ◌∷◌, ◌++◌}
use mathlib.Core.Option.{Option, none, some}
use native.Mathlib.Omega.{arith}
use mathlib.Core.Logic.{◌≢◌, inl, inr}
use financial_order_book.Prelude.Tests.{Bool-cases, tests, ltb, leb, ◌==◌, if◌then◌else◌}
use financial_order_book.Prelude.Lists.{All, All-append}
use financial_order_book.Prelude.Int.{ℤ, pos, sub_ℕ}
use financial_order_book.Prelude.Text.{Bytes}

-- The decimal digits of a number; `n + 1` rounds of fuel are enough, since each divides by ten.
digits : ℕ → ℕ → Bytes
digits zero n = []
digits (suc fuel) n =
    let front = digits fuel (n / 10) ++ (b'0' + n % 10) ∷ [] in
    if ltb n 10 then (b'0' + n) ∷ [] else front

unfoldable pub to_string : ℕ → Bytes
unfolding digits
to_string n = digits (suc n) n

abbrev pub is_digit : ℕ → Bool
is_digit c = leb b'0' c && leb c b'9'

abbrev pub is_space : ℕ → Bool
is_space c = c == b' ' || (leb 9 c && leb c 13)

-- The value of the digits that a text begins with, behind those read so far.
unfoldable pub scan : ℕ → Bytes → ℕ
scan acc [] = acc
scan acc (c ∷ s) = let rest = scan (acc * 10 + (c - b'0')) s in if is_digit c then rest else acc

unfoldable pub skip_space : Bytes → Bytes
skip_space [] = []
skip_space (c ∷ s) = let rest = skip_space s in if is_space c then rest else c ∷ s

abbrev pub starts_digit : Bytes → Bool
starts_digit [] = false
starts_digit (c ∷ s) = is_digit c

-- What `strtol` reads behind the space: a sign and the number, if there is a digit.
abbrev pub magnitude : Bytes → Option ℕ
magnitude s = if starts_digit s then some (scan 0 s) else none

unfoldable pub signed : Bytes → Option (Bool × ℕ)
signed [] = none
signed (c ∷ s) =
    if c == b'-'
    then elim (magnitude s) [ none ↦ none | some n ↦ some (true, n) ]
    else if c == b'+'
    then elim (magnitude s) [ none ↦ none | some n ↦ some (false, n) ]
    else elim (magnitude (c ∷ s)) [ none ↦ none | some n ↦ some (false, n) ]

-- `none` is a throw: no digit, or a value that an `int` does not hold.
abbrev in_int : Bool × ℕ → Option ℤ
in_int (true, n) = if leb n (2 ^ 31) then some (sub_ℕ 0 n) else none
in_int (false, n) = if ltb n (2 ^ 31) then some (pos n) else none

unfoldable pub stoi : Bytes → Option ℤ
stoi s = elim (signed (skip_space s)) [ none ↦ none | some r ↦ in_int r ]

-- `stoull` takes a sign too, and negates in 64 bits.
abbrev in_u64 : Bool × ℕ → Option ℕ
in_u64 (true, n) = if ltb n (2 ^ 64) then some ((2 ^ 64 - n) % 2 ^ 64) else none
in_u64 (false, n) = if ltb n (2 ^ 64) then some n else none

unfoldable pub stoull : Bytes → Option ℕ
stoull s = elim (signed (skip_space s)) [ none ↦ none | some r ↦ in_u64 r ]

abbrev pub IsDigits : Bytes → Type 0
IsDigits = All (λ c. (b'0' ≤ c) × (c ≤ b'9'))

scan-snoc :
    (acc : ℕ) (s : Bytes) (c : ℕ)
    → IsDigits s
    → b'0' ≤ c
    → c ≤ b'9'
    → scan acc (s ++ c ∷ []) ≡ scan acc s * 10 + (c - b'0')
unfolding scan
scan-snoc acc [] c h l u = ground arith
scan-snoc acc (x ∷ s) c h l u = ground (arith, scan-snoc (acc * 10 + (x - b'0')) s c h.1)

digits-IsDigits : (fuel n : ℕ) → IsDigits (digits fuel n)
unfolding digits
digits-IsDigits zero n = tt
digits-IsDigits (suc fuel) n = elim (Bool-cases (ltb n 10)) [
  | inl h ↦ rw h ((omega arith, omega (tests, h)), tt)
  | inr h ↦ rw h (
      All-append (λ c. (b'0' ≤ c) × (c ≤ b'9')) (digits fuel (n / 10)) ((b'0' + n % 10) ∷ [])
        (digits-IsDigits fuel (n / 10)) ((omega arith, omega arith), tt))
]

scan-digits : (fuel n : ℕ) → n < fuel → scan 0 (digits fuel n) ≡ n
unfolding digits
scan-digits zero n k = elim k [ ]
scan-digits (suc fuel) n k = elim (Bool-cases (ltb n 10)) [
  | inl h ↦ rw h (unfold scan in ground arith)
  | inr h ↦ rw h (
      omega (
        arith,
        scan-snoc 0 (digits fuel (n / 10)) (b'0' + n % 10) (digits-IsDigits fuel (n / 10))
            (omega arith) (omega arith),
        scan-digits fuel (n / 10) (ground arith),
      ))
]

pub to_string-IsDigits : (n : ℕ) → IsDigits (to_string n)
unfolding to_string
to_string-IsDigits n = digits-IsDigits (suc n) n

scan-to_string : (n : ℕ) → scan 0 (to_string n) ≡ n
unfolding to_string
scan-to_string n = scan-digits (suc n) n (omega arith)

snoc-ne-nil : (s : Bytes) (c : ℕ) → s ++ c ∷ [] ≢ []
snoc-ne-nil [] c e = cc e
snoc-ne-nil (x ∷ s) c e = cc e

pub to_string-ne-nil : (n : ℕ) → to_string n ≢ []
unfolding to_string
to_string-ne-nil n e = elim (Bool-cases (ltb n 10)) [
  | inl h ↦ cc (rw h at e)
  | inr h ↦ snoc-ne-nil _ _ (rw h at e)
]

-- A text of digits alone is read as the number that they make.
signed-IsDigits : (s : Bytes) → IsDigits s → s ≢ [] → signed (skip_space s) ≡ some (false, scan 0 s)
unfolding signed skip_space
signed-IsDigits [] h ne = absurd (ne refl)
signed-IsDigits (c ∷ s) h ne = ground arith

signed-to_string : (n : ℕ) → signed (skip_space (to_string n)) ≡ some (false, n)
signed-to_string n =
    signed-IsDigits (to_string n) (to_string-IsDigits n) (to_string-ne-nil n)
    ∙ ap (λ (k : ℕ). some (false, k)) (scan-to_string n)

-- A printed number is read back.
pub stoi-to_string : (n : ℕ) → n < 2 ^ 31 → stoi (to_string n) ≡ some (pos n)
unfolding stoi
stoi-to_string n h = rw (signed-to_string n, stoi) (ground arith)

pub stoull-to_string : (n : ℕ) → n < 2 ^ 64 → stoull (to_string n) ≡ some n
unfolding stoull
stoull-to_string n h = rw (signed-to_string n, stoull) (ground arith)

to_string_test : to_string 1807 ≡ b'1' ∷ b'8' ∷ b'0' ∷ b'7' ∷ []
unfolding to_string
to_string_test = refl
