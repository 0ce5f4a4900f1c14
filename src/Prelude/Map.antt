-- ===== src/Prelude/Map.antt =====
-- `std::unordered_map` as an association list with one entry a key, over any key with a test
-- for equality.
use Prim.Native.Nat.{ℕ}
use mathlib.Core.Path.{◌≡◌, refl}
use mathlib.Core.Logic.{◌↔◌, inl, inr}
use mathlib.Core.Bool.{Bool, true, false}
use mathlib.Core.List.{List, [], ◌∷◌}
use mathlib.Core.Option.{Option, none, some}
use native.Mathlib.Omega.{arith}
use financial_order_book.Prelude.Tests.{◌==◌, ==_iff, if◌then◌else◌, Bool-cases}
use financial_order_book.Prelude.Int.{ℤ, pos, negsuc}
use financial_order_book.Prelude.Text.{Bytes, bytes_eq, bytes_eq_iff}

pub record Key (K : Type 0) : Type 0 where
  pub beq : K → K → Bool
  pub beq_iff : (a b : K) → (beq a b ≡ true) ↔ (a ≡ b)

instance abbrev pub nat_key : Key ℕ
nat_key = record { beq = ◌==◌; beq_iff = ==_iff }

abbrev pub int_eq : ℤ → ℤ → Bool
int_eq (pos a) (pos b) = a == b
int_eq (negsuc a) (negsuc b) = a == b
int_eq _ _ = false

pub int_eq_iff : (a b : ℤ) → (int_eq a b ≡ true) ↔ (a ≡ b)
int_eq_iff a b = ground arith

instance abbrev pub int_key : Key ℤ
int_key = record { beq = int_eq; beq_iff = int_eq_iff }

instance abbrev pub bytes_key : Key Bytes
bytes_key = record { beq = bytes_eq; beq_iff = bytes_eq_iff }

module _ {K V : Type 0} ⦃e : Key K⦄ where
  unfoldable pub lookup : K → List (K × V) → Option V
  lookup k [] = none
  lookup k ((j, v) ∷ m) = if e.beq j k then some v else lookup k m

  unfoldable pub insert : K → V → List (K × V) → List (K × V)
  insert k v [] = (k, v) ∷ []
  insert k v ((j, w) ∷ m) = if e.beq j k then (k, v) ∷ m else (j, w) ∷ insert k v m

  unfoldable pub erase : K → List (K × V) → List (K × V)
  erase k [] = []
  erase k ((j, w) ∷ m) = if e.beq j k then erase k m else (j, w) ∷ erase k m

  pub lookup-insert :
      (k j : K) (v : V) (m : List (K × V))
      → lookup j (insert k v m) ≡ (if e.beq k j then some v else lookup j m)
  unfolding lookup insert
  lookup-insert k j v [] = refl
  lookup-insert k j v ((i, w) ∷ m) =
      ground (arith, e.beq_iff k j, e.beq_iff i k, e.beq_iff i j, lookup-insert k j v m)

  pub lookup-insert_self : (k : K) (v : V) (m : List (K × V)) → lookup k (insert k v m) ≡ some v
  lookup-insert_self k v m = rw (lookup-insert k k v m, (e.beq_iff k k).1 refl)

  pub lookup-erase :
      (k j : K) (m : List (K × V)) → lookup j (erase k m) ≡ (if e.beq k j then none else lookup j m)
  unfolding lookup erase
  lookup-erase k j [] = ground arith
  lookup-erase k j ((i, w) ∷ m) =
      ground (arith, e.beq_iff k j, e.beq_iff i k, e.beq_iff i j, lookup-erase k j m)

  pub lookup-erase_self : (k : K) (m : List (K × V)) → lookup k (erase k m) ≡ none
  lookup-erase_self k m = rw (lookup-erase k k m, (e.beq_iff k k).1 refl)

  -- A property of every value that a key has.
  abbrev pub Each : (K → V → Type 0) → List (K × V) → Type 0
  Each P m = (k : K) (v : V) → lookup k m ≡ some v → P k v

  pub Each-insert :
      (P : K → V → Type 0) (k : K) (v : V) (m : List (K × V))
      → Each P m
      → P k v
      → Each P (insert k v m)
  Each-insert P k v m h p j w q = elim (Bool-cases (e.beq k j)) [
    | inl same ↦
        let r = rw (lookup-insert k j v m, same) at q in ground (arith, (e.beq_iff k j).0 same)
    | inr other ↦ h j w (rw (lookup-insert k j v m, other) at q)
  ]

  pub Each-erase : (P : K → V → Type 0) (k : K) (m : List (K × V)) → Each P m → Each P (erase k m)
  Each-erase P k m h j w q = elim (Bool-cases (e.beq k j)) [
    | inl same ↦ cc (rw (lookup-erase k j m, same) at q)
    | inr other ↦ h j w (rw (lookup-erase k j m, other) at q)
  ]
