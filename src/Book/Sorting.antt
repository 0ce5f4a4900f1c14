-- ===== src/Book/Sorting.antt =====
-- `maintainSortedOrder` of src/Core/OrderBook.cpp sorts only where the levels are not in order.
use mathlib.Core.Option.{some-injective}
use financial_order_book.Prelude.{
  subst, ℕ, zero, suc, ◌≡◌, refl, sym, ap, ◌∙◌, Bool, true, false, not, ◌&&◌, List, [], ◌∷◌, some,
  arith, Bool-cases, inl, inr, All,
}
use financial_order_book.Prelude.Double.{Double}
use financial_order_book.Types.{Side}
use financial_order_book.Level.{PriceLevel, empty_level}
use financial_order_book.Matching.{goes_before, insert_level, sort_levels}
use financial_order_book.Matching.Priority.{better, SortedLevels}
use financial_order_book.Book.{nth, set_nth, erase_nth}
use financial_order_book.Book.Index.{is_sorted, sorted_if_needed, lower_bound}

not_and_true : (b c : Bool) → not b && c ≡ true → (b ≡ false) × (c ≡ true)
not_and_true b c h = ground arith

module _ {Price : Type 0} ⦃d : Double Price⦄ where
  sort_levels_sorted :
      (side : Side) (ls : List (PriceLevel Price))
      → is_sorted side ls ≡ true
      → sort_levels side ls ≡ ls
  unfolding is_sorted sort_levels insert_level
  sort_levels_sorted side [] h = refl
  sort_levels_sorted side (l ∷ []) h = refl
  sort_levels_sorted side (l ∷ m ∷ ls) h =
      let (first, rest) = not_and_true (goes_before side m l) (is_sorted side (m ∷ ls)) h in
      ap (insert_level side l) (sort_levels_sorted side (m ∷ ls) rest) ∙ rw first refl

  pub sorted_if_needed-sort_levels :
      (side : Side) (ls : List (PriceLevel Price)) → sorted_if_needed side ls ≡ sort_levels side ls
  unfolding sorted_if_needed
  sorted_if_needed-sort_levels side ls = elim (Bool-cases (is_sorted side ls)) [
    | inl e ↦ rw e (sym (sort_levels_sorted side ls e))
    | inr e ↦ rw e refl
  ]

  -- A new level stands in the slot that `lower_bound` names.
  pub nth-insert_level :
      (side : Side) (p : Price) (ls : List (PriceLevel Price))
      → nth (insert_level side (empty_level p) ls) (lower_bound side p ls) ≡ some (empty_level p)
  unfolding nth insert_level lower_bound
  nth-insert_level side p [] = refl
  nth-insert_level side p (m ∷ ms) = elim (Bool-cases (goes_before side m (empty_level p))) [
    | inl e ↦ rw e (nth-insert_level side p ms)
    | inr e ↦ rw e refl
  ]

  All-set_nth :
      (P : PriceLevel Price → Type 0) (ls : List (PriceLevel Price)) (i : ℕ)
      (l l' : PriceLevel Price)
      → nth ls i ≡ some l
      → (P l → P l')
      → All P ls
      → All P (set_nth ls i l')
  unfolding nth set_nth
  All-set_nth P [] i l l' h f a = tt
  All-set_nth P (m ∷ ms) zero l l' h f a = (f (subst P (some-injective _ _ h) a.0), a.1)
  All-set_nth P (m ∷ ms) (suc i) l l' h f a = (a.0, All-set_nth P ms i l l' h f a.1)

  -- A level keeps its place where it keeps its price.
  pub set_nth-SortedLevels :
      (side : Side) (ls : List (PriceLevel Price)) (i : ℕ) (l l' : PriceLevel Price)
      → nth ls i ≡ some l
      → l'.price ≡ l.price
      → SortedLevels side ls
      → SortedLevels side (set_nth ls i l')
  unfolding nth set_nth
  set_nth-SortedLevels side [] i l l' h e s = tt
  set_nth-SortedLevels side (m ∷ ms) zero l l' h e s =
      let same : l'.price ≡ m.price = e ∙ ap (λ x. x.price) (sym (some-injective _ _ h)) in
      (subst (λ p. All (λ x. better side x.price p ≡ false) ms) (sym same) s.0, s.1)
  set_nth-SortedLevels side (m ∷ ms) (suc i) l l' h e s = (
    All-set_nth _ ms i l l' h (λ k. subst (λ p. better side p m.price ≡ false) (sym e) k) s.0,
    set_nth-SortedLevels side ms i l l' h e s.1,
  )

  All-erase_nth :
      (P : PriceLevel Price → Type 0) (ls : List (PriceLevel Price)) (i : ℕ)
      → All P ls
      → All P (erase_nth ls i)
  unfolding erase_nth
  All-erase_nth P [] i a = tt
  All-erase_nth P (m ∷ ms) zero a = a.1
  All-erase_nth P (m ∷ ms) (suc i) a = (a.0, All-erase_nth P ms i a.1)

  pub erase_nth-SortedLevels :
      (side : Side) (ls : List (PriceLevel Price)) (i : ℕ)
      → SortedLevels side ls
      → SortedLevels side (erase_nth ls i)
  unfolding erase_nth
  erase_nth-SortedLevels side [] i s = tt
  erase_nth-SortedLevels side (m ∷ ms) zero s = s.1
  erase_nth-SortedLevels side (m ∷ ms) (suc i) s =
      (All-erase_nth _ ms i s.0, erase_nth-SortedLevels side ms i s.1)
