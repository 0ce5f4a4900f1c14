-- ===== src/Book/Depth.antt =====
-- What `getDepth` and `getBestPrices` of src/Core/OrderBook.cpp read off the vectors.
use financial_order_book.Prelude.{
  ℕ, zero, suc, ◌+◌, ◌-◌, ◌<◌, ◌≡◌, refl, sym, ◌∙◌, ap, List, [], ◌∷◌, ◌++◌, map, some, min, arith,
  length, length-append, ◌⊎◌, inl, inr,
}
use financial_order_book.Level.{PriceLevel}
use financial_order_book.Book.{
  OrderBook, nth, back, map_option, best_bid, best_ask, depth_level, depth_loop, get_depth,
}

less_or_last : (i n : ℕ) → i < suc n → (i < n) ⊎ (i ≡ n)
less_or_last i n h = ground arith

minus_zero : (n : ℕ) → n - 0 ≡ n
minus_zero n = omega arith

zero_plus : (n : ℕ) → 0 + n ≡ n
zero_plus n = omega arith

min_of_zero : (n : ℕ) → min n 0 ≡ 0
min_of_zero n = ground arith

min_zero : (m : ℕ) → min 0 m ≡ 0
min_zero m = ground arith

min_of_suc : (n m : ℕ) → min (suc n) (suc m) ≡ suc (min n m)
min_of_suc n m = ground arith

-- The list from its back.
module _ {ℓ} {A : Type ℓ} where
  unfoldable pub reverse : List A → List A
  reverse [] = []
  reverse (x ∷ xs) = reverse xs ++ x ∷ []

  unfoldable pub take : ℕ → List A → List A
  take zero xs = []
  take (suc n) [] = []
  take (suc n) (x ∷ xs) = x ∷ take n xs

  length-reverse : (xs : List A) → length (reverse xs) ≡ length xs
  unfolding reverse
  length-reverse [] = refl
  length-reverse (x ∷ xs) = omega (arith, length-append (reverse xs) (x ∷ []), length-reverse xs)

  nth-left : (xs ys : List A) (i : ℕ) → i < length xs → nth (xs ++ ys) i ≡ nth xs i
  unfolding nth
  nth-left [] ys i h = ground arith
  nth-left (x ∷ xs) ys zero h = refl
  nth-left (x ∷ xs) ys (suc i) h = nth-left xs ys i (omega arith)

  nth-snoc : (xs : List A) (x : A) → nth (xs ++ x ∷ []) (length xs) ≡ some x
  unfolding nth
  nth-snoc [] x = refl
  nth-snoc (y ∷ xs) x = nth-snoc xs x

  -- The position `i` from the back is that of the reversed list.
  nth-reverse :
      (xs : List A) (i : ℕ) → i < length xs → nth xs (length xs - 1 - i) ≡ nth (reverse xs) i
  unfolding nth reverse
  nth-reverse [] i h = ground arith
  nth-reverse (x ∷ xs) i h = elim (less_or_last i (length xs) h) [
    | inl before ↦
        let e : suc (length xs) - 1 - i ≡ suc (length xs - 1 - i) = omega arith in
        ap (nth (x ∷ xs)) e
        ∙ nth-reverse xs i before
        ∙ sym (nth-left (reverse xs) (x ∷ []) i (omega (arith, length-reverse xs)))
    | inr last ↦
        let e : suc (length xs) - 1 - i ≡ 0 = omega arith in
        ap (nth (x ∷ xs)) e
        ∙ sym (nth-snoc (reverse xs) x)
        ∙ ap (nth (reverse xs ++ x ∷ [])) (length-reverse xs ∙ sym last)
  ]

  take-min : (n : ℕ) (xs : List A) → take (min n (length xs)) xs ≡ take n xs
  unfolding take
  take-min zero xs = ap (λ k. take k xs) (min_zero (length xs))
  take-min (suc n) [] = ap (λ k. take k []) (min_of_zero (suc n))
  take-min (suc n) (x ∷ xs) =
      ap (λ k. take k (x ∷ xs)) (min_of_suc n (length xs)) ∙ ap (λ ys. x ∷ ys) (take-min n xs)

below_min : (j n m : ℕ) → j < min n m → j < m
below_min j n m h = ground arith

shift : (i j : ℕ) → suc i + j ≡ i + suc j
shift i j = omega arith

add_zero : (i : ℕ) → i ≡ i + 0
add_zero i = omega arith

module _ {Price : Type 0} where
  at_start :
      (ls rs : List (PriceLevel Price)) (i : ℕ)
      → nth ls (length ls - 1 - (i + 0)) ≡ nth rs 0
      → nth ls (length ls - 1 - i) ≡ nth rs 0
  at_start ls rs i h = ap (λ k. nth ls (length ls - 1 - k)) (add_zero i) ∙ h

  depth_loop-take :
      (ls rs : List (PriceLevel Price)) (count i : ℕ)
      → ((j : ℕ) → j < count → nth ls (length ls - 1 - (i + j)) ≡ nth rs j)
      → depth_loop ls count i ≡ map depth_level (take count rs)
  unfolding depth_loop take nth
  depth_loop-take ls rs zero i h = refl
  depth_loop-take ls [] (suc count) i h = rw (depth_loop, at_start ls [] i (h 0 (omega arith))) refl
  depth_loop-take ls (r ∷ rs) (suc count) i h =
      let further : (j : ℕ) → j < count → nth ls (length ls - 1 - (suc i + j)) ≡ nth rs j =
        λ j l. ap (λ k. nth ls (length ls - 1 - k)) (shift i j) ∙ h (suc j) (omega arith) in
      rw (depth_loop, at_start ls (r ∷ rs) i (h 0 (omega arith)))
        (ap (λ ds. depth_level r ∷ ds) (depth_loop-take ls rs count (suc i) further))

  depth_loop-best :
      (ls : List (PriceLevel Price)) (n : ℕ)
      → depth_loop ls (min n (length ls)) 0 ≡ map depth_level (take n (reverse ls))
  depth_loop-best ls n =
      depth_loop-take ls (reverse ls) (min n (length ls)) 0 (λ j h.
        ap (λ k. nth ls (length ls - 1 - k)) (zero_plus j)
        ∙ nth-reverse ls j (below_min j n (length ls) h))
      ∙ ap (λ k. map depth_level (take (min n k) (reverse ls))) (sym (length-reverse ls))
      ∙ ap (map depth_level) (take-min n (reverse ls))

  back-reverse : (ls : List (PriceLevel Price)) → back ls ≡ nth (reverse ls) 0
  unfolding back nth reverse
  back-reverse [] = refl
  back-reverse (l ∷ ls) =
      ap (nth (l ∷ ls)) (sym (minus_zero (length (l ∷ ls) - 1)))
      ∙ nth-reverse (l ∷ ls) 0 (omega arith)

  head-take :
      (n : ℕ) (ls : List (PriceLevel Price))
      → map_option (λ d. d.price) (nth (map depth_level (take (suc n) ls)) 0)
        ≡ map_option (λ l. l.price) (nth ls 0)
  unfolding nth take
  head-take n [] = refl
  head-take n (l ∷ ls) = refl

  -- On each side the depth of `n` levels is the first `n` levels from the best price on, or all
  -- where there are fewer, and it starts at the best bid and the best ask where `n` is not 0.
  pub get_depth-take :
      (b : OrderBook Price) (n : ℕ)
      → ((get_depth b n).bids ≡ map depth_level (take n (reverse b.bids)))
        × ((get_depth b n).asks ≡ map depth_level (take n (reverse b.asks)))
        × (map_option (λ d. d.price) (nth (get_depth b (suc n)).bids 0) ≡ best_bid b)
        × (map_option (λ d. d.price) (nth (get_depth b (suc n)).asks 0) ≡ best_ask b)
  unfolding get_depth best_bid best_ask
  get_depth-take b n =
      (depth_loop-best b.bids n, depth_loop-best b.asks n, depth_head b.bids, depth_head b.asks)
    where
      depth_head :
          (ls : List (PriceLevel Price))
          → map_option (λ d. d.price) (nth (depth_loop ls (min (suc n) (length ls)) 0) 0)
            ≡ map_option (λ l. l.price) (back ls)
      depth_head ls =
          ap (λ ds. map_option (λ d. d.price) (nth ds 0)) (depth_loop-best ls (suc n))
          ∙ head-take n (reverse ls)
          ∙ ap (map_option (λ l. l.price)) (sym (back-reverse ls))
