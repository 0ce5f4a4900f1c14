-- ===== src/Matching/Priority.antt =====
-- Price priority: the levels are visited from the best price on.
use mathlib.Core.List.{Perm}
use mathlib.Core.List.Perm
use financial_order_book.Prelude.{
  ℕ, ◌≡◌, refl, sym, ◌∙◌, ◌⊎◌, inl, inr, Bool, true, false, List, [], ◌∷◌, ◌++◌, arith, Bool-cases,
  All, All-append, All-mono,
}
use financial_order_book.Prelude.Double.{Double, IsOrdered}
use financial_order_book.Types.{Side}
use financial_order_book.Order.{Order, Trade, is_fully_filled}
use financial_order_book.Order.Fill.{IsSound}
use financial_order_book.Level.{Store, PriceLevel, is_empty_level}
use financial_order_book.Matching.{
  MatchState, Progress, trade_with, start, match_against_price_level, after_level, crosses_level,
  match_levels, goes_before, insert_level, sort_levels, match_order, match_result,
}
use financial_order_book.Matching.Body.{AllSound}
use financial_order_book.Matching.OneTrade.{Outcome, untouched, traded, match_loop-Outcome}
use financial_order_book.Matching.Accounting.{IsProgress, after_level-IsProgress}
use financial_order_book.Matching.Results.{started, started-IsProgress}

module _ {Price : Type 0} ⦃d : Double Price⦄ where
  -- A price that is better for an incoming order on `side` than another.
  abbrev pub better : Side → Price → Price → Bool
  better Side.buy p q = d.lt p q
  better Side.sell p q = d.lt q p

  -- No level goes before one that stands ahead of it.
  abbrev pub SortedLevels : Side → List (PriceLevel Price) → Type 0
  SortedLevels side [] = Unit
  SortedLevels side (l ∷ ls) =
      All (λ m. better side m.price l.price ≡ false) ls × SortedLevels side ls

  -- No trade has a better price than an earlier one.
  abbrev pub RankedTrades : Side → List (Trade Price) → Type 0
  RankedTrades side [] = Unit
  RankedTrades side (t ∷ ts) =
      All (λ u. better side u.price t.price ≡ false) ts × RankedTrades side ts

  -- No level that is left has a better price than a trade that was made.
  abbrev Bounds : Side → List (Trade Price) → List (PriceLevel Price) → Type 0
  Bounds side ts ls = All (λ t. All (λ l. better side l.price t.price ≡ false) ls) ts

  RankedTrades-append :
      (side : Side) (ts : List (Trade Price)) (u : Trade Price)
      → RankedTrades side ts
      → All (λ t. better side u.price t.price ≡ false) ts
      → RankedTrades side (ts ++ u ∷ [])
  RankedTrades-append side [] u r h = (tt, tt)
  RankedTrades-append side (t ∷ ts) u r h = (
    All-append (λ v. better side v.price t.price ≡ false) ts (u ∷ []) r.0 (h.0, tt),
    RankedTrades-append side ts u r.1 h.1,
  )

  Bounds-head :
      (side : Side) (ts : List (Trade Price)) (l : PriceLevel Price) (ls : List (PriceLevel Price))
      → Bounds side ts (l ∷ ls)
      → All (λ t. better side l.price t.price ≡ false) ts
  Bounds-head side ts l ls = All-mono _ _ ts (λ t h. h.0)

  Bounds-tail :
      (side : Side) (ts : List (Trade Price)) (l : PriceLevel Price) (ls : List (PriceLevel Price))
      → Bounds side ts (l ∷ ls)
      → Bounds side ts ls
  Bounds-tail side ts l ls = All-mono _ _ ts (λ t h. h.1)

  -- What a run over a level does to the trades.
  abbrev Extends : List (Trade Price) → PriceLevel Price → List (Trade Price) → Type 0
  Extends ts l us = (us ≡ ts) ⊎ ((t : Trade Price) × (t.price ≡ l.price) × (us ≡ ts ++ t ∷ []))

  Outcome-Extends : (m m' : MatchState Price) → Outcome m m' → Extends m.trades m.level m'.trades
  unfolding trade_with
  Outcome-Extends m m' (untouched e0 e1 e2 e3 e4 e5) = inl e3
  Outcome-Extends m m' (traded a at pos valid e) = rw e (inr (_, refl, refl))

  extend-RankedTrades :
      (side : Side) (ts us : List (Trade Price)) (l : PriceLevel Price)
      (ls : List (PriceLevel Price))
      → Extends ts l us
      → RankedTrades side ts
      → Bounds side ts (l ∷ ls)
      → SortedLevels side (l ∷ ls)
      → RankedTrades side us × Bounds side us ls
  extend-RankedTrades side ts us l ls (inl e) r b s = rw e (r, Bounds-tail side ts l ls b)
  extend-RankedTrades side ts us l ls (inr (t, p, e)) r b s = rw e (
    RankedTrades-append side ts t r (rw p (Bounds-head side ts l ls b)),
    All-append (λ u. All (λ m. better side m.price u.price ≡ false) ls) ts (t ∷ [])
        (Bounds-tail side ts l ls b) (rw p s.0, tt),
  )

  match_levels-RankedTrades :
      (side : Side) (o : Order Price) (c : ℕ) (p : Progress Price) (ls : List (PriceLevel Price))
      → IsProgress o c p
      → SortedLevels side ls
      → RankedTrades side p.trades
      → Bounds side p.trades ls
      → RankedTrades side (match_levels p ls).0.trades
  unfolding match_levels
  match_levels-RankedTrades side o c p [] v s r b = r
  match_levels-RankedTrades side o c p (l ∷ ls) v s r b =
      let m0 = start p.store l p.incoming p.trades p.trade_counter in
      let m = match_against_price_level p.store l p.incoming p.trades p.trade_counter in
      let run = match_loop-Outcome 0 m0 v.sound v.stored in
      let (r', b') =
        extend-RankedTrades side p.trades m.trades l ls (Outcome-Extends m0 m run) r b s in
      elim (Bool-cases (is_empty_level l)) [
        | inl e ↦
            rw e
              (match_levels-RankedTrades side o c p ls v s.1 r (Bounds-tail side p.trades l ls b))
        | inr e ↦ elim (Bool-cases (crosses_level p.incoming l)) [
          | inr f ↦ rw (e, f) r
          | inl f ↦ elim (Bool-cases (is_fully_filled m.incoming)) [
            | inl g ↦ rw (e, f, g) r'
            | inr g ↦
                rw (e, f, g)
                  (match_levels-RankedTrades side o c (after_level p m) ls
                    (after_level-IsProgress o c p l m v f run) s.1 r' b')
          ]
        ]
      ]

  -- `sort_levels` is a permutation.
  insert_level-Perm :
      (side : Side) (l : PriceLevel Price) (ls : List (PriceLevel Price))
      → Perm (insert_level side l ls) (l ∷ ls)
  unfolding insert_level
  insert_level-Perm side l [] = Perm.refl (l ∷ [])
  insert_level-Perm side l (m ∷ ms) = elim (Bool-cases (goes_before side m l)) [
    | inl e ↦ rw e (Perm.trans (Perm.cons m (insert_level-Perm side l ms)) (Perm.swap l m ms))
    | inr e ↦ rw e (Perm.refl (l ∷ m ∷ ms))
  ]

  sort_levels-Perm : (side : Side) (ls : List (PriceLevel Price)) → Perm (sort_levels side ls) ls
  unfolding sort_levels
  sort_levels-Perm side [] = Perm.refl []
  sort_levels-Perm side (l ∷ ls) =
      Perm.trans (insert_level-Perm side l (sort_levels side ls))
        (Perm.cons l (sort_levels-Perm side ls))

  module _ (ordered : IsOrdered Price) where
    pub better_trans :
        (side : Side) (p q r : Price)
        → better side p q ≡ false
        → better side q r ≡ false
        → better side p r ≡ false
    better_trans Side.buy p q r h k = ground (
      arith,
      ordered.le-eq-not-lt q p,
      ordered.le-eq-not-lt r q,
      ordered.le-eq-not-lt r p,
      ordered.le_trans r q p,
    )
    better_trans Side.sell p q r h k = ground (
      arith,
      ordered.le-eq-not-lt p q,
      ordered.le-eq-not-lt q r,
      ordered.le-eq-not-lt p r,
      ordered.le_trans p q r,
    )

    better_asym : (side : Side) (p q : Price) → better side p q ≡ true → better side q p ≡ false
    better_asym Side.buy p q h = ground (arith, ordered.le_of_lt p q, ordered.le-eq-not-lt p q)
    better_asym Side.sell p q h = ground (arith, ordered.le_of_lt q p, ordered.le-eq-not-lt q p)

    pub goes_before-better :
        (side : Side) (a b : PriceLevel Price) → goes_before side a b ≡ better side a.price b.price
    goes_before-better Side.buy a b = refl
    goes_before-better Side.sell a b = refl

    All-insert_level :
        (P : PriceLevel Price → Type 0) (side : Side) (l : PriceLevel Price)
        (ls : List (PriceLevel Price))
        → P l
        → All P ls
        → All P (insert_level side l ls)
    unfolding insert_level
    All-insert_level P side l [] h k = (h, tt)
    All-insert_level P side l (m ∷ ms) h k = elim (Bool-cases (goes_before side m l)) [
      | inl e ↦ rw e (k.0, All-insert_level P side l ms h k.1)
      | inr e ↦ rw e (h, k)
    ]

    pub insert_level-SortedLevels :
        (side : Side) (l : PriceLevel Price) (ls : List (PriceLevel Price))
        → SortedLevels side ls
        → SortedLevels side (insert_level side l ls)
    unfolding insert_level
    insert_level-SortedLevels side l [] s = (tt, tt)
    insert_level-SortedLevels side l (m ∷ ms) s = elim (Bool-cases (goes_before side m l)) [
      | inl e ↦ rw e (
        All-insert_level _ side l ms
            (better_asym side m.price l.price (sym (goes_before-better side m l) ∙ e)) s.0,
        insert_level-SortedLevels side l ms s.1,
      )
      | inr e ↦
          let h : better side m.price l.price ≡ false = sym (goes_before-better side m l) ∙ e in
          rw e ((h, All-mono _ _ ms (λ x k. better_trans side x.price m.price l.price k h) s.0), s)
    ]

    pub sort_levels-SortedLevels :
        (side : Side) (ls : List (PriceLevel Price)) → SortedLevels side (sort_levels side ls)
    unfolding sort_levels
    sort_levels-SortedLevels side [] = tt
    sort_levels-SortedLevels side (l ∷ ls) =
        insert_level-SortedLevels side l (sort_levels side ls) (sort_levels-SortedLevels side ls)

    -- The levels are visited in an order that permutes those given and in which none comes
    -- behind a worse one, and the trades of sound orders come out in that order too: none has a
    -- better price for the incoming order than an earlier one. Prices are not NaN.
    pub match_order-RankedTrades :
        (s : Store Price) (c : ℕ) (o : Order Price) (ls : List (PriceLevel Price))
        → AllSound s
        → IsSound o
        → Perm (sort_levels o.side ls) ls
          × SortedLevels o.side (sort_levels o.side ls)
          × RankedTrades o.side (match_order s c o ls).0.trades
    unfolding match_order match_result
    match_order-RankedTrades s c o ls sa so =
        let sorted = sort_levels-SortedLevels o.side ls in
        (
          sort_levels-Perm o.side ls,
          sorted,
          match_levels-RankedTrades o.side o c (started s c o) (sort_levels o.side ls)
              (started-IsProgress s c o sa so) sorted tt tt,
        )
