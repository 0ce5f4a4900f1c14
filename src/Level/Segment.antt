-- ===== src/Level/Segment.antt =====
-- Doubly linked segments of the order store, and what a write to one pointer does to them.
use financial_order_book.Prelude.{
  ◌≡◌, ◌≢◌, refl, sym, subst, ◌∙◌, List, [], ◌∷◌, ◌++◌, Option, none, some, arith, NotIn, Distinct,
  All, ==_iff,
}
use financial_order_book.Order.{Addr, Order}
use financial_order_book.Level.{Store, write, set_next, set_prev, or_end}

module _ {Price : Type 0} where
  -- From pointer `hd` the orders at `xs` follow one another up to pointer `nx`. The first
  -- points back to `p`, and `tl` is the last of them, or `p` where there is none.
  abbrev pub Seg :
      Store Price → Option Addr → Option Addr → List Addr → Option Addr → Option Addr → Type 0
  Seg s p hd [] tl nx = (hd ≡ nx) × (tl ≡ p)
  Seg s p hd (a ∷ xs) tl nx = (hd ≡ some a) × ((s a).prev ≡ p) × Seg s (some a) (s a).next xs tl nx

  -- What `write` puts at other addresses.
  pub write_other : (s : Store Price) (a b : Addr) (o : Order Price) → a ≢ b → write s a o b ≡ s b
  unfolding write
  write_other s a b o h = ground (arith, ==_iff a b)

  pub write_same : (s : Store Price) (a : Addr) (o : Order Price) → write s a o a ≡ o
  unfolding write
  write_same s a o = ground arith

  -- A segment reads only the links of its own orders.
  pub Seg-agree :
      (s t : Store Price) (p hd : Option Addr) (xs : List Addr) (tl nx : Option Addr)
      → All (λ a. ((s a).next ≡ (t a).next) × ((s a).prev ≡ (t a).prev)) xs
      → Seg s p hd xs tl nx
      → Seg t p hd xs tl nx
  Seg-agree s t p hd [] tl nx h g = g
  Seg-agree s t p hd (a ∷ xs) tl nx ((en, ep), h) (g0, g1, g2) = (
    g0,
    sym ep ∙ g1,
    subst (λ n. Seg t (some a) n xs tl nx) en (Seg-agree s t (some a) (s a).next xs tl nx h g2),
  )

  pub Seg-write :
      (s : Store Price) (b : Addr) (o : Order Price) (p hd : Option Addr) (xs : List Addr)
      (tl nx : Option Addr)
      → NotIn b xs
      → Seg s p hd xs tl nx
      → Seg (write s b o) p hd xs tl nx
  Seg-write s b o p hd [] tl nx h g = g
  Seg-write s b o p hd (a ∷ xs) tl nx (h0, h) (g0, g1, g2) =
      let e : write s b o a ≡ s a = write_other s b a o h0 in
      (g0, rw e g1, rw e (Seg-write s b o (some a) (s a).next xs tl nx h g2))

  pub Seg-append :
      (s : Store Price) (p hd : Option Addr) (xs ys : List Addr) (tl nx : Option Addr)
      → Seg s p hd (xs ++ ys) tl nx
      → (t m : Option Addr) × Seg s p hd xs t m × Seg s t m ys tl nx
  Seg-append s p hd [] ys tl nx g = (p, hd, (refl, refl), g)
  Seg-append s p hd (a ∷ xs) ys tl nx (g0, g1, g2) =
      let (t, m, l, r) = Seg-append s (some a) (s a).next xs ys tl nx g2 in (t, m, (g0, g1, l), r)

  pub Seg-join :
      (s : Store Price) (p hd : Option Addr) (xs ys : List Addr) (t m tl nx : Option Addr)
      → Seg s p hd xs t m
      → Seg s t m ys tl nx
      → Seg s p hd (xs ++ ys) tl nx
  Seg-join s p hd [] ys t m tl nx (e, f) r = rw e (subst (λ x. Seg s x m ys tl nx) f r)
  Seg-join s p hd (a ∷ xs) ys t m tl nx (g0, g1, g2) r =
      (g0, g1, Seg-join s (some a) (s a).next xs ys t m tl nx g2 r)

  -- The last pointer of a segment with an order is one of its orders.
  pub Seg-last :
      (s : Store Price) (p hd : Option Addr) (a : Addr) (xs : List Addr) (tl nx : Option Addr)
      (b : Addr)
      → NotIn b (a ∷ xs)
      → Seg s p hd (a ∷ xs) tl nx
      → (l : Addr) × (tl ≡ some l) × (b ≢ l)
  Seg-last s p hd a [] tl nx b h g = (a, g.2.1, h.0)
  Seg-last s p hd a (c ∷ xs) tl nx b h g = Seg-last s (some a) (s a).next c xs tl nx b h.1 g.2

  Seg-ends :
      (s : Store Price) (p hd : Option Addr) (a : Addr) (xs : List Addr) (tl nx : Option Addr)
      → Seg s p hd (a ∷ xs) tl nx
      → (l : Addr) × (tl ≡ some l)
  Seg-ends s p hd a [] tl nx g = (a, g.2.1)
  Seg-ends s p hd a (c ∷ xs) tl nx g = Seg-ends s (some a) (s a).next c xs tl nx g.2

  pub set_next_other :
      (s : Store Price) (a b : Addr) (v : Option Addr) → b ≢ a → set_next s (some a) v b ≡ s b
  unfolding set_next
  set_next_other s a b v h = write_other s a b _ (λ e. h (sym e))

  pub set_prev_other :
      (s : Store Price) (a b : Addr) (v : Option Addr) → b ≢ a → set_prev s (some a) v b ≡ s b
  unfolding set_prev
  set_prev_other s a b v h = write_other s a b _ (λ e. h (sym e))

  -- Only the next pointer of the last order of a segment says where the segment leads.
  pub Seg-set_next_last :
      (s : Store Price) (p hd : Option Addr) (a : Addr) (xs : List Addr) (tl nx v : Option Addr)
      → Distinct (a ∷ xs)
      → Seg s p hd (a ∷ xs) tl nx
      → Seg (set_next s tl v) p hd (a ∷ xs) tl v
  unfolding set_next write
  Seg-set_next_last s p hd a [] tl nx v d (g0, g1, (g2, g3)) =
      subst (λ t. Seg (set_next s t v) p hd (a ∷ []) t v) (sym g3)
        (g0, ground arith, (ground arith, refl))
  Seg-set_next_last s p hd a (c ∷ xs) tl nx v d (g0, g1, g2) =
      let (l, e, ne) = Seg-last s (some a) (s a).next c xs tl nx a d.0 g2 in
      let ih = Seg-set_next_last s (some a) (s a).next c xs tl nx v d.1 g2 in
      let same : set_next s tl v a ≡ s a = rw e (set_next_other s l a v ne) in
      (g0, rw same g1, rw same ih)

  -- So too with no order, where the head leads there.
  pub Seg-redirect_next :
      (s : Store Price) (hd : Option Addr) (xs : List Addr) (tl nx v : Option Addr)
      → Distinct xs
      → Seg s none hd xs tl nx
      → Seg (set_next s tl v) none (or_end tl hd v) xs tl v
  unfolding set_next
  Seg-redirect_next s hd [] tl nx v d (e, f) = rw f (refl, refl)
  Seg-redirect_next s hd (a ∷ xs) tl nx v d g =
      let (l, e) = Seg-ends s none hd a xs tl nx g in
      let r = Seg-set_next_last s none hd a xs tl nx v d g in (rw e r.0, r.1, r.2)

  -- The previous pointer of the first order says where a segment starts from.
  pub Seg-redirect_prev :
      (s : Store Price) (p hd : Option Addr) (xs : List Addr) (tl v : Option Addr)
      → Distinct xs
      → Seg s p hd xs tl none
      → Seg (set_prev s hd v) v hd xs (or_end hd tl v) none
  unfolding set_prev write
  Seg-redirect_prev s p hd [] tl v d (e, f) = rw e (refl, refl)
  Seg-redirect_prev s p hd (a ∷ xs) tl v d (g0, g1, g2) =
      subst (λ h. Seg (set_prev s h v) v h (a ∷ xs) (or_end h tl v) none) (sym g0)
        (
          refl,
          ground arith,
          let e : (write s a (record (s a) { prev = v }) a).next ≡ (s a).next = ground arith in
              rw e (Seg-write s a _ (some a) (s a).next xs tl none d.0 g2),
        )

  -- A write to an order outside of a segment leaves it as it is.
  pub Seg-set_next_out :
      (s : Store Price) (b : Addr) (v p hd : Option Addr) (xs : List Addr) (tl nx : Option Addr)
      → NotIn b xs
      → Seg s p hd xs tl nx
      → Seg (set_next s (some b) v) p hd xs tl nx
  unfolding set_next
  Seg-set_next_out s b v p hd xs tl nx = Seg-write s b _ p hd xs tl nx

  pub Seg-set_prev_out :
      (s : Store Price) (b : Addr) (v p hd : Option Addr) (xs : List Addr) (tl nx : Option Addr)
      → NotIn b xs
      → Seg s p hd xs tl nx
      → Seg (set_prev s (some b) v) p hd xs tl nx
  unfolding set_prev
  Seg-set_prev_out s b v p hd xs tl nx = Seg-write s b _ p hd xs tl nx

  -- A write through the tail of a queue does not reach an order outside of it.
  pub tail_other :
      (s : Store Price) (a : Addr) (v hd : Option Addr) (xs : List Addr) (tl nx : Option Addr)
      → NotIn a xs
      → Seg s none hd xs tl nx
      → set_next s tl v a ≡ s a
  tail_other s a v hd [] tl nx n (e, f) = rw f (none_writes s v a)
    where
      none_writes : (s : Store Price) (v : Option Addr) (a : Addr) → set_next s none v a ≡ s a
      none_writes s v a = unfold set_next in refl
  tail_other s a v hd (x ∷ xs) tl nx n g =
      let (l, e, ne) = Seg-last s none hd x xs tl nx a n g in rw e (set_next_other s l a v ne)
