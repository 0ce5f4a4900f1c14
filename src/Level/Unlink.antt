-- ===== src/Level/Unlink.antt =====
-- Taking an order out of the middle of a queue joins what stands before it to what stands behind.
use financial_order_book.Prelude.{
  ◌≡◌, ◌≢◌, refl, sym, subst, ◌⊎◌, inl, inr, List, [], ◌∷◌, ◌++◌, Option, none, some, NotIn,
  Distinct, All, Distinct-left, Distinct-right, All-right, arith,
}
use financial_order_book.Order.{Addr}
use financial_order_book.Level.{Store, write, set_next, set_prev, or_end, join_next, unlink}
use financial_order_book.Level.Segment.{
  Seg, Seg-append, Seg-join, Seg-redirect_next, Seg-redirect_prev, Seg-set_next_out,
  Seg-set_prev_out, tail_other,
}

-- No element of the one list is in the other.
abbrev Disjoint : List Addr → List Addr → Type 0
Disjoint xs ys = All (λ x. NotIn x ys) xs

Disjoint-left : (xs ys : List Addr) → Distinct (xs ++ ys) → Disjoint xs ys
Disjoint-left [] ys d = tt
Disjoint-left (x ∷ xs) ys d = (All-right (λ b. x ≢ b) xs ys d.0, Disjoint-left xs ys d.1)

NotIn-right : (y : Addr) (xs ys : List Addr) → Disjoint xs (y ∷ ys) → NotIn y xs
NotIn-right y [] ys d = tt
NotIn-right y (x ∷ xs) ys (d0, d) = ((λ e. d0.0 (sym e)), NotIn-right y xs ys d)

Disjoint-tail : (xs ys : List Addr) (y : Addr) → Disjoint xs (y ∷ ys) → Disjoint xs ys
Disjoint-tail [] ys y d = tt
Disjoint-tail (x ∷ xs) ys y (d0, d) = (d0.1, Disjoint-tail xs ys y d)

pub Distinct-skip : (xs ys : List Addr) (a : Addr) → Distinct (xs ++ a ∷ ys) → Distinct (xs ++ ys)
Distinct-skip [] ys a d = d.1
Distinct-skip (x ∷ xs) ys a (d0, d) = (skip xs d0, Distinct-skip xs ys a d)
  where
    skip : (zs : List Addr) → NotIn x (zs ++ a ∷ ys) → NotIn x (zs ++ ys)
    skip [] n = n.1
    skip (z ∷ zs) n = (n.0, skip zs n.1)

pub NotIn-middle : (xs ys : List Addr) (a : Addr) → Distinct (xs ++ a ∷ ys) → NotIn a (xs ++ ys)
NotIn-middle [] ys a d = d.0
NotIn-middle (x ∷ xs) ys a (d0, d) = (from xs d0, NotIn-middle xs ys a d)
  where
    from : (zs : List Addr) → NotIn x (zs ++ a ∷ ys) → a ≢ x
    from [] n = λ e. n.0 (sym e)
    from (z ∷ zs) n = from zs n.1

pub NotIn-middle_ne : (b : Addr) (xs ys : List Addr) (a : Addr) → NotIn b (xs ++ a ∷ ys) → a ≢ b
NotIn-middle_ne b [] ys a n = λ e. n.0 (sym e)
NotIn-middle_ne b (x ∷ xs) ys a n = NotIn-middle_ne b xs ys a n.1

module _ {Price : Type 0} where
  set_next-none : (s : Store Price) (v : Option Addr) → set_next s none v ≡ s
  unfolding set_next
  set_next-none s v = refl

  set_prev-none : (s : Store Price) (v : Option Addr) → set_prev s none v ≡ s
  unfolding set_prev
  set_prev-none s v = refl

  -- The last order of the one segment is not in the other, nor the first of the other in the one.
  set_next_across :
      (s : Store Price) (v hd t m : Option Addr) (xs : List Addr) (p w tl nx : Option Addr)
      (ys : List Addr)
      → Disjoint xs ys
      → (pp : Option Addr) → (pp ≡ none) ⊎ ((l : Addr) × (pp ≡ some l) × NotIn l ys)
      → Seg s pp hd xs t m
      → Seg s p w ys tl nx
      → Seg (set_next s t v) p w ys tl nx
  set_next_across s v hd t m [] p w tl nx ys d pp (inl e) (g0, g1) r = rw (g1, e, set_next-none) r
  set_next_across s v hd t m [] p w tl nx ys d pp (inr (l, e, n)) (g0, g1) r =
      rw (g1, e) (Seg-set_next_out s l v p w ys tl nx n r)
  set_next_across s v hd t m (x ∷ xs) p w tl nx ys (d0, d) pp h (g0, g1, g2) r =
      set_next_across s v (s x).next t m xs p w tl nx ys d (some x) (inr (x, refl, d0)) g2 r

  set_prev_across :
      (s : Store Price) (v : Option Addr) (p hd : Option Addr) (xs : List Addr) (t m : Option Addr)
      (q w : Option Addr) (ys : List Addr) (tl : Option Addr)
      → Disjoint xs ys
      → Seg s q w ys tl none
      → Seg s p hd xs t m
      → Seg (set_prev s w v) p hd xs t m
  set_prev_across s v p hd xs t m q w [] tl d (e, f) g = rw (e, set_prev-none) g
  set_prev_across s v p hd xs t m q w (y ∷ ys) tl d (e, _, _) g =
      rw e (Seg-set_prev_out s y v p hd xs t m (NotIn-right y xs ys d) g)

  unlink_segments :
      (s : Store Price) (hd t v tl : Option Addr) (xs ys : List Addr) (a : Addr)
      → Distinct (xs ++ a ∷ ys)
      → Seg s none hd xs t (some a)
      → Seg s (some a) v ys tl none
      → let s2 = set_prev (set_next s t v) v t in
        Seg
          (set_prev (set_next s2 (some a) none) (some a) none)
          none
          (or_end t hd v)
          (xs ++ ys)
          (or_end v tl t)
          none
  unlink_segments s hd t v tl xs ys a d front back =
      let apart = Disjoint-tail xs ys a (Disjoint-left xs (a ∷ ys) d) in
      let dx = Distinct-left xs (a ∷ ys) d in
      let dy = (Distinct-right xs (a ∷ ys) d).1 in
      let s1 = set_next s t v in
      let front1 = Seg-redirect_next s hd xs t (some a) v dx front in
      let back1 =
        set_next_across s v hd t (some a) xs (some a) v tl none ys apart none (inl refl) front
          back in
      let front2 =
        set_prev_across s1 t none (or_end t hd v) xs t v (some a) v ys tl apart back1 front1 in
      let back2 = Seg-redirect_prev s1 (some a) v ys tl t dy back1 in
      let s2 = set_prev s1 v t in
      let hd' = or_end t hd v in
      let tl' = or_end v tl t in
      let whole = Seg-join s2 none hd' xs ys t v tl' none front2 back2 in
      let out = NotIn-middle xs ys a d in
      Seg-set_prev_out (set_next s2 (some a) none) a none none hd' (xs ++ ys) tl' none out
        (Seg-set_next_out s2 a none none hd' (xs ++ ys) tl' none out whole)

  -- `join_next` does not touch the order that leaves.
  pub join_next_own :
      (s : Store Price) (hd tl : Option Addr) (xs ys : List Addr) (a : Addr)
      → Distinct (xs ++ a ∷ ys)
      → Seg s none hd (xs ++ a ∷ ys) tl none
      → join_next s a a ≡ s a
  join_next_own s hd tl xs ys a d g =
      let (t, m, front, back) = Seg-append s none hd xs (a ∷ ys) tl none g in
      subst (λ p. set_next s p (s a).next a ≡ s a) (sym back.1)
        (tail_other s a (s a).next hd xs t m (NotIn-right a xs ys (Disjoint-left xs (a ∷ ys) d))
          front)

  pub unlink-links :
      (s : Store Price) (hd tl : Option Addr) (xs ys : List Addr) (a : Addr)
      → Distinct (xs ++ a ∷ ys)
      → Seg s none hd (xs ++ a ∷ ys) tl none
      → Seg
          (unlink s a)
          none
          (or_end (s a).prev hd (s a).next)
          (xs ++ ys)
          (or_end (s a).next tl (s a).prev)
          none
  unfolding unlink
  unlink-links s hd tl xs ys a d g =
      let (t, m, front, back) = Seg-append s none hd xs (a ∷ ys) tl none g in
      rw (join_next_own s hd tl xs ys a d g, back.1)
        (unlink_segments s hd t (s a).next tl xs ys a d (rw back.0 at front) back.2)

  pub unlink_next : (s : Store Price) (a : Addr) → (unlink s a a).next ≡ none
  unfolding unlink set_next set_prev write
  unlink_next s a = ground arith

  pub unlink_prev : (s : Store Price) (a : Addr) → (unlink s a a).prev ≡ none
  unfolding unlink set_next set_prev write
  unlink_prev s a = ground arith
