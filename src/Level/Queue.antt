-- ===== src/Level/Queue.antt =====
-- The intrusive queue of a price level: what `addOrder`, `removeOrder` and `updateQuantity` of
-- include/orderbook/Core/Order.hpp do to the orders of a level, in the order of their arrival.
use financial_order_book.Prelude.{
  ℕ, ◌+◌, ◌%◌, ◌≡◌, refl, sym, ◌∙◌, List, [], ◌∷◌, ◌++◌, Option, none, some, arith, length,
  length-append, NotIn, Distinct,
}
use financial_order_book.Types.{u64}
use financial_order_book.Order.{Addr, remaining_quantity}
use financial_order_book.Level.{
  Store, PriceLevel, write, set_next, set_prev, or_end, join_next, unlink, add_order, remove_order,
}
use financial_order_book.Level.Unlink.{
  Distinct-skip, join_next_own, unlink-links, unlink_next, unlink_prev,
}
use financial_order_book.Level.Segment.{
  Seg, Seg-join, Seg-redirect_next, Seg-set_next_out, Seg-set_prev_out, tail_other,
}

Distinct-snoc : (a : Addr) (xs : List Addr) → NotIn a xs → Distinct xs → Distinct (xs ++ a ∷ [])
Distinct-snoc a [] h d = (tt, tt)
Distinct-snoc a (b ∷ xs) (h0, h) (d0, d) = (NotIn-snoc xs d0, Distinct-snoc a xs h d)
  where
    NotIn-snoc : (ys : List Addr) → NotIn b ys → NotIn b (ys ++ a ∷ [])
    NotIn-snoc [] n = ((λ e. h0 (sym e)), tt)
    NotIn-snoc (y ∷ ys) (n0, n) = (n0, NotIn-snoc ys n)

module _ {Price : Type 0} where
  -- What remains of the orders of a queue, together.
  abbrev pub sum_remaining : Store Price → List Addr → ℕ
  sum_remaining s [] = 0
  sum_remaining s (a ∷ xs) = remaining_quantity (s a) + sum_remaining s xs

  -- The level holds the orders at `xs`, oldest first: its links run through them both ways, and
  -- its counters are their number and what remains of them, as 64-bit words.
  pub record IsQueue (s : Store Price) (l : PriceLevel Price) (xs : List Addr) : Type 0 where
    pub links : Seg s none l.head xs l.tail none
    pub distinct : Distinct xs
    pub total : l.total_quantity ≡ sum_remaining s xs % u64
    pub count : l.order_count ≡ length xs % u64

  remaining-set_next :
      (s : Store Price) (p v : Option Addr) (b : Addr)
      → remaining_quantity (set_next s p v b) ≡ remaining_quantity (s b)
  unfolding set_next write
  remaining-set_next s none v b = refl
  remaining-set_next s (some a) v b = ground arith

  remaining-set_prev :
      (s : Store Price) (p v : Option Addr) (b : Addr)
      → remaining_quantity (set_prev s p v b) ≡ remaining_quantity (s b)
  unfolding set_prev write
  remaining-set_prev s none v b = refl
  remaining-set_prev s (some a) v b = ground arith

  -- Links do not count.
  abbrev SameRemaining : Store Price → Store Price → Type 0
  SameRemaining s t = (b : Addr) → remaining_quantity (t b) ≡ remaining_quantity (s b)

  sum_remaining_same :
      (s t : Store Price) (xs : List Addr)
      → SameRemaining s t
      → sum_remaining t xs ≡ sum_remaining s xs
  sum_remaining_same s t [] h = refl
  sum_remaining_same s t (a ∷ xs) h = omega (arith, h a, sum_remaining_same s t xs h)

  sum_remaining-append :
      (s : Store Price) (xs ys : List Addr)
      → sum_remaining s (xs ++ ys) ≡ sum_remaining s xs + sum_remaining s ys
  sum_remaining-append s [] ys = omega arith
  sum_remaining-append s (a ∷ xs) ys = omega (arith, sum_remaining-append s xs ys)

  add_order-SameRemaining :
      (s : Store Price) (l : PriceLevel Price) (a : Addr) → SameRemaining s (add_order s l a).0
  unfolding add_order
  add_order-SameRemaining s l a b =
      remaining-set_next _ l.tail (some a) b
      ∙ remaining-set_prev _ (some a) l.tail b
      ∙ remaining-set_next s (some a) none b

  own_prev :
      (s : Store Price) (a : Addr) (p : Option Addr)
      → (set_prev (set_next s (some a) none) (some a) p a).prev ≡ p
  unfolding set_prev set_next write
  own_prev s a p = ground arith

  own_next :
      (s : Store Price) (a : Addr) (p : Option Addr)
      → (set_prev (set_next s (some a) none) (some a) p a).next ≡ none
  unfolding set_prev set_next write
  own_next s a p = ground arith

  add_order-links :
      (s : Store Price) (l : PriceLevel Price) (xs : List Addr) (a : Addr)
      → IsQueue s l xs
      → NotIn a xs
      → Seg
          (add_order s l a).0
          none
          (add_order s l a).1.head
          (xs ++ a ∷ [])
          (add_order s l a).1.tail
          none
  unfolding add_order
  add_order-links s l xs a q n =
      let s1 = set_prev (set_next s (some a) none) (some a) l.tail in
      let kept =
        Seg-set_prev_out _ a l.tail none l.head xs l.tail none n
          (Seg-set_next_out s a none none l.head xs l.tail none n q.links) in
      let front = Seg-redirect_next s1 l.head xs l.tail none (some a) q.distinct kept in
      let same = tail_other s1 a (some a) l.head xs l.tail none n kept in
      Seg-join (set_next s1 l.tail (some a)) none (or_end l.tail l.head (some a)) xs (a ∷ []) l.tail
        (some a) (some a) none front
        (refl, rw same (own_prev s a l.tail), (rw same (own_next s a l.tail), refl))

  -- `addOrder` puts an order that the level does not hold behind those that it holds.
  pub add_order-IsQueue :
      (s : Store Price) (l : PriceLevel Price) (xs : List Addr) (a : Addr)
      → IsQueue s l xs
      → NotIn a xs
      → IsQueue (add_order s l a).0 (add_order s l a).1 (xs ++ a ∷ [])
  unfolding add_order
  add_order-IsQueue s l xs a q n = record {
    links = add_order-links s l xs a q n;
    distinct = Distinct-snoc a xs n q.distinct;
    total = omega (
      arith,
      sum_remaining_same s (add_order s l a).0 (xs ++ a ∷ []) (add_order-SameRemaining s l a),
      add_order-SameRemaining s l a a,
      sum_remaining-append s xs (a ∷ []),
      q.total,
    );
    count = omega (arith, length-append xs (a ∷ []), q.count);
  }

  remove_order-SameRemaining :
      (s : Store Price) (l : PriceLevel Price) (a : Addr) → SameRemaining s (remove_order s l a).0
  unfolding remove_order unlink
  remove_order-SameRemaining s l a b =
      remaining-set_prev _ (some a) none b
      ∙ remaining-set_next _ (some a) none b
      ∙ remaining-set_prev _ (join_next s a a).next (join_next s a a).prev b
      ∙ remaining-set_next s (s a).prev (s a).next b

  remove_order-links :
      (s : Store Price) (l : PriceLevel Price) (xs ys : List Addr) (a : Addr)
      → IsQueue s l (xs ++ a ∷ ys)
      → let r = remove_order s l a in Seg r.0 none r.1.head (xs ++ ys) r.1.tail none
  unfolding remove_order
  remove_order-links s l xs ys a q =
      rw (join_next_own s l.head l.tail xs ys a q.distinct q.links)
        (unlink-links s l.head l.tail xs ys a q.distinct q.links)

  -- `removeOrder` takes an order out of the level, wherever it stands there, keeps the others in
  -- their order, and clears the links of the order that leaves.
  pub remove_order-IsQueue :
      (s : Store Price) (l : PriceLevel Price) (xs ys : List Addr) (a : Addr)
      → IsQueue s l (xs ++ a ∷ ys)
      → let r = remove_order s l a in
        IsQueue r.0 r.1 (xs ++ ys) × ((r.0 a).next ≡ none) × ((r.0 a).prev ≡ none)
  unfolding remove_order
  remove_order-IsQueue s l xs ys a q = (
    record {
      links = remove_order-links s l xs ys a q;
      distinct = Distinct-skip xs ys a q.distinct;
      total = omega (
        arith,
        sum_remaining_same s (remove_order s l a).0 (xs ++ ys) (remove_order-SameRemaining s l a),
        sum_remaining-append s xs ys,
        sum_remaining-append s xs (a ∷ ys),
        q.total,
      );
      count = omega (arith, length-append xs ys, length-append xs (a ∷ ys), q.count);
    },
    unlink_next s a,
    unlink_prev s a,
  )
