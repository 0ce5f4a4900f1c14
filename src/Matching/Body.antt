-- ===== src/Matching/Body.antt =====
-- One round of the loop of `matchAgainstPriceLevel`, and why there is no second one.
use financial_order_book.Prelude.{
  ℕ, ◌<◌, ◌≡◌, refl, sym, ◌∙◌, ap, ◌⊎◌, inl, inr, true, false, Option, none, some, min, arith,
  Bool-cases, ==_iff,
}
use financial_order_book.Prelude.Double.{Double}
use financial_order_book.Order.{Addr, Order, is_fully_filled, remaining_quantity, fill}
use financial_order_book.Order.Fill.{IsSound, fill_part, fill_all}
use financial_order_book.Level.{
  Store, PriceLevel, write, set_next, set_prev, unlink, remove_order, update_quantity,
}
use financial_order_book.Level.Segment.{write_same}
use financial_order_book.Level.Unlink.{unlink_next}
use financial_order_book.Matching.{
  MatchState, validate_trade, trade_with, match_body, running, stop,
}

module _ {Price : Type 0} where
  -- Two orders that differ in their links alone.
  pub record SameButLinks (o o' : Order Price) : Type 0 where
    pub same_quantity : o'.quantity ≡ o.quantity
    pub same_filled : o'.filled_quantity ≡ o.filled_quantity

  set_next-SameButLinks :
      (s : Store Price) (p v : Option Addr) (b : Addr) → SameButLinks (s b) (set_next s p v b)
  unfolding set_next write
  set_next-SameButLinks s none v b = record { same_quantity = refl; same_filled = refl }
  set_next-SameButLinks s (some a) v b = ground (arith, ==_iff a b)

  set_prev-SameButLinks :
      (s : Store Price) (p v : Option Addr) (b : Addr) → SameButLinks (s b) (set_prev s p v b)
  unfolding set_prev write
  set_prev-SameButLinks s none v b = record { same_quantity = refl; same_filled = refl }
  set_prev-SameButLinks s (some a) v b = ground (arith, ==_iff a b)

  trans-SameButLinks :
      {o p q : Order Price} → SameButLinks o p → SameButLinks p q → SameButLinks o q
  trans-SameButLinks f g = ground arith

  unlink-SameButLinks : (s : Store Price) (a b : Addr) → SameButLinks (s b) (unlink s a b)
  unfolding unlink
  unlink-SameButLinks s a b = trans-SameButLinks (set_next-SameButLinks s _ _ b) (
      trans-SameButLinks (set_prev-SameButLinks _ _ _ b) (
        trans-SameButLinks (set_next-SameButLinks _ (some a) none b)
          (set_prev-SameButLinks _ (some a) none b)))

  pub update_quantity-SameButLinks :
      (s : Store Price) (l : PriceLevel Price) (a : Addr) (q : ℕ) (b : Addr)
      → SameButLinks (s b) ((update_quantity s l a q).0 b)
  unfolding update_quantity remove_order
  update_quantity-SameButLinks s l a q b = ground (arith, unlink-SameButLinks s a b)

  pub fully_filled_same :
      {o o' : Order Price} → SameButLinks o o' → is_fully_filled o' ≡ is_fully_filled o
  fully_filled_same f = rw (f.same_quantity, f.same_filled)

  pub IsSound-same : {o o' : Order Price} → SameButLinks o o' → IsSound o → IsSound o'
  IsSound-same f s = ground arith

  -- An order that `updateQuantity` finds filled has no successor afterwards.
  pub update_quantity_next :
      (s : Store Price) (l : PriceLevel Price) (a : Addr) (q : ℕ)
      → is_fully_filled ((update_quantity s l a q).0 a) ≡ true
      → ((update_quantity s l a q).0 a).next ≡ none
  unfolding update_quantity remove_order
  update_quantity_next s l a q h = elim (Bool-cases (is_fully_filled (s a))) [
    | inl full ↦ rw full (unlink_next s a)
    | inr part ↦ cc (part, h, fully_filled_same (update_quantity-SameButLinks s l a q a))
  ]

  -- Every order of the store is sound.
  abbrev pub AllSound : Store Price → Type 0
  AllSound s = (a : Addr) → IsSound (s a)

  module _ ⦃d : Double Price⦄ where
    abbrev pub least : MatchState Price → Addr → ℕ
    least m a = min (remaining_quantity m.incoming) (remaining_quantity (m.store a))

    pub match_body_cases :
        (m : MatchState Price) (a : Addr)
        → (match_body m a ≡ stop m)
          ⊎ ((0 < least m a)
              × (validate_trade m.incoming (m.store a) (least m a) ≡ true)
              × (match_body m a ≡ trade_with m a (least m a)))
    unfolding match_body
    match_body_cases m a = ground arith

    -- The resting order of a trade, as the trade leaves it.
    traded_same :
        (m : MatchState Price) (a : Addr) (q : ℕ)
        → is_fully_filled ((trade_with m a q).store a) ≡ is_fully_filled (fill (m.store a) q)
    unfolding trade_with
    traded_same m a q =
        let s' : Store Price = write m.store a (fill (m.store a) q) in
        fully_filled_same (update_quantity-SameButLinks s' m.level a q a)
        ∙ ap is_fully_filled (write_same m.store a (fill (m.store a) q))

    part_filled :
        (m : MatchState Price) (a : Addr)
        → IsSound m.incoming
        → IsSound (m.store a)
        → is_fully_filled (fill (m.store a) (least m a)) ≡ false
        → is_fully_filled (fill m.incoming (least m a)) ≡ true
    part_filled m a si sa h =
        let q = least m a in
        let left : q < remaining_quantity (m.store a) =
          fill_part (m.store a) q sa (omega arith) h in
        fill_all m.incoming q si (omega (arith, left))

    -- After a trade of the least remaining quantity the loop does not go on: either the resting
    -- order was filled, and it has lost its link, or the incoming order is filled.
    pub trade_with_halts :
        (m : MatchState Price) (a : Addr)
        → IsSound m.incoming
        → IsSound (m.store a)
        → running (trade_with m a (least m a)) ≡ false
    unfolding running trade_with
    trade_with_halts m a si sa =
        let q = least m a in
        let s' : Store Price = write m.store a (fill (m.store a) q) in
        let r : Store Price = (update_quantity s' m.level a q).0 in
        elim (Bool-cases (is_fully_filled (r a))) [
          | inl full ↦ rw (full, update_quantity_next s' m.level a q full)
          | inr part ↦ rw (part, part_filled m a si sa (sym (traded_same m a q) ∙ part))
        ]
