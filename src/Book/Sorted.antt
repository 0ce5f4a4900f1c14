-- ===== src/Book/Sorted.antt =====
-- The order of the levels of each side: what the calls of src/Core/OrderBook.cpp keep, and what
-- `executeMatching` leaves.
use financial_order_book.Prelude.{
  ℕ, ◌≡◌, refl, sym, ap, subst, Bool-cases, length, ◌⊎◌, inl, inr, Bool, true, List, Option, none,
  some,
}
use financial_order_book.Prelude.Double.{Double, IsOrdered}
use financial_order_book.Prelude.Map.{Key, erase}
use financial_order_book.Types.{Side, Result, success, result_of, side_eq}
use financial_order_book.Order.{Addr}
use financial_order_book.Level.{PriceLevel, empty_level}
use financial_order_book.Matching.{insert_level, sort_levels}
use financial_order_book.Matching.Priority.{
  SortedLevels, sort_levels-SortedLevels, insert_level-SortedLevels,
}
use financial_order_book.Book.{
  OrderBook, Slot, UpdateType, dangling_level, BookError, Increment, nth, levels_of, set_levels,
  level_at, put_level, back, publish_book_update, publish_market_data_update,
}
use financial_order_book.Book.Index.{
  create_price_level, maintain_sorted_order, rebuild_price_index, erase_level,
}
use financial_order_book.Book.Trading.{
  execute_trade, opposite, can_match_best, process_matching, execute_matching,
}
use financial_order_book.Book.Calls.{cancel_order, modify_order}
use financial_order_book.Book.Sorting.{
  sorted_if_needed-sort_levels, set_nth-SortedLevels, erase_nth-SortedLevels,
}
use financial_order_book.Book.Kept.{IsKept, IsKeptByCalls, Holds-success, if-kept, match_slots-kept}
use financial_order_book.Book.Kept.Calls.{cancel_order-kept, modify_order-kept}

module _ {Price : Type 0} ⦃d : Double Price⦄ where
  -- The levels of a side stand in the order for an order on side `c`.
  abbrev SideSorted : Side → Side → OrderBook Price → Type 0
  SideSorted side c b = SortedLevels c (levels_of b side)

  -- Bids ascend and asks descend, as far as no price is less than the one ahead, or above it.
  abbrev pub SortedBook : OrderBook Price → Type 0
  SortedBook b = SortedLevels Side.buy b.bids × SortedLevels Side.sell b.asks

  pub level_at-nth :
      (b : OrderBook Price) (s : Slot) (l : PriceLevel Price)
      → level_at b s ≡ success l
      → nth (levels_of b s.side) s.index ≡ some l
  unfolding level_at
  level_at-nth b s l h = some_of (nth (levels_of b s.side) s.index) h
    where
      some_of :
          (o : Option (PriceLevel Price)) → result_of dangling_level o ≡ success l → o ≡ some l
      some_of none e = cc e
      some_of (some m) e = ap some (cc e)

  abbrev SameLevels : OrderBook Price → OrderBook Price → Type 0
  SameLevels b b' = (b'.bids ≡ b.bids) × (b'.asks ≡ b.asks)

  published-SameLevels :
      (b : OrderBook Price) (type : UpdateType) (u : Side) (p : Price) (q n : ℕ)
      → SameLevels b (publish_book_update b type u p q n)
  unfolding publish_book_update
  published-SameLevels b type u p q n = elim (Bool-cases b.has_market_data) [
    | inl e ↦ rw e (refl, refl)
    | inr e ↦ rw e (refl, refl)
  ]

  updated-SameLevels : (b : OrderBook Price) → SameLevels b (publish_market_data_update b)
  unfolding publish_market_data_update
  updated-SameLevels b = elim (Bool-cases b.has_market_data) [
    | inl e ↦ rw e (refl, refl)
    | inr e ↦ rw e (refl, refl)
  ]

  module _ (side c : Side) where
    -- New levels `ls` of one side, in order where that side is `side`.
    set_levels-SideSorted :
        (b : OrderBook Price) (t : Side) (ls : List (PriceLevel Price))
        → (side ≡ t → SortedLevels c ls)
        → SideSorted side c b
        → SideSorted side c (set_levels b t ls)
    set_levels-SideSorted b t ls n h = go side t n h
      where
        go :
            (u t : Side)
            → (u ≡ t → SortedLevels c ls)
            → SideSorted u c b
            → SideSorted u c (set_levels b t ls)
        go Side.buy Side.buy n h = n refl
        go Side.buy Side.sell n h = h
        go Side.sell Side.buy n h = h
        go Side.sell Side.sell n h = n refl

    same-SideSorted :
        (b b' : OrderBook Price)
        → b'.bids ≡ b.bids
        → b'.asks ≡ b.asks
        → SideSorted side c b
        → SideSorted side c b'
    same-SideSorted b b' e f h = go side h
      where
        go : (u : Side) → SideSorted u c b → SideSorted u c b'
        go Side.buy h = subst (SortedLevels c) (sym e) h
        go Side.sell h = subst (SortedLevels c) (sym f) h

    of_side : (b : OrderBook Price) (t : Side) → side ≡ t → SideSorted side c b → SideSorted t c b
    of_side b t e h = subst (λ u. SideSorted u c b) e h

    published-SideSorted :
        (b : OrderBook Price) (type : UpdateType) (u : Side) (p : Price) (q n : ℕ)
        → SideSorted side c b
        → SideSorted side c (publish_book_update b type u p q n)
    published-SideSorted b type u p q n h =
        let (e, f) = published-SameLevels b type u p q n in
        same-SideSorted b (publish_book_update b type u p q n) e f h

    put-SideSorted :
        (b : OrderBook Price) (s : Slot) (l l' : PriceLevel Price)
        → level_at b s ≡ success l
        → l'.price ≡ l.price
        → SideSorted side c b
        → SideSorted side c (put_level b s l')
    unfolding put_level
    put-SideSorted b s l l' at e h =
        set_levels-SideSorted b s.side _
          (λ f.
            set_nth-SortedLevels c _ s.index l l' (level_at-nth b s l at) e (of_side b s.side f h))
          h

    erased-SideSorted :
        ⦃k : Key Price⦄ (b : OrderBook Price) (s : Slot) (t : Side) (p : Price)
        → SideSorted side c b
        → SideSorted side c (erase_level b s t p)
    unfolding erase_level
    erased-SideSorted b s t p h =
        let b1 : OrderBook Price = record b { price_index = erase p b.price_index } in
        let h1 = same-SideSorted b b1 refl refl h in
        if-kept (SideSorted side c) (side_eq s.side t)
          (set_levels-SideSorted b1 t _ (λ f. erase_nth-SortedLevels c _ s.index (of_side b t f h))
            h1)
          h1

    SideSorted-IsKept : IsKept (SideSorted side c)
    unfolding execute_trade
    SideSorted-IsKept = record {
      same = λ b b' e f g i h. same-SideSorted b b' e f h;
      published = published-SideSorted;
      put = put-SideSorted;
      erased = erased-SideSorted;
      traded = λ b inc a p q h. same-SideSorted b (execute_trade b inc a p q) refl refl h;
    }

    updated-SideSorted :
        (b : OrderBook Price)
        → SideSorted side c b
        → SideSorted side c (publish_market_data_update b)
    updated-SideSorted b h =
        let (e, f) = updated-SameLevels b in same-SideSorted b (publish_market_data_update b) e f h

  module _ ⦃k : Key Price⦄ (ordered : IsOrdered Price) where
    -- Every run of `processMatching` that trades leaves the other side in the order in which it
    -- was matched, from the best price for the incoming order on: that order is the reverse of
    -- the one that the queries, which read the best price at the back, rely on.
    pub process_matching_reverses :
        (b b' : OrderBook Price) (inc : Addr)
        → can_match_best (b.store inc) (back (levels_of b (opposite (b.store inc).side))) ≡ true
        → process_matching b inc ≡ success b'
        → SortedLevels (b.store inc).side (levels_of b' (opposite (b.store inc).side))
    unfolding process_matching execute_matching
    process_matching_reverses b b' inc may e =
        let side = opposite (b.store inc).side in
        let c = (b.store inc).side in
        let ls = sort_levels c (levels_of b side) in
        Holds-success (SideSorted side c) _ b' (rw may at e) (
          match_slots-kept (SideSorted side c) (SideSorted-IsKept side c) (length ls)
            (set_levels b side ls) inc side 0
            (sorted side ls (sort_levels-SortedLevels ordered c (levels_of b side))))
      where
        sorted :
            (t : Side) (ls : List (PriceLevel Price))
            → SortedLevels (b.store inc).side ls
            → SortedLevels (b.store inc).side (levels_of (set_levels b t ls) t)
        sorted Side.buy ls h = h
        sorted Side.sell ls h = h

    created-SideSorted :
        (side : Side) (b : OrderBook Price) (p : Price) (t : Side)
        → SideSorted side side b
        → SideSorted side side (create_price_level b p t).0
    unfolding create_price_level
    created-SideSorted side b p t h =
        let ls = insert_level t (empty_level p) (levels_of b t) in
        same-SideSorted side side (set_levels b t ls) (create_price_level b p t).0 refl refl (
          set_levels-SideSorted side side b t ls
            (λ f.
              subst (λ u. SortedLevels side (insert_level u (empty_level p) (levels_of b u))) f
                (insert_level-SortedLevels ordered side (empty_level p) (levels_of b side) h))
            h)

    maintained-SideSorted :
        (side : Side) (b : OrderBook Price) → SideSorted side side (maintain_sorted_order b)
    unfolding maintain_sorted_order rebuild_price_index
    maintained-SideSorted Side.buy b =
        subst (SortedLevels Side.buy) (sym (sorted_if_needed-sort_levels Side.buy b.bids))
          (sort_levels-SortedLevels ordered Side.buy b.bids)
    maintained-SideSorted Side.sell b =
        subst (SortedLevels Side.sell) (sym (sorted_if_needed-sort_levels Side.sell b.asks))
          (sort_levels-SortedLevels ordered Side.sell b.asks)

    SideSorted-IsKeptByCalls : (side : Side) → IsKeptByCalls (SideSorted side side)
    SideSorted-IsKeptByCalls side = record {
      created = created-SideSorted side;
      maintained = λ b h. maintained-SideSorted side b;
      updated = updated-SideSorted side side;
    }

    -- Cancelling and modifying an order leave both sides in order.
    pub calls-SortedBook :
        ⦃i : Increment Price⦄ (b b' : OrderBook Price) (id : ℕ) (p : Price) (q : ℕ)
        (r : Result (BookError Price) Bool)
        → SortedBook b
        → (cancel_order b id ≡ success (r, b')) ⊎ (modify_order b id p q ≡ success (r, b'))
        → SortedBook b'
    calls-SortedBook b b' id p q r (hb, ha) e = (kept Side.buy hb e, kept Side.sell ha e)
      where
        kept :
            (side : Side)
            → SideSorted side side b
            → (cancel_order b id ≡ success (r, b')) ⊎ (modify_order b id p q ≡ success (r, b'))
            → SideSorted side side b'
        kept side h (inl e) =
            Holds-success (λ x. SideSorted side side x.1) _ _ e
              (cancel_order-kept _ (SideSorted-IsKept side side) (SideSorted-IsKeptByCalls side) b
                id h)
        kept side h (inr e) =
            Holds-success (λ x. SideSorted side side x.1) _ _ e
              (modify_order-kept _ (SideSorted-IsKept side side) (SideSorted-IsKeptByCalls side) b
                id p q h)
