-- ===== src/Book/Rounds.antt =====
-- The loop of `matchAgainstPriceLevel` of src/Core/OrderBook.cpp makes at most one round: a filled
-- order has no successor once `updateQuantity` has taken it out of the queue.
use financial_order_book.Prelude.{
  ℕ, suc, ◌≡◌, ◌≢◌, refl, sym, ap, subst, ◌∙◌, ◌⊎◌, inl, inr, true, false, Option, none, some, min,
  arith, ◌==◌, ==_iff, Bool-cases, if◌then◌else◌,
}
use financial_order_book.Types.{Side, Result, success, error, ◌>>=◌}
use financial_order_book.Order.{Addr, Order, is_fully_filled, remaining_quantity, fill}
use financial_order_book.Order.Fill.{IsSound, fill_part, fill_all}
use financial_order_book.Level.{Store, PriceLevel, write, update_quantity}
use financial_order_book.Matching.Body.{
  update_quantity-SameButLinks, fully_filled_same, update_quantity_next, AllSound,
}
use financial_order_book.Book.{
  OrderBook, Slot, level_at, put_level, set_levels, set_nth, levels_of, publish_book_update,
}
use financial_order_book.Book.Trading.{
  execute_trade, publish_passive, drop_filled, trade_at, match_once, match_orders,
}
use financial_order_book.Book.Kept.{Holds, Holds-read, Holds-if}

>>=-ext :
    {E A B : Type 0} (r : Result E A) (f g : A → Result E B)
    → Holds (λ a. f a ≡ g a) r
    → (r >>= f) ≡ (r >>= g)
>>=-ext (success a) f g h = h
>>=-ext (error e) f g h = refl

Holds-mono :
    {E A : Type 0} {P Q : A → Type 0} (r : Result E A)
    → ((a : A) → P a → Q a)
    → Holds P r
    → Holds Q r
Holds-mono (success a) f h = f a h
Holds-mono (error e) f h = tt

module _ {Price : Type 0} where
  -- The loop ends before another round.
  abbrev Ends : Addr → OrderBook Price × Option Addr → Type 0
  Ends inc r = (r.1 ≡ none) ⊎ (is_fully_filled (r.0.store inc) ≡ true)

  publish_passive-store :
      (b : OrderBook Price) (a : Addr) (n : ℕ) → (publish_passive b a n).store ≡ b.store
  unfolding publish_passive publish_book_update
  publish_passive-store b a n = elim (Bool-cases (is_fully_filled (b.store a))) [
    | inl e ↦ elim (Bool-cases b.has_market_data) [
      | inl f ↦ rw (e, f) refl
      | inr f ↦ rw (e, f) refl
    ]
    | inr e ↦ elim (Bool-cases b.has_market_data) [
      | inl f ↦ rw (e, f) refl
      | inr f ↦ rw (e, f) refl
    ]
  ]

  drop_filled-Ends :
      (b : OrderBook Price) (inc a : Addr)
      → (is_fully_filled (b.store a) ≡ true → (b.store a).next ≡ none)
      → (is_fully_filled (b.store a) ≡ false → is_fully_filled (b.store inc) ≡ true)
      → Holds (Ends inc) (drop_filled b inc a)
  unfolding drop_filled
  drop_filled-Ends b inc a h k = elim (Bool-cases (is_fully_filled (b.store a))) [
    | inl e ↦ elim (Bool-cases (a == inc)) [ inl f ↦ rw (e, f) tt | inr f ↦ rw (e, f) (inl (h e)) ]
    | inr e ↦ rw e (inr (k e))
  ]

  write_other : (s : Store Price) (a b : Addr) (o : Order Price) → a ≢ b → write s a o b ≡ s b
  unfolding write
  write_other s a b o h = ground (arith, ==_iff a b)

  write_own : (s : Store Price) (a : Addr) (o : Order Price) → write s a o a ≡ o
  unfolding write
  write_own s a o = rw ((==_iff a a).1 refl) refl

  -- The two orders of a trade after it.
  traded_incoming :
      (b : OrderBook Price) (inc a : Addr) (p : Price) (q : ℕ)
      → a ≢ inc
      → (execute_trade b inc a p q).store inc ≡ fill (b.store inc) q
  unfolding execute_trade
  traded_incoming b inc a p q h =
      write_other _ a inc _ h ∙ write_own b.store inc (fill (b.store inc) q)

  traded_passive :
      (b : OrderBook Price) (inc a : Addr) (p : Price) (q : ℕ)
      → a ≢ inc
      → (execute_trade b inc a p q).store a ≡ fill (b.store a) q
  unfolding execute_trade
  traded_passive b inc a p q h =
      write_own _ a _ ∙ ap (λ o. fill o q) (write_other b.store inc a _ (λ e. h (sym e)))

  -- Where the passive order is not filled by the lesser quantity, the incoming one is.
  one_filled :
      (o p : Order Price)
      → IsSound o
      → IsSound p
      → (let q = min (remaining_quantity o) (remaining_quantity p) in
          is_fully_filled (fill p q) ≡ false → is_fully_filled (fill o q) ≡ true)
  one_filled o p so sp e =
      let q = min (remaining_quantity o) (remaining_quantity p) in
      let less = fill_part p q sp (ground arith) e in fill_all o q so (ground arith)

  put_level-store :
      (b : OrderBook Price) (s : Slot) (l : PriceLevel Price) → (put_level b s l).store ≡ b.store
  unfolding put_level
  put_level-store b s l = go s.side
    where
      go : (t : Side) → (set_levels b t (set_nth (levels_of b s.side) s.index l)).store ≡ b.store
      go Side.buy = refl
      go Side.sell = refl

  trade_at-Ends :
      (b : OrderBook Price) (inc : Addr) (s : Slot) (a : Addr)
      → IsSound (b.store inc)
      → IsSound (b.store a)
      → a ≢ inc
      → Holds (Ends inc) (
          trade_at b inc s a
            (min (remaining_quantity (b.store inc)) (remaining_quantity (b.store a))))
  unfolding trade_at
  trade_at-Ends b inc s a si sa other =
      let q = min (remaining_quantity (b.store inc)) (remaining_quantity (b.store a)) in
      Holds-read (Ends inc) (level_at b s) _ (λ l at.
        let b1 = execute_trade b inc a l.price q in
        let r = update_quantity b1.store l a q in
        let same : (put_level (record b1 { store = r.0 }) s r.1).store ≡ r.0 =
          put_level-store _ s r.1 in
        let b2 = publish_passive (put_level (record b1 { store = r.0 }) s r.1) a r.1.order_count in
        let at_end : b2.store ≡ r.0 = publish_passive-store _ a r.1.order_count ∙ same in
        drop_filled-Ends b2 inc a
          (subst (λ t. is_fully_filled (t a) ≡ true → (t a).next ≡ none) (sym at_end)
            (update_quantity_next b1.store l a q))
          (subst (λ t. is_fully_filled (t a) ≡ false → is_fully_filled (t inc) ≡ true) (sym at_end)
            (λ e.
              fully_filled_same (update_quantity-SameButLinks b1.store l a q inc)
              ∙ ap is_fully_filled (traded_incoming b inc a l.price q other)
              ∙ one_filled (b.store inc) (b.store a) si sa (
                  ap is_fully_filled (sym (traded_passive b inc a l.price q other))
                  ∙ sym (fully_filled_same (update_quantity-SameButLinks b1.store l a q a))
                  ∙ e))))

  match_once-Ends :
      (b : OrderBook Price) (inc : Addr) (s : Slot) (a : Addr)
      → IsSound (b.store inc)
      → IsSound (b.store a)
      → a ≢ inc
      → Holds (Ends inc) (match_once b inc s a)
  unfolding match_once
  match_once-Ends b inc s a si sa other =
      let q = min (remaining_quantity (b.store inc)) (remaining_quantity (b.store a)) in
      Holds-if (Ends inc) (q == 0) (success (b, none)) (trade_at b inc s a q) (inl refl)
        (trade_at-Ends b inc s a si sa other)

  -- A round that finds the loop ended changes nothing, whatever the fuel.
  ended_same :
      (n : ℕ) (inc : Addr) (s : Slot) (r : OrderBook Price × Option Addr)
      → Ends inc r
      → match_orders (suc n) r.0 inc s r.1 ≡ success r.0
  unfolding match_orders
  ended_same n inc s (b, none) h = refl
  ended_same n inc s (b, some a) (inl h) = cc h
  ended_same n inc s (b, some a) (inr h) = rw h refl

  -- Two units of fuel are enough for the loop: for sound orders, and an incoming order that is
  -- not the first of the level itself, the loop with more fuel gives the same.
  pub match_orders_enough :
      (fuel : ℕ) (b : OrderBook Price) (inc : Addr) (s : Slot) (a : Addr)
      → AllSound b.store
      → a ≢ inc
      → match_orders (suc (suc fuel)) b inc s (some a) ≡ match_orders 2 b inc s (some a)
  unfolding match_orders
  match_orders_enough fuel b inc s a sound other =
      ap (λ r. if is_fully_filled (b.store inc) then success b else r)
        (>>=-ext (match_once b inc s a) _ _ (
          Holds-mono (match_once b inc s a)
            (λ r h. ended_same fuel inc s r h ∙ sym (ended_same 0 inc s r h))
            (match_once-Ends b inc s a (sound inc) (sound a) other)))
