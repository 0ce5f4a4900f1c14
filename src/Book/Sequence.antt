-- ===== src/Book/Sequence.antt =====
-- The numbers of the book updates that src/Core/OrderBook.cpp publishes, as a subscriber that
-- looks for gaps reads them.
use financial_order_book.Prelude.{
  ℕ, ◌≡◌, refl, sym, ap, ◌∙◌, Bool, List, [], ◌∷◌, ◌++◌, Option, none, some, ◌==◌, ==_iff, ◌⊎◌,
  if◌then◌else◌, arith, inl, inr,
}
use financial_order_book.Prelude.Double.{Double}
use financial_order_book.Prelude.Map.{Key}
use financial_order_book.Types.{Side, Result, success, add64, side_eq}
use financial_order_book.Order.{Order, Addr}
use financial_order_book.Level.{PriceLevel}
use financial_order_book.Book.{
  OrderBook, Event, trade, book_update, best_prices, depth, Increment, Slot, UpdateType, BookError,
  put_level, publish_book_update, publish_market_data_update, set_levels,
}
use financial_order_book.Book.Index.{
  create_price_level, maintain_sorted_order, rebuild_price_index, erase_level,
}
use financial_order_book.Book.Trading.{execute_trade}
use financial_order_book.Book.Calls.{cancel_order, modify_order, add_order}
use financial_order_book.Book.Kept.{IsKept, IsKeptByCalls, Holds-success, if-kept}
use financial_order_book.Book.Kept.Calls.{cancel_order-kept, modify_order-kept, add_order-kept}

module _ {Price : Type 0} where
  -- The subscriber knows the last number and wants the next one in each book update; `none` where
  -- it has found a gap.
  abbrev pub follow : ℕ → List (Event Price) → Option ℕ
  follow n [] = some n
  follow n (book_update u ∷ es) =
      let rest = follow u.sequence es in if u.sequence == add64 n 1 then rest else none
  follow n (trade t ∷ es) = follow n es
  follow n (best_prices p ∷ es) = follow n es
  follow n (depth p ∷ es) = follow n es

  -- A subscriber that starts at `n` is at the number of the book after its events.
  abbrev pub IsFollowed : ℕ → OrderBook Price → Type 0
  IsFollowed n b = follow n b.events ≡ some b.book_sequence

  abbrev or_gap : Option ℕ → List (Event Price) → Option ℕ
  or_gap none ys = none
  or_gap (some m) ys = follow m ys

  follow-append :
      (n m : ℕ) (xs ys : List (Event Price))
      → follow n xs ≡ some m
      → follow n (xs ++ ys) ≡ follow m ys
  follow-append n m [] ys h = ap (λ o. or_gap o ys) h
  follow-append n m (book_update u ∷ xs) ys h = ground (arith, follow-append u.sequence m xs ys)
  follow-append n m (trade t ∷ xs) ys h = follow-append n m xs ys h
  follow-append n m (best_prices p ∷ xs) ys h = follow-append n m xs ys h
  follow-append n m (depth p ∷ xs) ys h = follow-append n m xs ys h

  module _ (n : ℕ) where
    published-IsFollowed :
        (b : OrderBook Price) (type : UpdateType) (side : Side) (p : Price) (q c : ℕ)
        → IsFollowed n b
        → IsFollowed n (publish_book_update b type side p q c)
    unfolding publish_book_update
    published-IsFollowed b type side p q c h =
        if-kept (IsFollowed n) b.has_market_data
          (follow-append n b.book_sequence b.events _ h
            ∙ rw ((==_iff (add64 b.book_sequence 1) (add64 b.book_sequence 1)).1 refl) refl)
          h

    put-IsFollowed :
        (b : OrderBook Price) (side : Side) (ls : List (PriceLevel Price))
        → IsFollowed n b
        → IsFollowed n (set_levels b side ls)
    put-IsFollowed b Side.buy ls h = h
    put-IsFollowed b Side.sell ls h = h

    same-IsFollowed :
        (b b' : OrderBook Price)
        → b'.events ≡ b.events
        → b'.book_sequence ≡ b.book_sequence
        → IsFollowed n b
        → IsFollowed n b'
    same-IsFollowed b b' e f h = ap (follow n) e ∙ h ∙ ap some (sym f)

    erased-IsFollowed :
        ⦃k : Key Price⦄ (b : OrderBook Price) (s : Slot) (side : Side) (p : Price)
        → IsFollowed n b
        → IsFollowed n (erase_level b s side p)
    unfolding erase_level
    erased-IsFollowed b s side p h =
        if-kept (IsFollowed n) (side_eq s.side side) (put-IsFollowed _ side _ h) h

    traded-IsFollowed :
        (b : OrderBook Price) (inc a : Addr) (p : Price) (q : ℕ)
        → IsFollowed n b
        → IsFollowed n (execute_trade b inc a p q)
    unfolding execute_trade
    traded-IsFollowed b inc a p q h =
        if-kept (λ es. follow n es ≡ some b.book_sequence) b.has_market_data
          (follow-append n b.book_sequence b.events _ h) h

    IsFollowed-IsKept : IsKept (IsFollowed n)
    unfolding put_level
    IsFollowed-IsKept = record {
      same = λ b b' e f g k h. same-IsFollowed b b' g k h;
      published = published-IsFollowed;
      put = λ b s l l' at e h. put-IsFollowed b s.side _ h;
      erased = λ b s side p h. erased-IsFollowed b s side p h;
      traded = traded-IsFollowed;
    }

    module _ ⦃d : Double Price⦄ ⦃k : Key Price⦄ where
      updated-IsFollowed :
          (b : OrderBook Price) → IsFollowed n b → IsFollowed n (publish_market_data_update b)
      unfolding publish_market_data_update
      updated-IsFollowed b h =
          if-kept (IsFollowed n) b.has_market_data (follow-append n b.book_sequence b.events _ h) h

      created-IsFollowed :
          (b : OrderBook Price) (p : Price) (side : Side)
          → IsFollowed n b
          → IsFollowed n (create_price_level b p side).0
      unfolding create_price_level
      created-IsFollowed b p side h = put-IsFollowed b side _ h

      maintained-IsFollowed :
          (b : OrderBook Price) → IsFollowed n b → IsFollowed n (maintain_sorted_order b)
      unfolding maintain_sorted_order rebuild_price_index
      maintained-IsFollowed b h = h

      IsFollowed-IsKeptByCalls : IsKeptByCalls (IsFollowed n)
      IsFollowed-IsKeptByCalls = record {
        created = created-IsFollowed;
        maintained = maintained-IsFollowed;
        updated = updated-IsFollowed;
      }

      module _ ⦃i : Increment Price⦄ (b b' : OrderBook Price) where
        -- A subscriber that expects consecutive numbers and is at the number of the book finds no
        -- gap in the book updates of a call that ends, and is at the number of the book then:
        -- this holds of adding, cancelling and modifying, in success and in error.
        pub calls-IsFollowed :
            (a : Addr) (o : Order Price) (id : ℕ) (p : Price) (q : ℕ)
            (r : Result (BookError Price) ℕ) (t : Result (BookError Price) Bool)
            → IsFollowed n b
            → (add_order b a o ≡ success (r, b'))
              ⊎ ((cancel_order b id ≡ success (t, b')) ⊎ (modify_order b id p q ≡ success (t, b')))
            → IsFollowed n b'
        calls-IsFollowed a o id p q r t h (inl e) =
            Holds-success (λ x. IsFollowed n x.1) _ _ e
              (add_order-kept (IsFollowed n) IsFollowed-IsKept IsFollowed-IsKeptByCalls
                put-IsFollowed b a o h)
        calls-IsFollowed a o id p q r t h (inr (inl e)) =
            Holds-success (λ x. IsFollowed n x.1) _ _ e
              (cancel_order-kept (IsFollowed n) IsFollowed-IsKept IsFollowed-IsKeptByCalls b id h)
        calls-IsFollowed a o id p q r t h (inr (inr e)) =
            Holds-success (λ x. IsFollowed n x.1) _ _ e
              (modify_order-kept (IsFollowed n) IsFollowed-IsKept IsFollowed-IsKeptByCalls b id p q
                h)
