-- ===== src/Feed/Tally.antt =====
-- The numbers that a subscriber of src/MarketData/MarketDataFeed.cpp sees, and the statistics.
use financial_order_book.Prelude.{
  ℕ, suc, ◌≡◌, refl, ap, ◌∙◌, Bool, true, false, List, [], ◌∷◌, ◌++◌, Option, none, some, ◌==◌,
  ==_iff, arith, Bool-cases, inl, inr, if◌then◌else◌, All,
}
use financial_order_book.Prelude.Double.{Double}
use financial_order_book.Prelude.Text.{Bytes}
use financial_order_book.Types.{add64}
use financial_order_book.Book.{Event}
use financial_order_book.Feed.{
  World, Payload, on_trade, on_book_update, on_best_prices, on_depth, on_text, Publisher,
  PublishingStats, remove_expired, publish, next_sequence,
}
use financial_order_book.Feed.Format.{
  publish_trade, publish_book_update, publish_best_prices, publish_depth,
}
use financial_order_book.Feed.Notify.{IsCalm, calls_of, publish-published}

-- What the order book's calls on the publisher do.
module _ {Price : Type 0} ⦃d : Double Price⦄ where
  abbrev pub publish_event :
      World → Bytes → ℕ → Publisher Price → Event Price → Publisher Price × Bool
  publish_event w stamp latency p (Event.trade t) = publish_trade w stamp latency p t
  publish_event w stamp latency p (Event.book_update u) = publish_book_update w stamp latency p u
  publish_event w stamp latency p (Event.best_prices b) = publish_best_prices w stamp latency p b
  publish_event w stamp latency p (Event.depth m) = publish_depth w stamp latency p m

  -- The publisher after the events, each in a world of its own; an exception that escapes is
  -- the caller's, who goes on with the next event.
  abbrev pub publish_all :
      Bytes → ℕ → Publisher Price → List (World × Event Price) → Publisher Price
  publish_all stamp latency p [] = p
  publish_all stamp latency p ((w, e) ∷ es) =
      publish_all stamp latency (publish_event w stamp latency p e).0 es

-- A subscriber that looks for gaps knows the last number and wants the next one, where there
-- is one; `none` where it has found a gap.
abbrev pub check : Option ℕ → ℕ → Option ℕ
check none n = some n
check (some k) n = if k == add64 n 1 then some k else none

-- How often a subscriber is registered.
abbrev pub times : ℕ → List ℕ → ℕ
times s [] = 0
times s (t ∷ ts) = let n = times s ts in if t == s then suc n else n

times-remove_expired :
    (w : World) (s : ℕ) (ts : List ℕ)
    → w.locks s ≡ true
    → times s (remove_expired w.locks ts) ≡ times s ts
times-remove_expired w s [] h = refl
times-remove_expired w s (t ∷ ts) h = ground (arith, times-remove_expired w s ts, ==_iff t s)

check_next : (k : ℕ) → check (some (add64 k 1)) k ≡ some (add64 k 1)
check_next k = rw ((==_iff (add64 k 1) (add64 k 1)).1 refl) refl

module _ {Price : Type 0} where
  -- The number that the publisher gives a message; a book update has none of its own.
  abbrev pub number_of : Payload Price → Option ℕ
  number_of (on_trade t n) = some n
  number_of (on_best_prices b n) = some n
  number_of (on_depth m n) = some n
  number_of (on_book_update u) = none
  number_of (on_text s) = none

  abbrev read_one : ℕ → Option ℕ → ℕ × Payload Price → Option ℕ
  read_one s none c = none
  read_one s (some n) c = if c.0 == s then check (number_of c.1) n else some n

  abbrev pub read : ℕ → Option ℕ → List (ℕ × Payload Price) → Option ℕ
  read s o [] = o
  read s o (c ∷ cs) = read s (read_one s o c) cs

  -- Subscriber `s` started at number `n`, has found no gap, and is registered once.
  pub record IsRead (s n : ℕ) (p : Publisher Price) : Type 0 where
    pub read_is : read s (some n) p.delivered ≡ some p.sequence_number
    pub once : times s p.typed_subscribers ≡ 1

  read-append :
      (s : ℕ) (o : Option ℕ) (xs ys : List (ℕ × Payload Price))
      → read s o (xs ++ ys) ≡ read s (read s o xs) ys
  read-append s o [] ys = refl
  read-append s o (c ∷ xs) ys = read-append s (read_one s o c) xs ys

  -- Calls of others do not count, nor do messages without a number.
  read-others :
      (s n : ℕ) (m : Payload Price) (ts : List ℕ)
      → times s ts ≡ 0
      → read s (some n) (calls_of m ts) ≡ some n
  read-others s n m [] h = refl
  read-others s n m (t ∷ ts) h = elim (Bool-cases (t == s)) [
    | inl e ↦ cc (not_zero e h)
    | inr e ↦ ap (λ o. read s o (calls_of m ts)) (other e) ∙ read-others s n m ts (rw e at h)
  ]
    where
      not_zero : t == s ≡ true → times s (t ∷ ts) ≡ 0 → true ≡ false
      not_zero e h = ground arith

      other : t == s ≡ false → read_one s (some n) (t, m) ≡ some n
      other e = rw e refl

  read-unnumbered :
      (s n : ℕ) (m : Payload Price) (ts : List ℕ)
      → number_of m ≡ none
      → read s (some n) (calls_of m ts) ≡ some n
  read-unnumbered s n m [] h = refl
  read-unnumbered s n m (t ∷ ts) h =
      ap (λ o. read s o (calls_of m ts)) passed ∙ read-unnumbered s n m ts h
    where
      passed : read_one s (some n) (t, m) ≡ some n
      passed = elim (Bool-cases (t == s)) [ inl e ↦ rw (e, h) refl | inr e ↦ rw e refl ]

  read-once :
      (s n k : ℕ) (m : Payload Price) (ts : List ℕ)
      → times s ts ≡ 1
      → check (number_of m) n ≡ some k
      → read s (some n) (calls_of m ts) ≡ some k
  read-once s n k m [] h c = ground arith
  read-once s n k m (t ∷ ts) h c = elim (Bool-cases (t == s)) [
    | inl e ↦ ap (λ o. read s o (calls_of m ts)) (own e) ∙ read-others s k m ts (left e h)
    | inr e ↦ ap (λ o. read s o (calls_of m ts)) (other e) ∙ read-once s n k m ts (rw e at h) c
  ]
    where
      own : t == s ≡ true → read_one s (some n) (t, m) ≡ some k
      own e = rw e c

      other : t == s ≡ false → read_one s (some n) (t, m) ≡ some n
      other e = rw e refl

      left : t == s ≡ true → times s (t ∷ ts) ≡ 1 → times s ts ≡ 0
      left e h = ground arith

  module _ (w : World) (calm : IsCalm w) (s : ℕ) (alive : w.locks s ≡ true) where
    -- What a publication does to a subscriber that is alive, with the next number where the
    -- message has one.
    publish-IsRead :
        (n k : ℕ) (p : Publisher Price) (m : Payload Price) (text : Bytes) (latency : ℕ)
        (count : PublishingStats → PublishingStats)
        → read s (some n) p.delivered ≡ some k
        → check (number_of m) k ≡ some p.sequence_number
        → times s p.typed_subscribers ≡ 1
        → IsRead s n (publish w p m text latency count).0
    publish-IsRead n k p m text latency count h c o =
        let left = remove_expired w.locks p.typed_subscribers in
        let once = times-remove_expired w s p.typed_subscribers alive ∙ o in
        let texts = calls_of (on_text text) p.string_subscribers in
        rw (publish-published w calm p m text latency count) (record {
          read_is =
              read-append s (some n) (p.delivered ++ calls_of m left) texts
              ∙ ap (λ x. read s x texts)
                  (read-append s (some n) p.delivered (calls_of m left)
                    ∙ ap (λ x. read s x (calls_of m left)) h
                    ∙ read-once s k p.sequence_number m left once c)
              ∙ read-unnumbered s p.sequence_number (on_text text) p.string_subscribers refl;
          once = once;
        })

    module _ ⦃d : Double Price⦄ where
      publish_event-IsRead :
          (n : ℕ) (stamp : Bytes) (latency : ℕ) (p : Publisher Price) (e : Event Price)
          → IsRead s n p
          → IsRead s n (publish_event w stamp latency p e).0
      unfolding publish_trade publish_book_update publish_best_prices publish_depth next_sequence
      publish_event-IsRead n stamp latency p (Event.trade t) h =
          publish-IsRead n p.sequence_number (next_sequence p) _ _ _ _ h.read_is
            (check_next p.sequence_number) h.once
      publish_event-IsRead n stamp latency p (Event.book_update u) h =
          publish-IsRead n p.sequence_number p _ _ _ _ h.read_is refl h.once
      publish_event-IsRead n stamp latency p (Event.best_prices b) h =
          publish-IsRead n p.sequence_number (next_sequence p) _ _ _ _ h.read_is
            (check_next p.sequence_number) h.once
      publish_event-IsRead n stamp latency p (Event.depth m) h =
          publish-IsRead n p.sequence_number (next_sequence p) _ _ _ _ h.read_is
            (check_next p.sequence_number) h.once

module _ {Price : Type 0} ⦃d : Double Price⦄ where
  -- A subscriber that is registered once and stays alive finds no gap in the numbers of the
  -- trades, best prices and depths that it is called with, whatever the events and whichever
  -- others come to an end meanwhile, and has seen the last number; it is still registered once.
  -- No callback throws anything but a std::exception.
  pub publish_all-IsRead :
      (s n : ℕ) (stamp : Bytes) (latency : ℕ) (p : Publisher Price)
      (es : List (World × Event Price))
      → All (λ x. IsCalm x.0 × (x.0.locks s ≡ true)) es
      → IsRead s n p
      → IsRead s n (publish_all stamp latency p es)
  publish_all-IsRead s n stamp latency p [] h r = r
  publish_all-IsRead s n stamp latency p ((w, e) ∷ es) (h, hs) r =
      publish_all-IsRead s n stamp latency (publish_event w stamp latency p e).0 es hs
        (publish_event-IsRead w h.0 s h.1 n stamp latency p e r)
