-- ===== src/Feed/Notify.antt =====
-- The notification loops of src/MarketData/MarketDataFeed.cpp, which erase expired subscribers
-- while they run over the others.
use financial_order_book.Prelude.{
  ℕ, suc, ◌≡◌, refl, sym, ap, ◌∙◌, true, List, [], ◌∷◌, ◌++◌, map, none, some, arith, length,
  length-append, Bool-cases, inl, inr,
}
use financial_order_book.Prelude.Text.{Bytes}
use financial_order_book.Book.{nth, erase_nth}
use financial_order_book.Feed.{
  World, Payload, on_text, Publisher, PublishingStats, Notified, is_caught, remove_expired,
  record_latency, notify_loop, notify_typed_subscribers, notify_each, notify_string_subscribers,
  publish,
}

-- No callback throws anything but a `std::exception`.
abbrev pub IsCalm : World → Type 0
IsCalm w = (s : ℕ) → is_caught (w.calls s) ≡ true

module _ {ℓ} {A : Type ℓ} where
  append_snoc : (xs : List A) (y : A) (ys : List A) → (xs ++ y ∷ []) ++ ys ≡ xs ++ y ∷ ys
  append_snoc [] y ys = refl
  append_snoc (x ∷ xs) y ys = ap (λ l. x ∷ l) (append_snoc xs y ys)

  append_nil : (xs : List A) → xs ++ [] ≡ xs
  append_nil [] = refl
  append_nil (x ∷ xs) = ap (λ l. x ∷ l) (append_nil xs)

  nth-middle : (xs ys : List A) (y : A) → nth (xs ++ y ∷ ys) (length xs) ≡ some y
  unfolding nth
  nth-middle [] ys y = refl
  nth-middle (x ∷ xs) ys y = nth-middle xs ys y

  erase_nth-middle : (xs ys : List A) (y : A) → erase_nth (xs ++ y ∷ ys) (length xs) ≡ xs ++ ys
  unfolding erase_nth
  erase_nth-middle [] ys y = refl
  erase_nth-middle (x ∷ xs) ys y = ap (λ l. x ∷ l) (erase_nth-middle xs ys y)

  length-snoc : (xs : List A) (x : A) → suc (length xs) ≡ length (xs ++ x ∷ [])
  length-snoc xs x = omega (arith, length-append xs (x ∷ []))

  nth-length : (xs : List A) → nth (xs ++ []) (length xs) ≡ none
  unfolding nth
  nth-length [] = refl
  nth-length (x ∷ xs) = nth-length xs

module _ {Price : Type 0} where
  -- One call with the message for each subscriber of a list.
  abbrev pub calls_of : Payload Price → List ℕ → List (ℕ × Payload Price)
  calls_of m = map (λ s. (s, m))

  abbrev notified : List ℕ → List (ℕ × Payload Price) → Notified Price
  notified ss sent = record { subscribers = ss; delivered = sent; completed = true }

  module _ (w : World) (calm : IsCalm w) (m : Payload Price) where
    notify_loop-remove_expired :
        (past rest : List ℕ) (sent : List (ℕ × Payload Price))
        → notify_loop w m (length rest) (past ++ rest) (length past) sent
          ≡ notified
              (past ++ remove_expired w.locks rest)
              (sent ++ calls_of m (remove_expired w.locks rest))
    unfolding notify_loop
    notify_loop-remove_expired past [] sent = ap (notified (past ++ [])) (sym (append_nil sent))
    notify_loop-remove_expired past (s ∷ rest) sent = elim (Bool-cases (w.locks s)) [
      | inl e ↦
          let left = remove_expired w.locks rest in
          let sent' = sent ++ (s, m) ∷ [] in
          rw (notify_loop, nth-middle past rest s, e, calm s)
            (ap (λ l. notify_loop w m (length rest) l (suc (length past)) sent')
                (sym (append_snoc past s rest))
              ∙ ap (λ i. notify_loop w m (length rest) ((past ++ s ∷ []) ++ rest) i sent')
                  (length-snoc past s)
              ∙ notify_loop-remove_expired (past ++ s ∷ []) rest sent'
              ∙ ap (λ l. notified l (sent' ++ calls_of m left)) (append_snoc past s left)
              ∙ ap (notified (past ++ s ∷ left)) (append_snoc sent (s, m) (calls_of m left)))
      | inr e ↦
          rw (notify_loop, nth-middle past rest s, e, erase_nth-middle past rest s)
            (notify_loop-remove_expired past rest sent)
    ]

    notify_each_lem :
        (ss : List ℕ) (sent : List (ℕ × Payload Price))
        → notify_each w m ss sent ≡ (sent ++ calls_of m ss, true)
    unfolding notify_each
    notify_each_lem [] sent = ap (λ l. (l, true)) (sym (append_nil sent))
    notify_each_lem (s ∷ ss) sent = rw (calm s) (
        notify_each_lem ss (sent ++ (s, m) ∷ [])
        ∙ ap (λ l. (l, true)) (append_snoc sent (s, m) (calls_of m ss)))

    -- Where no callback throws anything but a std::exception, which is caught, the loop over the
    -- typed subscribers comes to its end: it calls each that has not expired, once and in order,
    -- and removes the others.
    pub notify_typed_subscribers_lem :
        (p : Publisher Price)
        → notify_typed_subscribers w p m ≡ (
          record p {
            typed_subscribers = remove_expired w.locks p.typed_subscribers;
            delivered = p.delivered ++ calls_of m (remove_expired w.locks p.typed_subscribers);
          },
          true,
        )
    unfolding notify_typed_subscribers
    notify_typed_subscribers_lem p =
        ap
          (λ r.
            (record p { typed_subscribers = r.subscribers; delivered = r.delivered }, r.completed))
          (notify_loop-remove_expired [] p.typed_subscribers p.delivered)

  -- What a publication leaves, then.
  abbrev pub published :
      World
      → Publisher Price
      → Payload Price
      → Bytes
      → ℕ
      → (PublishingStats → PublishingStats)
      → Publisher Price
  published w p m text latency count =
      let ss = remove_expired w.locks p.typed_subscribers in
      record p {
        typed_subscribers = ss;
        delivered = (p.delivered ++ calls_of m ss) ++ calls_of (on_text text) p.string_subscribers;
        stats = count (record_latency p.stats latency);
      }

  pub publish-published :
      (w : World) (calm : IsCalm w) (p : Publisher Price) (m : Payload Price) (text : Bytes)
      (latency : ℕ) (count : PublishingStats → PublishingStats)
      → publish w p m text latency count ≡ (published w p m text latency count, true)
  unfolding publish notify_string_subscribers
  publish-published w calm p m text latency count = rw (notify_typed_subscribers_lem w calm m p) (
      rw
        (notify_each_lem w calm (on_text text) p.string_subscribers
          (p.delivered ++ calls_of m (remove_expired w.locks p.typed_subscribers)))
        refl)
