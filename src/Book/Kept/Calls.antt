-- ===== src/Book/Kept/Calls.antt =====
-- Invariants of the order book through `cancelOrder`, `modifyOrder` and `addOrder` of
-- src/Core/OrderBook.cpp.
use financial_order_book.Prelude.{ℕ, ◌≡◌, refl, ◌&&◌, Option, none, some, List, not, ltb}
use financial_order_book.Prelude.Double.{Double}
use financial_order_book.Prelude.Map.{Key, nat_key, lookup}
use financial_order_book.Types.{Side, success}
use financial_order_book.Order.{Addr, Order}
use financial_order_book.Level
use financial_order_book.Level.{PriceLevel, remove_order, is_empty_level, write}
use financial_order_book.Book.{OrderBook, Slot, Increment, level_at, set_levels, levels_of}
use financial_order_book.Matching.{sort_levels}
use financial_order_book.Risk.{
  RiskManager, is_approved, associate_order_with_account, get_portfolio, validate_order,
}
use financial_order_book.Book.Index.{take_or_create, found_price_level, find_or_create_price_level}
use financial_order_book.Book.Trading.{process_matching, opposite}
use financial_order_book.Book.Calls.{
  enqueue, dequeue, locate, change_quantity, modify_quantity, take_out, put_in, publish_add,
  move_order, modify_price, modify_at, modify_order, modify_found, cancel_at, cancel_found,
  cancel_order, Call, add_copy, add_new, add_checked, add_with, add_order, account_or_default,
}
use financial_order_book.Book.Kept.{
  process_matching-kept, Holds, Holds->>=, Holds-read, Holds-if, if-kept, IsKept, IsKeptByCalls,
  level_same, remove_price_level-kept,
}

module _ {Price : Type 0} ⦃d : Double Price⦄ ⦃k : Key Price⦄ (I : OrderBook Price → Type 0)
    (kept : IsKept I) where
  dequeue-kept :
      (b : OrderBook Price) (s : Slot) (l : PriceLevel Price) (a : Addr)
      → level_at b s ≡ success l
      → I b
      → I (dequeue b s l a)
  unfolding dequeue remove_order
  dequeue-kept b s l a at h =
      let b1 : OrderBook Price = record b { store = (remove_order b.store l a).0 } in
      kept.published _ _ _ _ _ _ (
        kept.put b1 s l _ (level_same I kept b b1 s l refl refl at) refl
          (kept.same b b1 refl refl refl refl h))

  pub take_out-kept :
      (b : OrderBook Price) (a : Addr) (s : Slot) (side : Side)
      → I b
      → Holds I (take_out b a s side)
  unfolding take_out
  take_out-kept b a s side h = Holds-read I (level_at b s) _ (λ l at.
      let h1 = dequeue-kept b s l a at h in
      Holds-read I (level_at (dequeue b s l a) s) _ (λ l1 at1.
        Holds-if I (is_empty_level l1) _ _ (remove_price_level-kept I kept _ s side h1) h1))

  module _ (calls : IsKeptByCalls I) ⦃i : Increment Price⦄ where
    abbrev KeptBy : {A : Type 0} → Call Price A → Type 0
    KeptBy = Holds (λ r. I r.1)

    create-kept :
        (b : OrderBook Price) (p : Price) (o : Option Slot) (side : Side)
        → I b
        → Holds (λ r. I r.0) (found_price_level b p side o)
    unfolding take_or_create
    create-kept b p none side h = calls.created b p side h
    create-kept b p (some s) side h =
        Holds-read (λ r. I r.0) (level_at b s) _
          (λ l at.
            if-kept {A = OrderBook Price × Slot} (λ r. I r.0) (i.within l.price p) h
              (calls.created _ p side (kept.same b _ refl refl refl refl h)))

    enqueue-kept :
        (b : OrderBook Price) (s : Slot) (l : PriceLevel Price) (a : Addr)
        → level_at b s ≡ success l
        → I b
        → I (enqueue b s l a)
    unfolding enqueue Level.add_order
    enqueue-kept b s l a at h =
        let b1 : OrderBook Price = record b { store = (Level.add_order b.store l a).0 } in
        kept.put b1 s l _ (level_same I kept b b1 s l refl refl at) refl
          (kept.same b b1 refl refl refl refl h)

    put_in-kept :
        (b : OrderBook Price) (id : ℕ) (a : Addr) → I b → Holds (λ r. I r.0) (put_in b id a)
    unfolding put_in find_or_create_price_level
    put_in-kept b id a h =
        let p = (b.store a).price in
        let side = (b.store a).side in
        Holds->>= (λ r. I r.0) (λ r. I r.0) (find_or_create_price_level b p side) _
          (create-kept b p (lookup p b.price_index) side h)
          (λ r h1.
            Holds-read (λ r. I r.0) (level_at r.0 r.1) _ (λ l at. enqueue-kept r.0 r.1 l a at h1))

    publish_add-kept :
        (b : OrderBook Price) (s : Slot) (a : Addr) → I b → Holds I (publish_add b s a)
    publish_add-kept b s a h = Holds-read I (level_at b s) _ (λ l at. kept.published b _ _ _ _ _ h)

    locate-kept : (b : OrderBook Price) (id : ℕ) (a : Addr) (s : Slot) → I b → I (locate b id a s)
    unfolding locate
    locate-kept b id a s h = kept.same b _ refl refl refl refl h

    move_order-kept :
        (b : OrderBook Price) (id : ℕ) (a : Addr) (s : Slot) (side : Side) (p : Price)
        → I b
        → Holds (λ r. I r.0) (move_order b id a s side p)
    unfolding move_order
    move_order-kept b id a s side p h =
        Holds->>= I (λ r. I r.0) (take_out b a s side) _ (take_out-kept b a s side h)
          (λ b1 h1.
            Holds->>= (λ r. I r.0) (λ r. I r.0) (put_in _ id a) _
              (put_in-kept _ id a (kept.same b1 _ refl refl refl refl h1))
              (λ r h2.
                Holds->>= I (λ r. I r.0) (publish_add r.0 r.1 a) _ (publish_add-kept r.0 r.1 a h2)
                  (λ b3 h3. calls.maintained _ (locate-kept b3 id a r.1 h3))))

    modify_price-kept :
        (b : OrderBook Price) (id : ℕ) (a : Addr) (s : Slot) (side : Side) (p : Price)
        → I b
        → Holds (λ r. I r.0) (modify_price b id a s side p)
    unfolding modify_price
    modify_price-kept b id a s side p h =
        Holds-if (λ r. I r.0) (d.lt d.nought p && i.beyond (b.store a).price p) _ _
          (move_order-kept b id a s side p h) h

    modify_quantity-kept :
        (b : OrderBook Price) (a : Addr) (s : Slot) (q : ℕ)
        → I b
        → Holds I (modify_quantity b a s q)
    unfolding modify_quantity change_quantity
    modify_quantity-kept b a s q h =
        Holds-if I (ltb 0 q) _ _
          (Holds-read I (level_at b s) _ (λ l at.
            let b1 : OrderBook Price = record b { store = _ } in
            kept.published _ _ _ _ _ _ (
              kept.put b1 s l _ (level_same I kept b b1 s l refl refl at) refl
                (kept.same b b1 refl refl refl refl h))))
          h

    pub cancel_order-kept : (b : OrderBook Price) (id : ℕ) → I b → KeptBy (cancel_order b id)
    unfolding cancel_order
    cancel_order-kept b id h = found (lookup id b.order_index)
      where
        at : (a : Option Addr) (s : Option Slot) (side : Side) → KeptBy (cancel_at b id a s side)
        at none s side = h
        at (some a) none side = h
        at (some a) (some s) side =
            Holds->>= I (λ r. I r.1) (take_out b a s side) _ (take_out-kept b a s side h)
              (λ b1 h1. calls.updated _ (kept.same b1 _ refl refl refl refl h1))

        found : (l : Option (Level.OrderLocation Slot)) → KeptBy (cancel_found b id l)
        found none = h
        found (some l) = at l.order l.price_level l.side

    pub modify_order-kept :
        (b : OrderBook Price) (id : ℕ) (p : Price) (q : ℕ) → I b → KeptBy (modify_order b id p q)
    unfolding modify_order
    modify_order-kept b id p q h = found (lookup id b.order_index)
      where
        at :
            (a : Option Addr) (s : Option Slot) (side : Side) → KeptBy (modify_at b id p q a s side)
        at none s side = h
        at (some a) none side = h
        at (some a) (some s) side =
            Holds->>= (λ r. I r.0) (λ r. I r.1) (modify_price b id a s side p) _
              (modify_price-kept b id a s side p h)
              (λ r h1.
                Holds->>= I (λ r. I r.1) (modify_quantity r.0 a r.1 q) _
                  (modify_quantity-kept r.0 a r.1 q h1) (λ b1 h2. calls.updated b1 h2))

        found : (l : Option (Level.OrderLocation Slot)) → KeptBy (modify_found b id p q l)
        found none = h
        found (some l) = at l.order l.price_level l.side

    add_copy-kept :
        ((b : OrderBook Price) (side : Side) (ls : List (PriceLevel Price))
          → I b
          → I (set_levels b side ls))
        → (b : OrderBook Price) (a : Addr) (o : Order Price) → I b
        → KeptBy (add_copy b a o)
    unfolding add_copy
    add_copy-kept sorted b a o h =
        Holds->>= (λ r. I r.0) (λ r. I r.1) (put_in _ o.id a) _
          (put_in-kept _ o.id a (kept.same b _ refl refl refl refl h))
          (λ r h1.
            let h2 = calls.maintained _ (locate-kept r.0 o.id a r.1 h1) in
            Holds->>= I (λ r. I r.1) (publish_add _ r.1 a) _ (publish_add-kept _ r.1 a h2)
              (λ b1 h3.
                Holds->>= I (λ r. I r.1) (process_matching b1 a) _
                  (process_matching-kept I kept b1 a h3 (
                    sorted b1 (opposite (b1.store a).side)
                      (sort_levels (b1.store a).side (levels_of b1 (opposite (b1.store a).side)))
                      h3))
                  (λ b2 h4. calls.updated b2 h4)))

    pub add_order-kept :
        ((b : OrderBook Price) (side : Side) (ls : List (PriceLevel Price))
          → I b
          → I (set_levels b side ls))
        → (b : OrderBook Price) (a : Addr) (o : Order Price) → I b
        → KeptBy (add_order b a o)
    unfolding add_order add_checked
    add_order-kept sorted b a o h = with_risk b.risk_manager
      where
        new :
            (b : OrderBook Price) (l : Option (Level.OrderLocation Slot))
            → I b
            → KeptBy (add_new b a o l)
        new b none h = add_copy-kept sorted b a o h
        new b (some l) h = h

        with_risk : (r : Option (RiskManager Price)) → KeptBy (add_with b a o r)
        with_risk none = new b (lookup o.id b.order_index) h
        with_risk (some r) =
            let account = account_or_default o.account in
            let g = get_portfolio (associate_order_with_account r o.id account) account in
            Holds-if (λ r. I r.1) (not (is_approved (validate_order g.0 o g.1))) _ _
              (kept.same b _ refl refl refl refl h)
              (new (record b { risk_manager = some g.0 }) (lookup o.id b.order_index)
                (kept.same b _ refl refl refl refl h))
