-- ===== src/Manager/Invariant.antt =====
-- What every call keeps true of the orders under management.
use financial_order_book.Prelude.{
  ℕ, ◌≤◌, ◌<◌, ◌≡◌, refl, ◌∙◌, inl, inr, Bool, true, List, [], ◌∷◌, Option, none, some, arith,
  Bool-cases, Option-cases,
}
use financial_order_book.Prelude.Double.{Double}
use financial_order_book.Prelude.Map.{lookup, Each, Each-insert, Each-erase, nat_key}
use financial_order_book.Types.{OrderStatus, Result, success, error}
use financial_order_book.Order.{Order, is_active, remaining_quantity, fill, cancel, modify}
use financial_order_book.Order.Fill.{IsSound, fill-Fills}
use financial_order_book.Level.{OrderLocation}
use financial_order_book.Manager.{
  ManagerError, OrderManager, is_valid_price, is_valid_symbol, validate_order, check_modify,
  add_order, store_order, cancel_order, modify_order, remove_order, set_order_location,
  update_order_status, update_order, fill_order, get_next_order_id, Call, adds, cancels, modifies,
  removes, locates, sets_status, fills, takes_id, clears, step, run,
}

module _ {Price : Type 0} ⦃d : Double Price⦄ where
  -- An order as the manager keeps it under `id`.
  pub record IsManaged (id : ℕ) (o : Order Price) : Type 0 where
    pub keyed : o.id ≡ id
    pub sound : IsSound o
    pub positive : 0 < o.quantity
    pub priced : is_valid_price o.price ≡ true
    pub symbol_is : is_valid_symbol o.symbol ≡ true

  validate_order-IsManaged :
      (o : Order Price) (b : Bool) → validate_order o ≡ success b → IsManaged o.id o
  unfolding validate_order
  validate_order-IsManaged o b h = ground arith

  fill-IsManaged :
      (id q : ℕ) (o : Order Price)
      → q ≤ remaining_quantity o
      → IsManaged id o
      → IsManaged id (fill o q)
  fill-IsManaged id q o h v = record {
    keyed = same_id ∙ v.keyed;
    sound = (fill-Fills o q v.sound h).sound;
    positive = omega (arith, (fill-Fills o q v.sound h).same_quantity, v.positive);
    priced = rw same_price v.priced;
    symbol_is = rw same_symbol v.symbol_is;
  }
    where
      same_id : (fill o q).id ≡ o.id
      same_id = unfold fill in ground arith

      same_price : (fill o q).price ≡ o.price
      same_price = unfold fill in ground arith

      same_symbol : (fill o q).symbol ≡ o.symbol
      same_symbol = unfold fill in ground arith

  modify-IsManaged :
      (id q : ℕ) (p : Price) (o : Order Price)
      → check_modify id o p q ≡ none
      → IsManaged id o
      → IsManaged id (modify o p q)
  unfolding check_modify modify
  modify-IsManaged id q p o h v = record {
    keyed = ground (arith, v.keyed);
    sound = ground (arith, v.sound);
    positive = ground (arith, v.positive);
    priced = ground (arith, v.priced);
    symbol_is = ground (arith, v.symbol_is);
  }

  pub empty-AllManaged : (k : ℕ) (o : Order Price) → lookup k [] ≡ some o → IsManaged k o
  unfolding lookup
  empty-AllManaged k o e = cc e

  module _ {Level : Type 0} where
    -- All orders of a manager are sound, valid, and stand under their own ids.
    abbrev pub AllManaged : OrderManager Price Level → Type 0
    AllManaged m = Each IsManaged m.orders

    -- A call fills no order by more than what remains of it.
    abbrev pub IsCareful : OrderManager Price Level → Call Price Level → Type 0
    IsCareful m (fills id q) =
        (o : Order Price) → lookup id m.orders ≡ some o → q ≤ remaining_quantity o
    IsCareful m _ = Unit

    abbrev pub AllCareful : OrderManager Price Level → List (Call Price Level) → Type 0
    AllCareful m [] = Unit
    AllCareful m (c ∷ cs) = IsCareful m c × AllCareful (step m c) cs

    update_order-AllManaged :
        (m : OrderManager Price Level) (id : ℕ) (o : Order Price)
        → AllManaged m
        → IsManaged id o
        → AllManaged (update_order m id o)
    update_order-AllManaged m id o v h = Each-insert IsManaged id o m.orders v h

    store_order-AllManaged :
        (m : OrderManager Price Level) (o : Order Price)
        → AllManaged m
        → IsManaged o.id o
        → AllManaged (store_order m o).0
    unfolding store_order
    store_order-AllManaged m o v h = elim (Option-cases (lookup o.id m.orders)) [
      | inl e ↦ rw (e, store_order) (update_order-AllManaged m o.id o v h)
      | inr (old, e) ↦ rw (e, store_order) v
    ]

    add_order-AllManaged :
        (m : OrderManager Price Level) (o : Option (Order Price))
        → AllManaged m
        → AllManaged (add_order m o).0
    unfolding add_order
    add_order-AllManaged m none v = v
    add_order-AllManaged m (some o) v = go (validate_order o) refl
      where
        go :
            (r : Result (ManagerError Price) Bool)
            → validate_order o ≡ r
            → AllManaged (add_order m (some o)).0
        go (error x) e = rw (e, add_order) v
        go (success b) e =
            rw (e, add_order) (store_order-AllManaged m o v (validate_order-IsManaged o b e))

    cancel_order-AllManaged :
        (m : OrderManager Price Level) (id : ℕ) → AllManaged m → AllManaged (cancel_order m id).0
    unfolding cancel_order
    cancel_order-AllManaged m id v = elim (Option-cases (lookup id m.orders)) [
      | inl e ↦ rw (e, cancel_order) v
      | inr (o, e) ↦ elim (Bool-cases (is_active o)) [
        | inl f ↦
            rw (e, cancel_order)
              (rw f (update_order-AllManaged m id (cancel o) v (ground (arith, v id o e))))
        | inr f ↦ rw (e, cancel_order) (rw f v)
      ]
    ]

    modify_order-AllManaged :
        (m : OrderManager Price Level) (id : ℕ) (p : Price) (q : ℕ)
        → AllManaged m
        → AllManaged (modify_order m id p q).0
    unfolding modify_order
    modify_order-AllManaged m id p q v = elim (Option-cases (lookup id m.orders)) [
      | inl e ↦ rw (e, modify_order) v
      | inr (o, e) ↦ elim (Option-cases (check_modify id o p q)) [
        | inl f ↦
            let kept = modify-IsManaged id q p o f (v id o e) in
            rw (e, modify_order)
              (rw (f, modify_order) (update_order-AllManaged m id (modify o p q) v kept))
        | inr (x, f) ↦ rw (e, modify_order) (rw (f, modify_order) v)
      ]
    ]

    remove_order-AllManaged :
        (m : OrderManager Price Level) (id : ℕ) → AllManaged m → AllManaged (remove_order m id).0
    unfolding remove_order
    remove_order-AllManaged m id v = elim (Option-cases (lookup id m.orders)) [
      | inl e ↦ rw (e, remove_order) v
      | inr (o, e) ↦ rw (e, remove_order) (Each-erase IsManaged id m.orders v)
    ]

    update_order_status-AllManaged :
        (m : OrderManager Price Level) (id : ℕ) (status : OrderStatus)
        → AllManaged m
        → AllManaged (update_order_status m id status)
    unfolding update_order_status
    update_order_status-AllManaged m id status v = elim (Option-cases (lookup id m.orders)) [
      | inl e ↦ rw (e, update_order_status) v
      | inr (o, e) ↦
          rw (e, update_order_status)
            (update_order-AllManaged m id (record o { status = status }) v
              (ground (arith, v id o e)))
    ]

    fill_order-AllManaged :
        (m : OrderManager Price Level) (id q : ℕ)
        → IsCareful m (fills id q)
        → AllManaged m
        → AllManaged (fill_order m id q).0
    unfolding fill_order
    fill_order-AllManaged m id q h v = elim (Option-cases (lookup id m.orders)) [
      | inl e ↦ rw (e, fill_order) v
      | inr (o, e) ↦
          rw (e, fill_order)
            (update_order-AllManaged m id (fill o q) v (fill-IsManaged id q o (h o e) (v id o e)))
    ]

    set_order_location-orders :
        (m : OrderManager Price Level) (id : ℕ) (l : OrderLocation Level)
        → (set_order_location m id l).orders ≡ m.orders
    unfolding set_order_location
    set_order_location-orders m id l = ground arith

    step-AllManaged :
        (m : OrderManager Price Level) (c : Call Price Level)
        → IsCareful m c
        → AllManaged m
        → AllManaged (step m c)
    unfolding step get_next_order_id
    step-AllManaged m (adds o) h v = add_order-AllManaged m o v
    step-AllManaged m (cancels id) h v = cancel_order-AllManaged m id v
    step-AllManaged m (modifies id p q) h v = modify_order-AllManaged m id p q v
    step-AllManaged m (removes id) h v = remove_order-AllManaged m id v
    step-AllManaged m (locates id l) h v = rw (set_order_location-orders m id l) v
    step-AllManaged m (sets_status id status) h v = update_order_status-AllManaged m id status v
    step-AllManaged m (fills id q) h v = fill_order-AllManaged m id q h v
    step-AllManaged m takes_id h v = v
    step-AllManaged m clears h v = empty-AllManaged

    -- If every order under management stands under its own id, is filled by no more than its
    -- quantity, which fits 64 bits, and has a valid price, a quantity above zero and a valid
    -- symbol, then so after any calls of which none fills an order by more than what remains of it
    -- at that time.
    pub run-AllManaged :
        (m : OrderManager Price Level) (cs : List (Call Price Level))
        → AllCareful m cs
        → AllManaged m
        → AllManaged (run m cs)
    unfolding run
    run-AllManaged m [] h v = v
    run-AllManaged m (c ∷ cs) h v = run-AllManaged (step m c) cs h.1 (step-AllManaged m c h.0 v)
