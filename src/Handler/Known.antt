-- ===== src/Handler/Known.antt =====
-- The client ids of src/Network/FixMessageHandler.cpp name orders that the order manager has.
use financial_order_book.Prelude.{
  ℕ, ◌≡◌, refl, sym, ◌∙◌, subst, Bool, true, false, List, Option, none, some, ◌==◌, ==_iff,
  Bool-cases, Option-cases, inl, inr, if◌then◌else◌,
}
use financial_order_book.Prelude.Double.{Double}
use financial_order_book.Prelude.Map.{
  lookup, insert, erase, nat_key, bytes_key, Each, Each-insert, lookup-insert, lookup-erase,
}
use financial_order_book.Prelude.Text.{Bytes, bytes_eq}
use financial_order_book.Types.{Side, Result, success, error}
use financial_order_book.Order.{Order, is_active, cancel, modify}
use financial_order_book.Manager.Calls.{Adds}
use financial_order_book.Manager.{
  OrderManager, ManagerError, get_order, modify_order, cancel_order, check_modify,
}
use financial_order_book.Session.{Session}
use financial_order_book.Fix.Generate.{FixReport}
use financial_order_book.Handler.{
  Handler, has_session, send_report, send_for, send_execution, send_rejection,
}
use financial_order_book.Handler.Requests.{link, confirm}

module _ {Price Level : Type 0} where
  -- The manager has an order under the id.
  abbrev pub Has : OrderManager Price Level → ℕ → Type 0
  Has m id = (o : Order Price) × (get_order m id ≡ some o)

  abbrev pub Grows : OrderManager Price Level → OrderManager Price Level → Type 0
  Grows m m' = (id : ℕ) → Has m id → Has m' id

  Has-insert :
      (m : OrderManager Price Level) (k : ℕ) (o : Order Price) (id : ℕ)
      → Has m id
      → Has (record m { orders = insert k o m.orders }) id
  unfolding get_order
  Has-insert m k o id (p, e) = elim (Bool-cases (k == id)) [
    | inl same ↦ (o, rw (lookup-insert k id o m.orders, same) refl)
    | inr other ↦ (p, rw (lookup-insert k id o m.orders, other) e)
  ]

  pub cancel_order-Grows : (m : OrderManager Price Level) (id : ℕ) → Grows m (cancel_order m id).0
  unfolding cancel_order get_order
  cancel_order-Grows m id j h = elim (Option-cases (lookup id m.orders)) [
    | inl e ↦ rw (e, cancel_order) h
    | inr (o, e) ↦ elim (Bool-cases (is_active o)) [
      | inl f ↦ rw (e, f, cancel_order) (Has-insert m id (cancel o) j h)
      | inr f ↦ rw (e, f, cancel_order) h
    ]
  ]

  module _ ⦃d : Double Price⦄ where
    pub modify_order-Grows :
        (m : OrderManager Price Level) (id : ℕ) (p : Price) (q : ℕ)
        → Grows m (modify_order m id p q).0
    unfolding modify_order get_order
    modify_order-Grows m id p q j h = elim (Option-cases (lookup id m.orders)) [
      | inl e ↦ rw (e, modify_order) h
      | inr (o, e) ↦ elim (Option-cases (check_modify id o p q)) [
        | inl f ↦ rw (e, f, modify_order) (Has-insert m id (modify o p q) j h)
        | inr (x, f) ↦ rw (e, f, modify_order) h
      ]
    ]

    pub Adds-Grows :
        (m : OrderManager Price Level) (o : Order Price)
        (r : OrderManager Price Level × Result (ManagerError Price) ℕ)
        → Adds m o r
        → Grows m r.0
    Adds-Grows m o r (Adds.invalid e x) j h = h
    Adds-Grows m o r (Adds.taken b old x y) j h = h
    Adds-Grows m o r (Adds.added b m' x y now l n) j (p, e) = elim (Bool-cases (o.id == j)) [
      | inl same ↦ (o, now j ∙ rw same refl)
      | inr other ↦ (p, now j ∙ rw other e)
    ]

    Adds-Has :
        (m m' : OrderManager Price Level) (o : Order Price)
        → ((j : ℕ) → get_order m' j ≡ (if o.id == j then some o else get_order m j))
        → Has m' o.id
    Adds-Has m m' o now = (o, now o.id ∙ rw ((==_iff o.id o.id).1 refl) refl)

    -- A manager that has said yes has the order.
    abbrev pub Added :
        Order Price → OrderManager Price Level × Result (ManagerError Price) ℕ → Type 0
    Added o (m, success id) = Has m o.id
    Added o (m, error e) = Unit

    pub Adds-Added :
        (m : OrderManager Price Level) (o : Order Price)
        (r : OrderManager Price Level × Result (ManagerError Price) ℕ)
        → Adds m o r
        → Added o r
    Adds-Added m o r (Adds.invalid e x) = tt
    Adds-Added m o r (Adds.taken b old x y) = tt
    Adds-Added m o r (Adds.added b m' x y now l n) = Adds-Has m m' o now

module _ {Price Level : Type 0} where
  -- Each client id names an order of the manager.
  abbrev pub AllKnown : OrderManager Price Level → List (Bytes × ℕ) → Type 0
  AllKnown m ids = Each (λ c id. Has m id) ids

  pub AllKnown-Grows :
      (m m' : OrderManager Price Level) (ids : List (Bytes × ℕ))
      → Grows m m'
      → AllKnown m ids
      → AllKnown m' ids
  AllKnown-Grows m m' ids g k c id e = g id (k c id e)

  -- What was entered for a client id is taken back.
  pub AllKnown-undone :
      (m : OrderManager Price Level) (c : Bytes) (id : ℕ) (ids : List (Bytes × ℕ))
      → AllKnown m ids
      → AllKnown m (erase c (insert c id ids))
  AllKnown-undone m c id ids k j n e = elim (Bool-cases (bytes_eq c j)) [
    | inl same ↦ cc (rw (lookup-erase c j (insert c id ids), same) at e)
    | inr other ↦
        k j n (rw (lookup-erase c j (insert c id ids), other, lookup-insert c j id ids, other) at e)
  ]

module _ {Price Time Level : Type 0} where
  abbrev pub IsKnown : Handler Price Time Level → Type 0
  IsKnown h = AllKnown h.manager h.order_ids

  -- Two handlers with the same orders and client ids.
  pub record SameIds (h h' : Handler Price Time Level) : Type 0 where
    pub manager_same : h'.manager ≡ h.manager
    pub order_ids_same : h'.order_ids ≡ h.order_ids

  pub same-IsKnown : {h h' : Handler Price Time Level} → SameIds h h' → IsKnown h → IsKnown h'
  same-IsKnown {h = h} {h' = h'} e k =
      subst (λ m. AllKnown m h'.order_ids) (sym e.manager_same)
        (subst (λ ids. AllKnown h.manager ids) (sym e.order_ids_same) k)

  module _ ⦃d : Double Price⦄ (now : Bytes) where
    send_report-SameIds :
        (h : Handler Price Time Level) (s : Option (Session Price Time)) (r : ℕ → FixReport Price)
        → SameIds h (send_report now h s r)
    send_report-SameIds h none r = record { manager_same = refl; order_ids_same = refl }
    send_report-SameIds h (some s) r = record { manager_same = refl; order_ids_same = refl }

    if-SameIds :
        (h h' : Handler Price Time Level) (b : Bool)
        → SameIds h h'
        → SameIds h (if b then h' else h)
    if-SameIds h h' true e = e
    if-SameIds h h' false e = record { manager_same = refl; order_ids_same = refl }

    pub send_execution-SameIds :
        (h : Handler Price Time Level) (o : Order Price) (e q : ℕ) (p : Price)
        → SameIds h (send_execution now h o e q p)
    unfolding send_execution
    send_execution-SameIds h o e q p =
        if-SameIds h _ (has_session h.session) (found (lookup o.id h.cl_ord_ids))
      where
        found : (c : Option Bytes) → SameIds h (send_for now h o e q p c)
        found none = record { manager_same = refl; order_ids_same = refl }
        found (some c) = send_report-SameIds h h.session _

    pub send_rejection-SameIds :
        (h : Handler Price Time Level) (c symbol : Bytes) (side : Side)
        → SameIds h (send_rejection now h c symbol side)
    unfolding send_rejection
    send_rejection-SameIds h c symbol side =
        if-SameIds h _ (has_session h.session) (send_report-SameIds h h.session _)

    pub confirm-SameIds :
        (h : Handler Price Time Level) (e : ℕ) (o : Option (Order Price))
        → SameIds h (confirm now h e o)
    confirm-SameIds h e none = record { manager_same = refl; order_ids_same = refl }
    confirm-SameIds h e (some o) = send_execution-SameIds h o e 0 d.nought

    -- A client id that is entered for an order that the manager has.
    pub link-IsKnown :
        (h : Handler Price Time Level) (c : Bytes) (id : ℕ)
        → Has h.manager id
        → IsKnown h
        → IsKnown (link h c id)
    unfolding link
    link-IsKnown h c id has k = Each-insert (λ x n. Has h.manager n) c id h.order_ids k has
