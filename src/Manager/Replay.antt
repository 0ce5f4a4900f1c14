-- ===== src/Manager/Replay.antt =====
-- The calls of src/Core/OrderManager.cpp are the updates of one function from ids to orders.
use mathlib.Core.Path.{fun_ext}
use financial_order_book.Prelude.{
  ℕ, arith, ◌≡◌, refl, ap, ◌∙◌, Bool, true, false, List, [], ◌∷◌, none, some, Bool-cases,
  Option-cases, inl, inr, if◌then◌else◌,
}
use financial_order_book.Prelude.Double.{Double}
use financial_order_book.Prelude.Map.{lookup, insert, nat_key, lookup-insert, lookup-erase}
use financial_order_book.Types.{OrderStatus, Result, success, error}
use financial_order_book.Level.{is_valid}
use financial_order_book.Order.{Order, is_active, cancel, modify, fill}
use financial_order_book.Manager.{
  OrderManager, ManagerError, Call, adds, cancels, modifies, removes, locates, sets_status, fills,
  takes_id, clears, get_order, add_order, store_order, cancel_order, modify_order, remove_order,
  update_order_status, fill_order, get_next_order_id, set_order_location, validate_order,
  check_modify, step, run,
}
use financial_order_book.Manager.Machine.{
  refusal, modify_answer, done, Entry, put, on_order, add_entry, unless_error, next, next_id,
  last_id, replay, answer_of, answers, reply, replies,
}

module _ {Price : Type 0} ⦃d : Double Price⦄ where
  pub check_modify-refusal :
      (id : ℕ) (o : Order Price) (p : Price) (q : ℕ) → check_modify id o p q ≡ refusal id p q o
  unfolding check_modify
  check_modify-refusal id o p q = ground arith

module _ {Price Level : Type 0} ⦃d : Double Price⦄ where
  -- Manager `m'` is `m` with the orders that entry `x` makes of them, and the same next id.
  record Makes (m : OrderManager Price Level) (x : Entry Price) (m' : OrderManager Price Level)
      : Type 0 where
    after : (j : ℕ) → lookup j m'.orders ≡ put x (λ i. lookup i m.orders) j
    same_id : m'.next_order_id ≡ m.next_order_id

  unchanged : (m : OrderManager Price Level) → Makes m none m
  unchanged m = record { after = λ j. refl; same_id = refl }

  inserted :
      (m m' : OrderManager Price Level) (id : ℕ) (o : Order Price)
      → m'.orders ≡ insert id o m.orders
      → m'.next_order_id ≡ m.next_order_id
      → Makes m (some (id, some o)) m'
  inserted m m' id o e n = record {
    after = λ j. ap (lookup j) e ∙ lookup-insert id j o m.orders;
    same_id = n;
  }

  add-Makes :
      (m : OrderManager Price Level) (o : Order Price)
      → (let r = add_order m (some o) in
          Makes m (add_entry (validate_order o) (lookup o.id m.orders) o) r.0)
  unfolding add_order store_order
  add-Makes m o = go (validate_order o) refl
    where
      go :
          (r : Result (ManagerError Price) Bool)
          → validate_order o ≡ r
          → (let r = add_order m (some o) in
              Makes m (add_entry (validate_order o) (lookup o.id m.orders) o) r.0)
      go (error x) e = rw (e, add_order) (unchanged m)
      go (success b) e = elim (Option-cases (lookup o.id m.orders)) [
        | inl f ↦ rw (e, f, add_order, store_order) (inserted m _ o.id o refl refl)
        | inr (old, f) ↦ rw (e, f, add_order, store_order) (unchanged m)
      ]

  cancel-Makes :
      (m : OrderManager Price Level) (id : ℕ)
      → (let r = cancel_order m id in
          Makes m
            (on_order
              (λ o. if is_active o then some (id, some (cancel o)) else none)
              (lookup id m.orders))
            r.0)
  unfolding cancel_order
  cancel-Makes m id = elim (Option-cases (lookup id m.orders)) [
    | inl e ↦ rw (e, cancel_order) (unchanged m)
    | inr (o, e) ↦ elim (Bool-cases (is_active o)) [
      | inl f ↦ rw (e, f, cancel_order) (inserted m _ id (cancel o) refl refl)
      | inr f ↦ rw (e, f, cancel_order) (unchanged m)
    ]
  ]

  modify-Makes :
      (m : OrderManager Price Level) (id : ℕ) (p : Price) (q : ℕ)
      → (let r = modify_order m id p q in
          Makes m
            (on_order
              (λ o. unless_error (refusal id p q o) (some (id, some (modify o p q))))
              (lookup id m.orders))
            r.0)
  unfolding modify_order
  modify-Makes m id p q = elim (Option-cases (lookup id m.orders)) [
    | inl e ↦ rw (e, modify_order) (unchanged m)
    | inr (o, e) ↦ elim (Option-cases (refusal id p q o)) [
      | inl f ↦
          rw (e, check_modify-refusal id o p q, f, modify_order)
            (inserted m _ id (modify o p q) refl refl)
      | inr (x, f) ↦ rw (e, check_modify-refusal id o p q, f, modify_order) (unchanged m)
    ]
  ]

  remove-Makes :
      (m : OrderManager Price Level) (id : ℕ)
      → (let r = remove_order m id in
          Makes m (on_order (λ o. some (id, none)) (lookup id m.orders)) r.0)
  unfolding remove_order
  remove-Makes m id = elim (Option-cases (lookup id m.orders)) [
    | inl e ↦ rw (e, remove_order) (unchanged m)
    | inr (o, e) ↦
        rw (e, remove_order) (record { after = λ j. lookup-erase id j m.orders; same_id = refl })
  ]

  status-Makes :
      (m : OrderManager Price Level) (id : ℕ) (s : OrderStatus)
      → Makes m
          (on_order (λ o. some (id, some (record o { status = s }))) (lookup id m.orders))
          (update_order_status m id s)
  unfolding update_order_status
  status-Makes m id s = elim (Option-cases (lookup id m.orders)) [
    | inl e ↦ rw (e, update_order_status) (unchanged m)
    | inr (o, e) ↦ rw (e, update_order_status) (inserted m _ id (record o { status = s }) refl refl)
  ]

  fill-Makes :
      (m : OrderManager Price Level) (id q : ℕ)
      → Makes m
          (on_order (λ o. some (id, some (fill o q))) (lookup id m.orders))
          (fill_order m id q).0
  unfolding fill_order
  fill-Makes m id q = elim (Option-cases (lookup id m.orders)) [
    | inl e ↦ rw (e, fill_order) (unchanged m)
    | inr (o, e) ↦ rw (e, fill_order) (inserted m _ id (fill o q) refl refl)
  ]

  step-next :
      (m : OrderManager Price Level) (c : Call Price Level) (j : ℕ)
      → get_order (step m c) j ≡ next (get_order m) c j
  unfolding step get_order get_next_order_id add_order set_order_location lookup
  step-next m (adds none) j = refl
  step-next m (adds (some o)) j = (add-Makes m o).after j
  step-next m (cancels id) j = (cancel-Makes m id).after j
  step-next m (modifies id p q) j = (modify-Makes m id p q).after j
  step-next m (removes id) j = (remove-Makes m id).after j
  step-next m (locates id l) j = located-same (is_valid l)
    where
      located-same :
          (b : Bool)
          → lookup j
              (if b then record m { order_locations = insert id l m.order_locations } else m).orders
            ≡ lookup j m.orders
      located-same true = refl
      located-same false = refl
  step-next m (sets_status id s) j = (status-Makes m id s).after j
  step-next m (fills id q) j = (fill-Makes m id q).after j
  step-next m takes_id j = refl
  step-next m clears j = refl

  step-next_id :
      (m : OrderManager Price Level) (c : Call Price Level)
      → (step m c).next_order_id ≡ next_id m.next_order_id c
  unfolding step add_order set_order_location get_next_order_id
  step-next_id m (adds none) = refl
  step-next_id m (adds (some o)) = (add-Makes m o).same_id
  step-next_id m (cancels id) = (cancel-Makes m id).same_id
  step-next_id m (modifies id p q) = (modify-Makes m id p q).same_id
  step-next_id m (removes id) = (remove-Makes m id).same_id
  step-next_id m (locates id l) = ground arith
  step-next_id m (sets_status id s) = (status-Makes m id s).same_id
  step-next_id m (fills id q) = (fill-Makes m id q).same_id
  step-next_id m takes_id = refl
  step-next_id m clears = refl

  modify-answers :
      (m : OrderManager Price Level) (id : ℕ) (p : Price) (q : ℕ)
      → (modify_order m id p q).1 ≡ modify_answer id p q (lookup id m.orders)
  unfolding modify_order
  modify-answers m id p q = elim (Option-cases (lookup id m.orders)) [
    | inl e ↦ rw (e, modify_order) refl
    | inr (o, e) ↦ elim (Option-cases (refusal id p q o)) [
      | inl f ↦ rw (e, check_modify-refusal id o p q, f, modify_order) refl
      | inr (x, f) ↦ rw (e, check_modify-refusal id o p q, f, modify_order) refl
    ]
  ]

  reply-answer_of :
      (m : OrderManager Price Level) (c : Call Price Level)
      → reply m c ≡ answer_of (get_order m) m.next_order_id c
  unfolding get_order get_next_order_id add_order store_order cancel_order modify_order remove_order
      fill_order
  reply-answer_of m (adds none) = refl
  reply-answer_of m (adds (some o)) = ground arith
  reply-answer_of m (cancels id) = ground arith
  reply-answer_of m (modifies id p q) = ap done (modify-answers m id p q)
  reply-answer_of m (removes id) = ground arith
  reply-answer_of m (fills id q) = ground arith
  reply-answer_of m (locates id l) = refl
  reply-answer_of m (sets_status id s) = refl
  reply-answer_of m takes_id = refl
  reply-answer_of m clears = refl

  -- Any sequence of calls of the manager is the same sequence of updates of one function from ids
  -- to orders and of the next id: the orders read the same afterwards, the next id is the same,
  -- and each call returns the same value, an error, an order or an id as it is. A call changes at
  -- most the entry of its own id, or clears them all.
  pub run-replay :
      (m : OrderManager Price Level) (cs : List (Call Price Level))
      → (get_order (run m cs) ≡ replay (get_order m) cs)
        × ((run m cs).next_order_id ≡ last_id m.next_order_id cs)
        × (replies m cs ≡ answers (get_order m) m.next_order_id cs)
  unfolding run
  run-replay m [] = (refl, refl, refl)
  run-replay m (c ∷ cs) =
      let f = fun_ext (step-next m c) in
      let n = step-next_id m c in
      let r = run-replay (step m c) cs in
      (
        r.0 ∙ ap (λ g. replay g cs) f,
        r.1 ∙ ap (λ k. last_id k cs) n,
        ap (λ rs. reply m c ∷ rs) (r.2 ∙ rw (f, n) refl)
            ∙ ap (λ a. a ∷ answers (next (get_order m) c) (next_id m.next_order_id c) cs)
                (reply-answer_of m c),
      )
