-- ===== src/Manager/Modifying.antt =====
-- What `OrderManager::modifyOrder` does on each of its branches.
use financial_order_book.Prelude.{
  ℕ, ◌+◌, ◌<◌, ◌≤◌, ltb, leb, ◌&&◌, ◌≡◌, refl, sym, ap, ◌∙◌, subst, inl, inr, Bool, true, false,
  ◌==◌, none, some, arith, Bool-cases, Option-cases, if◌then◌else◌,
}
use financial_order_book.Prelude.Double.{Double}
use financial_order_book.Prelude.Map.{lookup, nat_key, lookup-insert}
use financial_order_book.Types.{Result, success, error, u64}
use financial_order_book.Order.{Order, is_active, modify}
use financial_order_book.Manager.{
  ManagerError, OrderManager, check_modify, modify_order, get_order, get_active_order_count,
  not_found, not_active, update_order, is_valid_price, invalid_price, invalid_quantity,
  below_filled,
}
use financial_order_book.Manager.Calls.{count_active-insert}

module _ {Price : Type 0} ⦃d : Double Price⦄ where
  -- An order with new terms: zero stands for a term that is kept. Nothing else of it changes.
  abbrev pub with_terms : Order Price → Price → ℕ → Order Price
  with_terms o p q = record o {
    price = if d.lt d.nought p then p else o.price;
    quantity = if ltb 0 q then q else o.quantity;
  }

module _ {Price Level : Type 0} ⦃d : Double Price⦄ where
  -- `modifyOrder` of `id` to price `p` and quantity `q` from `m`: refused, with nothing changed, as
  -- the order is missing, not active, the price given is not valid, the quantity has no place
  -- below 2 ^ 64 - 1, or is given and below what was filled; or carried out, and then that order
  -- has the new terms and keeps its status, and the other orders, the locations, the next id and
  -- the count of active orders are as before.
  pub data Modifies (m : OrderManager Price Level) (id : ℕ) (p : Price) (q : ℕ)
      : OrderManager Price Level × Result (ManagerError Price) Bool → Type 0 where
    missing : get_order m id ≡ none → Modifies m id p q (m, error (not_found id))
    inactive :
        (o : Order Price)
        → get_order m id ≡ some o
        → is_active o ≡ false
        → Modifies m id p q (m, error (not_active id))
    price_refused :
        (o : Order Price)
        → get_order m id ≡ some o
        → is_active o ≡ true
        → d.lt d.nought p ≡ true
        → is_valid_price p ≡ false
        → Modifies m id p q (m, error (invalid_price p))
    quantity_refused :
        (o : Order Price)
        → get_order m id ≡ some o
        → is_active o ≡ true
        → (d.lt d.nought p ≡ true → is_valid_price p ≡ true)
        → u64 ≤ q + 1
        → Modifies m id p q (m, error (invalid_quantity q))
    too_small :
        (o : Order Price)
        → get_order m id ≡ some o
        → is_active o ≡ true
        → (d.lt d.nought p ≡ true → is_valid_price p ≡ true)
        → 0 < q
        → q + 1 < u64
        → q < o.filled_quantity
        → Modifies m id p q (m, error (below_filled q o.filled_quantity))
    modified :
        (o : Order Price) (m' : OrderManager Price Level)
        → get_order m id ≡ some o
        → is_active o ≡ true
        → (d.lt d.nought p ≡ true → is_valid_price p ≡ true)
        → q + 1 < u64
        → (0 < q → o.filled_quantity ≤ q)
        → ((j : ℕ) → get_order m' j ≡ (if id == j then some (with_terms o p q) else get_order m j))
        → m'.order_locations ≡ m.order_locations
        → m'.next_order_id ≡ m.next_order_id
        → get_active_order_count m' ≡ get_active_order_count m
        → Modifies m id p q (m', success true)

  refused :
      (m : OrderManager Price Level) (id : ℕ) (p : Price) (q : ℕ) (o : Order Price)
      (e : ManagerError Price)
      → lookup id m.orders ≡ some o
      → check_modify id o p q ≡ some e
      → modify_order m id p q ≡ (m, error e)
  unfolding modify_order
  refused m id p q o e f g = rw (f, modify_order) (rw (g, modify_order))

  accepted :
      (m : OrderManager Price Level) (id : ℕ) (p : Price) (q : ℕ) (o : Order Price)
      → lookup id m.orders ≡ some o
      → check_modify id o p q ≡ none
      → modify_order m id p q ≡ (update_order m id (modify o p q), success true)
  unfolding modify_order
  accepted m id p q o f g = rw (f, modify_order) (rw (g, modify_order))

  accepted-Modifies :
      (m : OrderManager Price Level) (id : ℕ) (p : Price) (q : ℕ) (o : Order Price)
      → lookup id m.orders ≡ some o
      → is_active o ≡ true
      → (d.lt d.nought p ≡ true → is_valid_price p ≡ true)
      → q + 1 < u64
      → (0 < q → o.filled_quantity ≤ q)
      → Modifies m id p q (modify_order m id p q)
  unfolding get_order
  accepted-Modifies m id p q o f active price small above =
      let passes : check_modify id o p q ≡ none = unfold check_modify in ground arith in
      let terms : modify o p q ≡ with_terms o p q = unfold modify in ground arith in
      let still : is_active (modify o p q) ≡ true = unfold modify in ground arith in
      subst (λ r. Modifies m id p q r) (sym (accepted m id p q o f passes))
        (modified o (update_order m id (modify o p q)) f active price small above
          (λ j.
            lookup-insert id j (modify o p q) m.orders
            ∙ ap (λ x. if id == j then some x else lookup j m.orders) terms)
          refl refl (grind (arith, count_active-insert id o (modify o p q) m.orders f)))

  as_refused :
      (m : OrderManager Price Level) (id : ℕ) (p : Price) (q : ℕ) (o : Order Price)
      (e : ManagerError Price)
      → lookup id m.orders ≡ some o
      → check_modify id o p q ≡ some e
      → Modifies m id p q (m, error e)
      → Modifies m id p q (modify_order m id p q)
  as_refused m id p q o e f g h =
      subst (λ r. Modifies m id p q r) (sym (refused m id p q o e f g)) h

  -- What follows where the order is active and the price is not refused.
  quantity_checked :
      (m : OrderManager Price Level) (id : ℕ) (p : Price) (q : ℕ) (o : Order Price)
      → lookup id m.orders ≡ some o
      → is_active o ≡ true
      → (d.lt d.nought p ≡ true → is_valid_price p ≡ true)
      → Modifies m id p q (modify_order m id p q)
  unfolding get_order
  quantity_checked m id p q o e active price = elim (Bool-cases (leb u64 (q + 1))) [
    | inl large ↦
        as_refused m id p q o (invalid_quantity q) e (unfold check_modify in ground arith)
          (quantity_refused o e active price (ground arith))
    | inr fits ↦ elim (Bool-cases (ltb 0 q && ltb q o.filled_quantity)) [
      | inl low ↦
          as_refused m id p q o (below_filled q o.filled_quantity) e
            (unfold check_modify in ground arith)
            (too_small o e active price (ground arith) (ground arith) (ground arith))
      | inr enough ↦ accepted-Modifies m id p q o e active price (ground arith) (λ h. ground arith)
    ]
  ]

  checked :
      (m : OrderManager Price Level) (id : ℕ) (p : Price) (q : ℕ) (o : Order Price)
      → lookup id m.orders ≡ some o
      → is_active o ≡ true
      → Modifies m id p q (modify_order m id p q)
  unfolding get_order
  checked m id p q o e active = elim (Bool-cases (d.lt d.nought p)) [
    | inr kept ↦ quantity_checked m id p q o e active (λ h. cc (h, kept))
    | inl given ↦ elim (Bool-cases (is_valid_price p)) [
      | inl valid ↦ quantity_checked m id p q o e active (λ h. valid)
      | inr bad ↦
          as_refused m id p q o (invalid_price p) e (unfold check_modify in ground arith)
            (price_refused o e active given bad)
    ]
  ]

  -- Each call of `modifyOrder` is one of the six.
  pub modify_order_lem :
      (m : OrderManager Price Level) (id : ℕ) (p : Price) (q : ℕ)
      → Modifies m id p q (modify_order m id p q)
  unfolding get_order modify_order
  modify_order_lem m id p q = elim (Option-cases (lookup id m.orders)) [
    | inl e ↦ rw (e, modify_order) (missing e)
    | inr (o, e) ↦ elim (Bool-cases (is_active o)) [
      | inr idle ↦
          as_refused m id p q o (not_active id) e (unfold check_modify in ground arith)
            (inactive o e idle)
      | inl active ↦ checked m id p q o e active
    ]
  ]
