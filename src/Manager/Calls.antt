-- ===== src/Manager/Calls.antt =====
-- What each call of the order manager does, on success and on failure.
use financial_order_book.Prelude.{
  ℕ, ◌+◌, ◌<◌, ◌≡◌, refl, ◌⊎◌, inl, inr, Bool, true, false, ◌==◌, List, [], ◌∷◌, none, some, arith,
  Bool-cases, Option-cases, if◌then◌else◌,
}
use financial_order_book.Prelude.Double.{Double}
use financial_order_book.Prelude.Map.{
  lookup, insert, nat_key, lookup-insert, lookup-erase, lookup-insert_self,
}
use financial_order_book.Types.{Result, success, error}
use financial_order_book.Order.{Order, is_active, remaining_quantity, cancel, modify}
use financial_order_book.Order.Fill.{IsSound}
use financial_order_book.Manager.{
  ManagerError, OrderManager, validate_order, check_modify, add_order, store_order, cancel_order,
  modify_order, get_order, count_active, get_active_order_count, cancelled_at, not_found,
  not_active, already_exists, update_order,
}

module _ {Price Level : Type 0} ⦃d : Double Price⦄ where
  -- `addOrder` of order `o` from `m`: refused, with nothing changed, because the order is not
  -- valid or its id is taken; or carried out, and then the manager has `o` under its id and any
  -- other order as before, and keeps locations and the id counter.
  pub data Adds (m : OrderManager Price Level) (o : Order Price)
      : OrderManager Price Level × Result (ManagerError Price) ℕ → Type 0 where
    invalid : (e : ManagerError Price) → validate_order o ≡ error e → Adds m o (m, error e)
    taken :
        (b : Bool) (old : Order Price)
        → validate_order o ≡ success b
        → get_order m o.id ≡ some old
        → Adds m o (m, error (already_exists o.id))
    added :
        (b : Bool) (m' : OrderManager Price Level)
        → validate_order o ≡ success b
        → get_order m o.id ≡ none
        → ((j : ℕ) → get_order m' j ≡ (if o.id == j then some o else get_order m j))
        → m'.order_locations ≡ m.order_locations
        → m'.next_order_id ≡ m.next_order_id
        → Adds m o (m', success o.id)

  store_order-Adds :
      (m : OrderManager Price Level) (o : Order Price) (b : Bool)
      → validate_order o ≡ success b
      → Adds m o (store_order m o)
  unfolding store_order get_order
  store_order-Adds m o b h = elim (Option-cases (lookup o.id m.orders)) [
    | inl e ↦
        rw (e, store_order)
          (added b (update_order m o.id o) h e (λ j. lookup-insert o.id j o m.orders) refl refl)
    | inr (old, e) ↦ rw (e, store_order) (taken b old h e)
  ]

  -- Each call of `addOrder` with an order is one of the three.
  pub add_order-Adds :
      (m : OrderManager Price Level) (o : Order Price) → Adds m o (add_order m (some o))
  unfolding add_order
  add_order-Adds m o = go (validate_order o) refl
    where
      go :
          (r : Result (ManagerError Price) Bool)
          → validate_order o ≡ r
          → Adds m o (add_order m (some o))
      go (error x) e = rw (e, add_order) (invalid x e)
      go (success b) e = rw (e, add_order) (store_order-Adds m o b e)

pub count_active-insert :
    {Price : Type 0} (k : ℕ) (o v : Order Price) (m : List (ℕ × Order Price))
    → lookup k m ≡ some o
    → count_active (insert k v m) + (if is_active o then 1 else 0)
      ≡ count_active m + (if is_active v then 1 else 0)
unfolding count_active insert lookup
count_active-insert k o v [] e = cc e
count_active-insert k o v ((j, w) ∷ m) e = ground (arith, count_active-insert k o v m)

module _ {Price Level : Type 0} where
  -- What `cancelOrder` comes to where it succeeds: the order was there and active. It is kept as
  -- a cancelled one, its location is forgotten, every other order and location stays, one active
  -- order less is counted, and a second call is refused and changes nothing.
  pub record Cancels (m : OrderManager Price Level) (id : ℕ) (m' : OrderManager Price Level)
      : Type 0 where
    pub order : Order Price
    pub was_there : get_order m id ≡ some order
    pub was_active : is_active order ≡ true
    pub orders_are :
        (j : ℕ) → get_order m' j ≡ (if id == j then some (cancel order) else get_order m j)
    pub locations_are :
        (j : ℕ)
        → lookup j m'.order_locations ≡ (if id == j then none else lookup j m.order_locations)
    pub counted : get_active_order_count m' + 1 ≡ get_active_order_count m
    pub again : cancel_order m' id ≡ (m', error (not_active id))

  cancelled-Cancels :
      (m : OrderManager Price Level) (id : ℕ) (o : Order Price)
      → lookup id m.orders ≡ some o
      → is_active o ≡ true
      → Cancels m id (cancelled_at m id o)
  unfolding get_order cancel_order
  cancelled-Cancels m id o e f = record {
    order = o;
    was_there = e;
    was_active = f;
    orders_are = λ j. lookup-insert id j (cancel o) m.orders;
    locations_are = λ j. lookup-erase id j m.order_locations;
    counted = ground (arith, count_active-insert id o (cancel o) m.orders);
    again = rw (lookup-insert_self id (cancel o) m.orders, cancel_order);
  }

  -- `cancelOrder` fails, and changes nothing, where there is no order under the id or it is not
  -- active; otherwise it succeeds.
  pub cancel_order_lem :
      (m : OrderManager Price Level) (id : ℕ)
      → ((cancel_order m id ≡ (m, error (not_found id))) × (get_order m id ≡ none))
        ⊎ ((o : Order Price) × (cancel_order m id ≡ (m, error (not_active id)))
            × (get_order m id ≡ some o)
            × (is_active o ≡ false))
        ⊎ ((m' : OrderManager Price Level) × (cancel_order m id ≡ (m', success true))
            × Cancels m id m')
  unfolding cancel_order get_order
  cancel_order_lem m id = elim (Option-cases (lookup id m.orders)) [
    | inl e ↦ inl (rw (e, cancel_order), e)
    | inr (o, e) ↦ elim (Bool-cases (is_active o)) [
      | inr f ↦ inr (inl (o, rw (e, cancel_order) (rw f), e, f))
      | inl f ↦
          inr (inr (cancelled_at m id o, rw (e, cancel_order) (rw f), cancelled-Cancels m id o e f))
    ]
  ]

module _ {Price Level : Type 0} ⦃d : Double Price⦄ where
  -- An order that has been filled in part may be modified down to the quantity that was filled:
  -- it is then still counted as active, although nothing of it remains.
  pub modify_to_filled :
      (m : OrderManager Price Level) (id : ℕ) (p : Price) (o : Order Price)
      → get_order m id ≡ some o
      → is_active o ≡ true
      → IsSound o
      → 0 < o.filled_quantity
      → o.filled_quantity < o.quantity
      → d.lt d.nought p ≡ false
      → (o' : Order Price) × (get_order (modify_order m id p o.filled_quantity).0 id ≡ some o')
        × ((modify_order m id p o.filled_quantity).1 ≡ success true)
        × (remaining_quantity o' ≡ 0)
        × (is_active o' ≡ true)
  unfolding get_order modify_order
  modify_to_filled m id p o e f s pos part keep = (
    modify o p o.filled_quantity,
    rw (e, modify_order)
        (rw (passes, modify_order) (lookup-insert_self id (modify o p o.filled_quantity) m.orders)),
    rw (e, modify_order) (rw (passes, modify_order)),
    (unfold modify in ground arith),
    (unfold modify in ground arith),
  )
    where
      passes : check_modify id o p o.filled_quantity ≡ none
      passes = unfold check_modify in ground arith
