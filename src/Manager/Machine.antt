-- ===== src/Manager/Machine.antt =====
-- src/Core/OrderManager.cpp as a function from ids to orders and the next id: the hash map and the
-- locations are forgotten.
use financial_order_book.Prelude.{
  ℕ, suc, ◌-◌, leb, not, ◌&&◌, Bool, true, false, List, [], ◌∷◌, Option, none, some, ◌==◌,
  if◌then◌else◌,
}
use financial_order_book.Prelude.Double.{Double}
use financial_order_book.Prelude.Map.{nat_key}
use financial_order_book.Types.{Result, success, error, add64, u64}
use financial_order_book.Order.{Order, is_active, cancel, modify, fill}
use financial_order_book.Manager.{
  OrderManager, ManagerError, Call, adds, cancels, modifies, removes, locates, sets_status, fills,
  takes_id, clears, add_order, cancel_order, modify_order, remove_order, validate_order, step,
  fill_order, get_next_order_id, null_order, is_valid_price, invalid_price, invalid_quantity,
  below_filled, already_exists, not_found, not_active,
}

-- What a call returns. `nothing` is that of a call without a result.
pub data Answer (Price : Type 0) : Type 0 where
  added : Result (ManagerError Price) ℕ → Answer Price
  done : Result (ManagerError Price) Bool → Answer Price
  removed : Option (Order Price) → Answer Price
  is_filled : Bool → Answer Price
  id_is : ℕ → Answer Price
  nothing : Answer Price

abbrev pub Orders : Type 0 → Type 0
Orders Price = ℕ → Option (Order Price)

abbrev pub Entry : Type 0 → Type 0
Entry Price = Option (ℕ × Option (Order Price))

-- What a call changes: one entry, or nothing where it is refused.
module _ {Price : Type 0} where
  abbrev pub put : Entry Price → Orders Price → Orders Price
  put none f = f
  put (some (k, v)) f = λ j. if k == j then v else f j

  abbrev pub on_order : (Order Price → Entry Price) → Option (Order Price) → Entry Price
  on_order g none = none
  on_order g (some o) = g o

  abbrev pub add_entry :
      Result (ManagerError Price) Bool → Option (Order Price) → Order Price → Entry Price
  add_entry (error e) old o = none
  add_entry (success b) (some old) o = none
  add_entry (success b) none o = some (o.id, some o)

  abbrev pub unless_error : Option (ManagerError Price) → Entry Price → Entry Price
  unless_error none x = x
  unless_error (some e) x = none

  module _ ⦃d : Double Price⦄ where
    -- The tests of a modification, in their order: the first that holds gives the error.
    abbrev pub tests_of : ℕ → Price → ℕ → Order Price → List (Bool × ManagerError Price)
    tests_of id p q o =
        (not (is_active o), not_active id)
        ∷ (d.lt d.nought p && not (is_valid_price p), invalid_price p)
        ∷ (leb 1 q && leb (u64 - 1) q, invalid_quantity q)
        ∷ (leb 1 q && leb (suc q) o.filled_quantity, below_filled q o.filled_quantity)
        ∷ []

    abbrev pub first_error : List (Bool × ManagerError Price) → Option (ManagerError Price)
    first_error [] = none
    first_error ((b, e) ∷ rest) = let later = first_error rest in if b then some e else later

    abbrev pub refusal : ℕ → Price → ℕ → Order Price → Option (ManagerError Price)
    refusal id p q o = first_error (tests_of id p q o)

    abbrev pub entry_of : {Level : Type 0} → Orders Price → Call Price Level → Entry Price
    entry_of f (adds none) = none
    entry_of f (adds (some o)) = add_entry (validate_order o) (f o.id) o
    entry_of f (cancels id) =
        on_order (λ o. if is_active o then some (id, some (cancel o)) else none) (f id)
    entry_of f (modifies id p q) =
        on_order (λ o. unless_error (refusal id p q o) (some (id, some (modify o p q)))) (f id)
    entry_of f (removes id) = on_order (λ o. some (id, none)) (f id)
    entry_of f (locates id l) = none
    entry_of f (sets_status id s) = on_order (λ o. some (id, some (record o { status = s }))) (f id)
    entry_of f (fills id q) = on_order (λ o. some (id, some (fill o q))) (f id)
    entry_of f takes_id = none
    entry_of f clears = none

    -- What the caller is told, from the order under the id alone.
    abbrev pub add_answer :
        Result (ManagerError Price) Bool
        → Option (Order Price)
        → Order Price
        → Result (ManagerError Price) ℕ
    add_answer (error e) old o = error e
    add_answer (success b) (some old) o = error (already_exists o.id)
    add_answer (success b) none o = success o.id

    abbrev pub cancel_answer : ℕ → Option (Order Price) → Result (ManagerError Price) Bool
    cancel_answer id none = error (not_found id)
    cancel_answer id (some o) = if is_active o then success true else error (not_active id)

    abbrev pub unless : Option (ManagerError Price) → Result (ManagerError Price) Bool
    unless none = success true
    unless (some e) = error e

    abbrev pub modify_answer :
        ℕ → Price → ℕ → Option (Order Price) → Result (ManagerError Price) Bool
    modify_answer id p q none = error (not_found id)
    modify_answer id p q (some o) = unless (refusal id p q o)

    -- Whether the order is filled once `q` more of it is.
    abbrev pub fill_answer : ℕ → Option (Order Price) → Bool
    fill_answer q none = false
    fill_answer q (some o) = leb (fill o q).quantity (fill o q).filled_quantity

    abbrev pub answer_of : {Level : Type 0} → Orders Price → ℕ → Call Price Level → Answer Price
    answer_of f n (adds none) = added (error null_order)
    answer_of f n (adds (some o)) = added (add_answer (validate_order o) (f o.id) o)
    answer_of f n (cancels id) = done (cancel_answer id (f id))
    answer_of f n (modifies id p q) = done (modify_answer id p q (f id))
    answer_of f n (removes id) = removed (f id)
    answer_of f n (locates id l) = nothing
    answer_of f n (sets_status id s) = nothing
    answer_of f n (fills id q) = is_filled (fill_answer q (f id))
    answer_of f n takes_id = id_is n
    answer_of f n clears = nothing

    abbrev pub next : {Level : Type 0} → Orders Price → Call Price Level → Orders Price
    next f clears = λ j. none
    next f c = put (entry_of f c) f

    abbrev pub replay : {Level : Type 0} → Orders Price → List (Call Price Level) → Orders Price
    replay f [] = f
    replay f (c ∷ cs) = replay (next f c) cs

    -- The id that is handed out next.
    abbrev pub next_id : {Level : Type 0} → ℕ → Call Price Level → ℕ
    next_id n takes_id = add64 n 1
    next_id n clears = 1
    next_id n c = n

    abbrev pub last_id : {Level : Type 0} → ℕ → List (Call Price Level) → ℕ
    last_id n [] = n
    last_id n (c ∷ cs) = last_id (next_id n c) cs

    abbrev pub answers :
        {Level : Type 0} → Orders Price → ℕ → List (Call Price Level) → List (Answer Price)
    answers f n [] = []
    answers f n (c ∷ cs) = answer_of f n c ∷ answers (next f c) (next_id n c) cs

module _ {Price Level : Type 0} ⦃d : Double Price⦄ where
  -- What the manager's own calls return.
  abbrev pub reply : OrderManager Price Level → Call Price Level → Answer Price
  reply m (adds o) = added (add_order m o).1
  reply m (cancels id) = done (cancel_order m id).1
  reply m (modifies id p q) = done (modify_order m id p q).1
  reply m (removes id) = removed (remove_order m id).1
  reply m (locates id l) = nothing
  reply m (sets_status id s) = nothing
  reply m (fills id q) = is_filled (fill_order m id q).1
  reply m takes_id = id_is (get_next_order_id m).1
  reply m clears = nothing

  abbrev pub replies : OrderManager Price Level → List (Call Price Level) → List (Answer Price)
  replies m [] = []
  replies m (c ∷ cs) = reply m c ∷ replies (step m c) cs
