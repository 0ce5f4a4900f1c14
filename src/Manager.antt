-- ===== src/Manager.antt =====
-- src/Core/OrderManager.cpp and include/orderbook/Core/OrderManager.hpp. The two hash maps are
-- association lists. An error is named by its message. The logger is left out.
pub mod Invariant
pub mod Calls
pub mod Modifying
pub mod Machine
pub mod Replay
mod Tests
use financial_order_book.Prelude.{
  ℕ, ◌+◌, ◌-◌, Bool, true, false, not, ◌&&◌, ◌||◌, List, [], ◌∷◌, Option, none, some, ltb, leb,
  ◌==◌, if◌then◌else◌, length,
}
use financial_order_book.Prelude.Double.{Double}
use financial_order_book.Prelude.Map.{lookup, insert, erase, nat_key}
use financial_order_book.Prelude.Text.{Bytes, is_empty}
use financial_order_book.Types.{Side, OrderStatus, Result, success, error, u64, add64}
use financial_order_book.Order.{Order, Addr, is_active, is_fully_filled, cancel, modify, fill}
use financial_order_book.Level.{OrderLocation, is_valid}

pub data ManagerError (Price : Type 0) : Type 0 where
  null_order : ManagerError Price
  zero_order_id : ManagerError Price
  invalid_price : Price → ManagerError Price
  invalid_quantity : ℕ → ManagerError Price
  invalid_symbol : Bytes → ManagerError Price
  filled_exceeds_total : ManagerError Price
  already_exists : ℕ → ManagerError Price
  not_found : ℕ → ManagerError Price
  not_active : ℕ → ManagerError Price
  below_filled : ℕ → ℕ → ManagerError Price

-- `Level` is what a location points to: a price level of the book.
pub record OrderManager (Price Level : Type 0) : Type 0 where
  pub orders : List (ℕ × Order Price)
  pub order_locations : List (ℕ × OrderLocation Level)
  pub next_order_id : ℕ

abbrev pub no_location : {Level : Type 0} → OrderLocation Level
no_location = record { order = none; price_level = none; side = Side.buy }

abbrev pub is_valid_quantity : ℕ → Bool
is_valid_quantity q = ltb 0 q && ltb q (u64 - 1)

abbrev pub is_valid_symbol : Bytes → Bool
is_valid_symbol s = not (is_empty s) && leb (length s) 16

pub count_active : {Price : Type 0} → List (ℕ × Order Price) → ℕ
count_active [] = 0
count_active ((id, o) ∷ m) = (if is_active o then 1 else 0) + count_active m

module _ {Price : Type 0} ⦃d : Double Price⦄ where
  unfoldable pub is_valid_price : Price → Bool
  is_valid_price p = d.lt d.nought p && d.lt p d.largest && d.is_finite p

  unfoldable pub validate_order : Order Price → Result (ManagerError Price) Bool
  validate_order o =
      if o.id == 0
      then error zero_order_id
      else if not (is_valid_price o.price)
      then error (invalid_price o.price)
      else if not (is_valid_quantity o.quantity)
      then error (invalid_quantity o.quantity)
      else if not (is_valid_symbol o.symbol)
      then error (invalid_symbol o.symbol)
      else if ltb o.quantity o.filled_quantity
      then error filled_exceeds_total
      else success true

  -- The tests of `modifyOrder` on an order that it has found.
  unfoldable pub check_modify : ℕ → Order Price → Price → ℕ → Option (ManagerError Price)
  check_modify id o new_price new_quantity =
      if not (is_active o)
      then some (not_active id)
      else if d.lt d.nought new_price && not (is_valid_price new_price)
      then some (invalid_price new_price)
      else if ltb 0 new_quantity && not (is_valid_quantity new_quantity)
      then some (invalid_quantity new_quantity)
      else if ltb 0 new_quantity && ltb new_quantity o.filled_quantity
      then some (below_filled new_quantity o.filled_quantity)
      else none

module _ {Price Level : Type 0} where
  abbrev pub new_manager : OrderManager Price Level
  new_manager = record { orders = []; order_locations = []; next_order_id = 1 }

  unfoldable pub get_order : OrderManager Price Level → ℕ → Option (Order Price)
  get_order m id = lookup id m.orders

  unfoldable pub get_order_location : OrderManager Price Level → ℕ → OrderLocation Level
  get_order_location m id = elim (lookup id m.order_locations) [ none ↦ no_location | some l ↦ l ]

  unfoldable pub set_order_location :
      OrderManager Price Level → ℕ → OrderLocation Level → OrderManager Price Level
  set_order_location m id l =
      if is_valid l then record m { order_locations = insert id l m.order_locations } else m

  unfoldable pub remove_order :
      OrderManager Price Level → ℕ → OrderManager Price Level × Option (Order Price)
  remove_order m id = elim (lookup id m.orders) [
    | none ↦ (m, none)
    | some o ↦ (
      record m { orders = erase id m.orders; order_locations = erase id m.order_locations },
      some o,
    )
  ]

  -- What is done to the order under an id, where there is one.
  abbrev pub update_order : OrderManager Price Level → ℕ → Order Price → OrderManager Price Level
  update_order m id o = record m { orders = insert id o m.orders }

  unfoldable pub update_order_status :
      OrderManager Price Level → ℕ → OrderStatus → OrderManager Price Level
  update_order_status m id status = elim (lookup id m.orders) [
    | none ↦ m
    | some o ↦ update_order m id (record o { status = status })
  ]

  unfoldable pub fill_order : OrderManager Price Level → ℕ → ℕ → OrderManager Price Level × Bool
  fill_order m id q = elim (lookup id m.orders) [
    | none ↦ (m, false)
    | some o ↦ (update_order m id (fill o q), is_fully_filled (fill o q))
  ]

  abbrev pub get_active_order_count : OrderManager Price Level → ℕ
  get_active_order_count m = count_active m.orders

  -- The manager after the call, and the id.
  unfoldable pub get_next_order_id : OrderManager Price Level → OrderManager Price Level × ℕ
  get_next_order_id m = (record m { next_order_id = add64 m.next_order_id 1 }, m.next_order_id)

  abbrev pub clear : OrderManager Price Level → OrderManager Price Level
  clear m = record { orders = []; order_locations = []; next_order_id = 1 }

  abbrev pub cancelled_at : OrderManager Price Level → ℕ → Order Price → OrderManager Price Level
  cancelled_at m id o = record m {
    orders = insert id (cancel o) m.orders;
    order_locations = erase id m.order_locations;
  }

  -- `cancelOrder` forgets the location, and keeps the order as a cancelled one.
  unfoldable pub cancel_order :
      OrderManager Price Level → ℕ → OrderManager Price Level × Result (ManagerError Price) Bool
  cancel_order m id = elim (lookup id m.orders) [
    | none ↦ (m, error (not_found id))
    | some o ↦
        if not (is_active o)
        then (m, error (not_active id))
        else (cancelled_at m id o, success true)
  ]

  module _ ⦃d : Double Price⦄ where
    store_order :
        OrderManager Price Level
        → Order Price
        → OrderManager Price Level × Result (ManagerError Price) ℕ
    store_order m o = elim (lookup o.id m.orders) [
      | some old ↦ (m, error (already_exists o.id))
      | none ↦ (record m { orders = insert o.id o m.orders }, success o.id)
    ]

    -- A null order is `none`.
    unfoldable pub add_order :
        OrderManager Price Level
        → Option (Order Price)
        → OrderManager Price Level × Result (ManagerError Price) ℕ
    unfolding store_order
    add_order m none = (m, error null_order)
    add_order m (some o) = elim (validate_order o) [
      | error e ↦ (m, error e)
      | success b ↦ store_order m o
    ]

    unfoldable pub modify_order :
        OrderManager Price Level
        → ℕ
        → Price
        → ℕ
        → OrderManager Price Level × Result (ManagerError Price) Bool
    modify_order m id new_price new_quantity = elim (lookup id m.orders) [
      | none ↦ (m, error (not_found id))
      | some o ↦ elim (check_modify id o new_price new_quantity) [
        | some e ↦ (m, error e)
        | none ↦ (update_order m id (modify o new_price new_quantity), success true)
      ]
    ]

-- The public calls that change the manager.
pub data Call (Price Level : Type 0) : Type 0 where
  adds : Option (Order Price) → Call Price Level
  cancels : ℕ → Call Price Level
  modifies : ℕ → Price → ℕ → Call Price Level
  removes : ℕ → Call Price Level
  locates : ℕ → OrderLocation Level → Call Price Level
  sets_status : ℕ → OrderStatus → Call Price Level
  fills : ℕ → ℕ → Call Price Level
  takes_id : Call Price Level
  clears : Call Price Level

module _ {Price Level : Type 0} ⦃d : Double Price⦄ where
  unfoldable pub step : OrderManager Price Level → Call Price Level → OrderManager Price Level
  step m (adds o) = (add_order m o).0
  step m (cancels id) = (cancel_order m id).0
  step m (modifies id p q) = (modify_order m id p q).0
  step m (removes id) = (remove_order m id).0
  step m (locates id l) = set_order_location m id l
  step m (sets_status id status) = update_order_status m id status
  step m (fills id q) = (fill_order m id q).0
  step m takes_id = (get_next_order_id m).0
  step m clears = clear m

  unfoldable pub run : OrderManager Price Level → List (Call Price Level) → OrderManager Price Level
  run m [] = m
  run m (c ∷ cs) = run (step m c) cs
