-- ===== src/Handler/Requests.antt =====
-- src/Network/FixMessageHandler.cpp: what is done with a new order, a replacement and a
-- cancellation. The second component of a result is false where the call ends by an exception.
use financial_order_book.Prelude.{
  ℕ, Bool, true, false, [], ◌∷◌, ◌++◌, Option, none, some, if◌then◌else◌,
}
use financial_order_book.Prelude.Double.{Double}
use financial_order_book.Prelude.Map.{lookup, insert, erase, nat_key, bytes_key}
use financial_order_book.Prelude.Text.{Bytes, codes}
use financial_order_book.Types.{Side, Result, success, error, add64}
use financial_order_book.Order.{Order, new_order}
use financial_order_book.Manager.{OrderManager, ManagerError, add_order, modify_order, cancel_order}
use financial_order_book.Risk.{RiskManager, new_portfolio, validate_order, is_approved}
use financial_order_book.Fix.Requests.{
  NewOrderSingle, OrderCancelReplaceRequest, OrderCancelRequest,
}
use financial_order_book.Session.{Session, send_reject}
use financial_order_book.Handler.{
  Handler, exec_type_new, exec_type_cancelled, find_order_by_cl_ord_id, send_execution,
  send_rejection,
}

-- A request whose `isValid` is set, or what is used of another: for a new order the client id, the
-- symbol and the side, for the others the error message.
pub data NewOrder (Price Time : Type 0) : Type 0 where
  valid : NewOrderSingle Price Time → NewOrder Price Time
  invalid : Bytes → Bytes → Side → NewOrder Price Time

pub data Change (A : Type 0) : Type 0 where
  valid : A → Change A
  invalid : Bytes → Change A

-- What a member holds that was given no value.
pub record Unset (Price : Type 0) : Type 0 where
  pub side : Side
  pub price : Price
  pub quantity : ℕ

abbrev pub or_unset : {A : Type 0} → A → Option A → A
or_unset a none = a
or_unset a (some b) = b

abbrev pub portfolio_account : Bytes → Bytes
portfolio_account [] = codes "DEFAULT"
portfolio_account (c ∷ s) = c ∷ s

abbrev pub passes_risk :
    {Price : Type 0} ⦃d : Double Price⦄ → Option (RiskManager Price) → Order Price → Bool
passes_risk none o = true
passes_risk (some r) o =
    is_approved (validate_order r o (new_portfolio (portfolio_account o.account)))

module _ {Price Time : Type 0} where
  -- `convertToInternalOrder`: the order, which is never null.
  unfoldable pub convert_to_internal_order : ℕ → NewOrderSingle Price Time → Order Price
  convert_to_internal_order id n =
      new_order id n.side n.order_type n.time_in_force n.price n.quantity n.symbol n.account

module _ {Price Time Level : Type 0} ⦃d : Double Price⦄ where
  abbrev pub count_rejected : Handler Price Time Level → Handler Price Time Level
  count_rejected h = record h { orders_rejected = add64 h.orders_rejected 1 }

  unfoldable pub link : Handler Price Time Level → Bytes → ℕ → Handler Price Time Level
  link h c id = record h {
    order_ids = insert c id h.order_ids;
    cl_ord_ids = insert id c h.cl_ord_ids;
  }

  module _ (now : Bytes) where
    -- After `addOrder`: an error is reported, its client id forgotten, and then `value()` of the
    -- error throws.
    abbrev pub after_add :
        Handler Price Time Level
        → NewOrderSingle Price Time
        → OrderManager Price Level × Result (ManagerError Price) ℕ
        → Handler Price Time Level × Bool
    after_add h n (m, success id) = (record h { manager = m }, true)
    after_add h n (m, error e) =
        let h1 = send_rejection now (record h { manager = m }) n.cl_ord_id n.symbol n.side in
        (record h1 { order_ids = erase n.cl_ord_id h1.order_ids }, false)

    unfoldable pub submit :
        Handler Price Time Level
        → NewOrderSingle Price Time
        → Order Price
        → Handler Price Time Level × Bool
    submit h n o =
        let h1 = send_execution now (link h n.cl_ord_id o.id) o exec_type_new 0 d.nought in
        after_add h1 n (add_order h1.manager (some o))

    unfoldable pub handle_new_order_single :
        Handler Price Time Level → NewOrder Price Time → Handler Price Time Level × Bool
    handle_new_order_single h (invalid c symbol side) =
        let h1 : Handler Price Time Level = record h {
          orders_processed = add64 h.orders_processed 1;
        } in
        (count_rejected (send_rejection now h1 c symbol side), true)
    handle_new_order_single h (valid n) =
        let h1 : Handler Price Time Level = record h {
          orders_processed = add64 h.orders_processed 1;
          order_id_counter = add64 h.order_id_counter 1;
        } in
        let o = convert_to_internal_order h.order_id_counter n in
        let refused : Handler Price Time Level =
          count_rejected (send_rejection now h1 n.cl_ord_id n.symbol n.side) in
        let submitted = submit h1 n o in if passes_risk h.risk o then submitted else (refused, true)

    abbrev pub reject_text :
        Handler Price Time Level → Option (Session Price Time) → Bytes → Handler Price Time Level
    reject_text h none text = h
    reject_text h (some s) text = record h { session = some (send_reject now s 0 text) }

    -- The report of an order that the manager knows.
    abbrev pub confirm :
        Handler Price Time Level → ℕ → Option (Order Price) → Handler Price Time Level
    confirm h exec_type none = h
    confirm h exec_type (some o) = send_execution now h o exec_type 0 d.nought

    abbrev pub after_modify :
        Unset Price
        → Handler Price Time Level
        → OrderCancelReplaceRequest Price Time
        → ℕ
        → OrderManager Price Level × Result (ManagerError Price) Bool
        → Handler Price Time Level
    after_modify u h r id (m, success b) =
        let h1 : Handler Price Time Level = record h {
          manager = m;
          order_ids = erase r.orig_cl_ord_id h.order_ids;
        } in
        let h2 = link h1 r.cl_ord_id id in
        confirm h2 exec_type_new (find_order_by_cl_ord_id h2 r.cl_ord_id)
    after_modify u h r id (m, error e) =
        send_rejection now (record h { manager = m }) r.cl_ord_id r.symbol (or_unset u.side r.side)

    abbrev pub replace_found :
        Unset Price
        → Handler Price Time Level
        → OrderCancelReplaceRequest Price Time
        → Option ℕ
        → Handler Price Time Level
    replace_found u h r none = send_rejection now h r.cl_ord_id r.symbol (or_unset u.side r.side)
    replace_found u h r (some id) =
        after_modify u h r id
          (modify_order h.manager id (or_unset u.price r.price) (or_unset u.quantity r.quantity))

    unfoldable pub handle_order_cancel_replace_request :
        Unset Price
        → Handler Price Time Level
        → Change (OrderCancelReplaceRequest Price Time)
        → Handler Price Time Level
    handle_order_cancel_replace_request u h (invalid e) =
        reject_text h h.session (codes "Invalid cancel replace request: " ++ e)
    handle_order_cancel_replace_request u h (valid r) =
        replace_found u h r (lookup r.orig_cl_ord_id h.order_ids)

    abbrev pub after_cancel :
        Unset Price
        → Handler Price Time Level
        → OrderCancelRequest Time
        → ℕ
        → OrderManager Price Level × Result (ManagerError Price) Bool
        → Handler Price Time Level
    after_cancel u h r id (m, success b) =
        let h1 = link (record h { manager = m }) r.cl_ord_id id in
        confirm h1 exec_type_cancelled (find_order_by_cl_ord_id h1 r.cl_ord_id)
    after_cancel u h r id (m, error e) =
        send_rejection now (record h { manager = m }) r.cl_ord_id r.symbol (or_unset u.side r.side)

    abbrev pub cancel_found :
        Unset Price
        → Handler Price Time Level
        → OrderCancelRequest Time
        → Option ℕ
        → Handler Price Time Level
    cancel_found u h r none = send_rejection now h r.cl_ord_id r.symbol (or_unset u.side r.side)
    cancel_found u h r (some id) = after_cancel u h r id (cancel_order h.manager id)

    unfoldable pub handle_order_cancel_request :
        Unset Price
        → Handler Price Time Level
        → Change (OrderCancelRequest Time)
        → Handler Price Time Level
    handle_order_cancel_request u h (invalid e) =
        reject_text h h.session (codes "Invalid cancel request: " ++ e)
    handle_order_cancel_request u h (valid r) =
        cancel_found u h r (lookup r.orig_cl_ord_id h.order_ids)
