-- ===== src/Handler.antt =====
-- src/Network/FixMessageHandler.cpp and include/orderbook/Network/FixMessageHandler.hpp, over the
-- models of the order manager, the risk manager and the session. The text of the present time is
-- an argument, as is what a member of a request holds that was given no value.
pub mod Requests
pub mod Known
pub mod Runs
pub mod Refused
mod Tests
use financial_order_book.Prelude.{
  ℕ, zero, suc, ◌-◌, Bool, true, false, not, ◌||◌, List, [], ◌∷◌, ◌++◌, Option, none, some, length,
  if◌then◌else◌,
}
use financial_order_book.Prelude.Double.{Double}
use financial_order_book.Prelude.Decimal.{to_string}
use financial_order_book.Prelude.Map.{lookup, nat_key, bytes_key}
use financial_order_book.Prelude.Text.{Bytes, codes}
use financial_order_book.Types.{Side, OrderStatus, add64}
use financial_order_book.Order.{Order, Trade, remaining_quantity, is_fully_filled}
use financial_order_book.Manager.{OrderManager, get_order}
use financial_order_book.Risk.{RiskManager}
use financial_order_book.Fix.Generate.{FixReport}
use financial_order_book.Session.{Session, is_logged_in, send_execution_report}

-- `order_ids` is clOrdIdToOrderId_, `cl_ord_ids` is orderIdToClOrdId_. `risk` and `session` are
-- `none` where the pointer is null. `order_id_counter` is the static counter of
-- convertToInternalOrder.
pub record Handler (Price Time Level : Type 0) : Type 0 where
  pub manager : OrderManager Price Level
  pub risk : Option (RiskManager Price)
  pub session : Option (Session Price Time)
  pub order_ids : List (Bytes × ℕ)
  pub cl_ord_ids : List (ℕ × Bytes)
  pub execution_id_counter : ℕ
  pub order_id_counter : ℕ
  pub orders_processed : ℕ
  pub orders_rejected : ℕ
  pub trades_reported : ℕ

abbrev pub exec_type_new : ℕ
exec_type_new = b'0'

abbrev pub exec_type_partial_fill : ℕ
exec_type_partial_fill = b'1'

abbrev pub exec_type_fill : ℕ
exec_type_fill = b'2'

abbrev pub exec_type_cancelled : ℕ
exec_type_cancelled = b'4'

abbrev pub exec_type_rejected : ℕ
exec_type_rejected = b'8'

-- `orderStatusToFixChar`
abbrev pub order_status_to_fix_char : OrderStatus → ℕ
order_status_to_fix_char OrderStatus.new = b'0'
order_status_to_fix_char OrderStatus.partially_filled = b'1'
order_status_to_fix_char OrderStatus.filled = b'2'
order_status_to_fix_char OrderStatus.cancelled = b'4'
order_status_to_fix_char OrderStatus.rejected = b'8'

-- The execution type of `handleOrderStatusChange`.
abbrev pub exec_type_of : OrderStatus → ℕ
exec_type_of OrderStatus.new = exec_type_new
exec_type_of OrderStatus.partially_filled = exec_type_partial_fill
exec_type_of OrderStatus.filled = exec_type_fill
exec_type_of OrderStatus.cancelled = exec_type_cancelled
exec_type_of OrderStatus.rejected = exec_type_rejected

abbrev zeros : ℕ → Bytes
zeros zero = []
zeros (suc n) = b'0' ∷ zeros n

-- `std::setfill('0') << std::setw(10)`
abbrev pub padded : Bytes → Bytes
padded s = zeros (10 - length s) ++ s

abbrev pub execution_id : ℕ → Bytes
execution_id n = codes "EXEC" ++ padded (to_string n)

abbrev pub has_session : {Price Time : Type 0} → Option (Session Price Time) → Bool
has_session none = false
has_session (some s) = is_logged_in s

abbrev pub order_under :
    {Price Level : Type 0} → OrderManager Price Level → Option ℕ → Option (Order Price)
order_under m none = none
order_under m (some id) = get_order m id

module _ {Price : Type 0} ⦃d : Double Price⦄ (now : Bytes) where
  abbrev pub report_of : Order Price → Bytes → ℕ → ℕ → ℕ → Price → FixReport Price
  report_of o c exec exec_type last_qty last_px = record {
    order_id = to_string o.id;
    cl_ord_id = c;
    exec_id = execution_id exec;
    exec_type = exec_type;
    ord_status = order_status_to_fix_char o.status;
    symbol = o.symbol;
    side = o.side;
    order_qty = o.quantity;
    price = o.price;
    last_qty = last_qty;
    last_px = last_px;
    leaves_qty = remaining_quantity o;
    cum_qty = o.filled_quantity;
    avg_px = o.price;
    transact_time = now;
  }

  abbrev pub rejection_of : Bytes → Bytes → Side → ℕ → FixReport Price
  rejection_of c symbol side exec = record {
    order_id = codes "0";
    cl_ord_id = c;
    exec_id = execution_id exec;
    exec_type = exec_type_rejected;
    ord_status = b'8';
    symbol = symbol;
    side = side;
    order_qty = 0;
    price = d.nought;
    last_qty = 0;
    last_px = d.nought;
    leaves_qty = 0;
    cum_qty = 0;
    avg_px = d.nought;
    transact_time = now;
  }

module _ {Price Time Level : Type 0} where
  abbrev pub new_handler :
      OrderManager Price Level → Option (RiskManager Price) → ℕ → Handler Price Time Level
  new_handler manager risk counter = record {
    manager = manager;
    risk = risk;
    session = none;
    order_ids = [];
    cl_ord_ids = [];
    execution_id_counter = 1;
    order_id_counter = counter;
    orders_processed = 0;
    orders_rejected = 0;
    trades_reported = 0;
  }

  abbrev pub set_fix_session :
      Handler Price Time Level → Option (Session Price Time) → Handler Price Time Level
  set_fix_session h s = record h { session = s }

  -- `findOrderByClOrdId`
  unfoldable pub find_order_by_cl_ord_id : Handler Price Time Level → Bytes → Option (Order Price)
  find_order_by_cl_ord_id h c = order_under h.manager (lookup c h.order_ids)

  module _ ⦃d : Double Price⦄ (now : Bytes) where
    -- `fixSession_->sendExecutionReport`, with the next execution id.
    abbrev pub send_report :
        Handler Price Time Level
        → Option (Session Price Time)
        → (ℕ → FixReport Price)
        → Handler Price Time Level
    send_report h none r = h
    send_report h (some s) r = record h {
      session = some (send_execution_report now s (r h.execution_id_counter));
      execution_id_counter = add64 h.execution_id_counter 1;
    }

    abbrev pub send_for :
        Handler Price Time Level
        → Order Price
        → ℕ
        → ℕ
        → Price
        → Option Bytes
        → Handler Price Time Level
    send_for h o exec_type last_qty last_px none = h
    send_for h o exec_type last_qty last_px (some c) =
        send_report h h.session (λ n. report_of now o c n exec_type last_qty last_px)

    unfoldable pub send_execution :
        Handler Price Time Level → Order Price → ℕ → ℕ → Price → Handler Price Time Level
    send_execution h o exec_type last_qty last_px =
        let sent = send_for h o exec_type last_qty last_px (lookup o.id h.cl_ord_ids) in
        if has_session h.session then sent else h

    -- `sendTradeExecutionReport`, for an order that was found.
    abbrev pub send_trade :
        Handler Price Time Level → Trade Price → Option (Order Price) → Handler Price Time Level
    send_trade h t none = h
    send_trade h t (some o) =
        send_execution h o (if is_fully_filled o then exec_type_fill else exec_type_partial_fill)
          t.quantity t.price

    -- `sendRejectionReport`, which does not use the reason that it is given.
    unfoldable pub send_rejection :
        Handler Price Time Level → Bytes → Bytes → Side → Handler Price Time Level
    send_rejection h c symbol side =
        let sent = send_report h h.session (rejection_of now c symbol side) in
        if has_session h.session then sent else h

    -- The order of a trade, found by way of its client id.
    abbrev pub find_traded : Handler Price Time Level → Option Bytes → Option (Order Price)
    find_traded h none = none
    find_traded h (some c) = find_order_by_cl_ord_id h c

    unfoldable pub handle_trade_execution :
        Handler Price Time Level → Trade Price → Handler Price Time Level
    handle_trade_execution h t =
        let h1 : Handler Price Time Level = record h {
          trades_reported = add64 h.trades_reported 1;
        } in
        let buyer = find_traded h1 (lookup t.buy_order_id h.cl_ord_ids) in
        let seller = find_traded h1 (lookup t.sell_order_id h.cl_ord_ids) in
        send_trade (send_trade h1 t buyer) t seller

    unfoldable pub handle_order_status_change :
        Handler Price Time Level → Order Price → Handler Price Time Level
    handle_order_status_change h o = send_execution h o (exec_type_of o.status) 0 d.nought
