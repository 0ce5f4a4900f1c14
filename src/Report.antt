-- ===== src/Report.antt =====
-- `ExecutionReport` of include/orderbook/Core/MarketData.hpp, and the functions of
-- src/Core/MatchingEngine.cpp that make one.
use financial_order_book.Prelude.{ℕ, [], Option, none, leb, if◌then◌else◌}
use financial_order_book.Prelude.Text.{Bytes}
use financial_order_book.Types.{Side, OrderStatus, sub64}
use financial_order_book.Order.{Order, fill as fill_order}

pub data ExecType : Type 0 where
  new partial_fill fill cancelled rejected : ExecType

pub record ExecutionReport (Price : Type 0) : Type 0 where
  pub order_id : ℕ
  pub exec_type : ExecType
  pub order_status : OrderStatus
  pub side : Side
  pub price : Price
  pub quantity : ℕ
  pub filled_quantity : ℕ
  pub leaves_quantity : ℕ
  pub trade_id : Option ℕ
  pub symbol : Bytes
  pub account : Bytes
  pub text : Bytes

abbrev pub exec_type_of : OrderStatus → ExecType
exec_type_of OrderStatus.new = ExecType.new
exec_type_of OrderStatus.partially_filled = ExecType.partial_fill
exec_type_of OrderStatus.filled = ExecType.fill
exec_type_of OrderStatus.cancelled = ExecType.cancelled
exec_type_of OrderStatus.rejected = ExecType.rejected

-- `calculateRemainingQuantity`
unfoldable pub calculate_remaining_quantity : ℕ → ℕ → ℕ
calculate_remaining_quantity original filled =
    if leb original filled then 0 else sub64 original filled

module _ {Price : Type 0} where
  -- The constructor of `ExecutionReport`.
  abbrev pub new_report :
      ℕ → ExecType → OrderStatus → Side → Price → ℕ → ℕ → Bytes → Bytes → ExecutionReport Price
  new_report id exec status side price quantity filled symbol account = record {
    order_id = id;
    exec_type = exec;
    order_status = status;
    side = side;
    price = price;
    quantity = quantity;
    filled_quantity = filled;
    leaves_quantity = sub64 quantity filled;
    trade_id = none;
    symbol = symbol;
    account = account;
    text = [];
  }

  unfoldable pub generate_execution_report : Order Price → Option ℕ → ExecutionReport Price
  generate_execution_report o trade_id =
      let r =
        new_report o.id (exec_type_of o.status) o.status o.side o.price o.quantity o.filled_quantity
          o.symbol o.account in
      record r { trade_id = trade_id }

  unfoldable pub generate_new_order_report : Order Price → ExecutionReport Price
  generate_new_order_report o =
      new_report o.id ExecType.new OrderStatus.new o.side o.price o.quantity 0 o.symbol o.account

  unfoldable pub generate_rejection_report : Order Price → Bytes → ExecutionReport Price
  generate_rejection_report o reason =
      let r =
        new_report o.id ExecType.rejected OrderStatus.rejected o.side o.price o.quantity 0 o.symbol
          o.account in
      record r { text = reason }

  -- The order after the fill, and the report.
  unfoldable pub handle_partial_fill : Order Price → ℕ → Order Price × ExecutionReport Price
  handle_partial_fill o q =
      let o' = fill_order o q in
      (
        o',
        new_report o'.id ExecType.partial_fill OrderStatus.partially_filled o'.side o'.price
            o'.quantity o'.filled_quantity o'.symbol o'.account,
      )
