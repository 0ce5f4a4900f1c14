-- ===== src/Handler/Tests.antt =====
-- A handler with one order, and the theorems on handlers at it.
use financial_order_book.Prelude.{ℕ, ◌≡◌, refl, true, false, List, [], ◌∷◌, none, some}
use financial_order_book.Prelude.Double.{cents_double}
use financial_order_book.Prelude.Int.{pos}
use financial_order_book.Prelude.Map.{lookup, insert, nat_key, bytes_key}
use financial_order_book.Prelude.Text.{Bytes, codes, bytes_eq}
use financial_order_book.Types.{Side, OrderType, TimeInForce}
use financial_order_book.Manager.{
  invalid_symbol, new_manager, add_order, cancel_order, get_order, validate_order, is_valid_price,
}
use financial_order_book.Session.{Session, SessionState, send_execution_report, send_numbered}
use financial_order_book.Fix.Requests.{NewOrderSingle, OrderCancelRequest}
use financial_order_book.Handler.{
  Handler, new_handler, set_fix_session, find_order_by_cl_ord_id, send_execution,
}
use financial_order_book.Handler.Requests.{
  Unset, NewOrder, Change, convert_to_internal_order, link, submit, handle_new_order_single,
  handle_order_cancel_request,
}
use financial_order_book.Handler.Runs.{Call, handle_all, handle_all-IsKnown}
use financial_order_book.Handler.Known.{IsKnown}
use financial_order_book.Handler.Refused.{Answered, both_answers, refused_order-Answered}

abbrev logged_in : Session ℕ ℕ
logged_in = record {
  state = SessionState.logged_in;
  sender = codes "A";
  target = codes "B";
  incoming_seq = 1;
  outgoing_seq = 1;
  interval = pos 30;
  test_request_sent = false;
  messages_received = 0;
  messages_sent = 0;
  heartbeats_sent = 0;
  heartbeats_received = 0;
  sent = [];
  is_open = true;
  heartbeat_timer = true;
  test_request_timer = false;
  hears_orders = true;
  hears_replaces = true;
  hears_cancels = true;
  hears_events = false;
  delivered = [];
  events = [];
}

abbrev asked : Bytes → NewOrderSingle ℕ ℕ
asked symbol = record {
  cl_ord_id = codes "x1";
  symbol = symbol;
  side = Side.buy;
  order_type = OrderType.limit;
  time_in_force = TimeInForce.gtc;
  price = 100;
  quantity = 5;
  account = [];
  transact_time = 0;
}

abbrev cancellation : OrderCancelRequest ℕ
cancellation = record {
  cl_ord_id = codes "x2";
  orig_cl_ord_id = codes "x1";
  symbol = codes "ABC";
  side = some Side.buy;
  transact_time = 0;
}

abbrev start : Handler ℕ ℕ ℕ
start = set_fix_session (new_handler new_manager none 1) (some logged_in)

abbrev unset : Unset ℕ
unset = record { side = Side.buy; price = 0; quantity = 0 }

abbrev calls : List (Call ℕ ℕ)
calls =
    Call.new_order (NewOrder.valid (asked (codes "ABC")))
    ∷ Call.cancels (Change.valid cancellation)
    ∷ []

abbrev after : Handler ℕ ℕ ℕ
after = handle_all [] unset start calls

-- The order is known under both client ids, and two reports were sent.
both_ids :
    (lookup (codes "x1") after.order_ids ≡ some 1)
    × (lookup (codes "x2") after.order_ids ≡ some 1)
    × (after.execution_id_counter ≡ 3)
unfolding handle_new_order_single submit link convert_to_internal_order send_execution lookup insert
    add_order validate_order is_valid_price handle_order_cancel_request cancel_order get_order
    find_order_by_cl_ord_id send_execution_report bytes_eq send_numbered
both_ids = (refl, refl, refl)

start-IsKnown : IsKnown start
unfolding lookup
start-IsKnown c id e = cc e

handle_all-IsKnown_example : IsKnown after
handle_all-IsKnown_example = handle_all-IsKnown [] unset start calls start-IsKnown

-- An order without a symbol is not valid for the order manager.
refused_order-Answered_example :
    Answered [] start logged_in (both_answers [] start logged_in (asked [])) (
      handle_new_order_single []
        (set_fix_session start (some logged_in))
        (NewOrder.valid (asked [])))
unfolding add_order validate_order is_valid_price convert_to_internal_order
refused_order-Answered_example =
    refused_order-Answered [] start logged_in (asked []) new_manager (invalid_symbol []) refl refl
      refl
