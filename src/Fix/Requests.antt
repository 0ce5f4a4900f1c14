-- ===== src/Fix/Requests.antt =====
-- src/Network/FixParser.cpp: the three requests that are read from a parsed message, and the
-- characters of the enumerations. What `std::chrono::system_clock::now` gives is a parameter `now`.
-- A request that is not valid is its error: its other members are not read.
use financial_order_book.Prelude.{
  ℕ, Bool, false, not, ◌&&◌, [], ◌∷◌, Option, none, some, ◌==◌, if◌then◌else◌,
}
use financial_order_book.Prelude.Double.{Double}
use financial_order_book.Prelude.Decimal.{stoull}
use financial_order_book.Prelude.Text.{Bytes, is_empty}
use financial_order_book.Types.{
  Side, OrderType, TimeInForce, OrderStatus, Result, success, error, ◌>>=◌, require, result_of,
}
use financial_order_book.Fix.Constants.{
  Tag, msg_type_new_order_single, msg_type_order_cancel_replace_request,
  msg_type_order_cancel_request,
}
use financial_order_book.Fix.{FixMessage, FixError, get_field}

abbrev pub side_to_fix_char : Side → ℕ
side_to_fix_char Side.buy = b'1'
side_to_fix_char Side.sell = b'2'

abbrev pub fix_char_to_side : ℕ → Side
fix_char_to_side c = if c == b'1' then Side.buy else Side.sell

abbrev pub order_type_to_fix_char : OrderType → ℕ
order_type_to_fix_char OrderType.market = b'1'
order_type_to_fix_char OrderType.limit = b'2'

abbrev pub fix_char_to_order_type : ℕ → OrderType
fix_char_to_order_type c = if c == b'1' then OrderType.market else OrderType.limit

abbrev pub tif_to_fix_char : TimeInForce → ℕ
tif_to_fix_char TimeInForce.ioc = b'3'
tif_to_fix_char TimeInForce.fok = b'4'
tif_to_fix_char TimeInForce.gtc = b'1'

abbrev pub fix_char_to_tif : ℕ → TimeInForce
fix_char_to_tif c =
    if c == b'3' then TimeInForce.ioc else if c == b'4' then TimeInForce.fok else TimeInForce.gtc

abbrev pub order_status_to_fix_char : OrderStatus → ℕ
order_status_to_fix_char OrderStatus.new = b'0'
order_status_to_fix_char OrderStatus.partially_filled = b'1'
order_status_to_fix_char OrderStatus.filled = b'2'
order_status_to_fix_char OrderStatus.cancelled = b'4'
order_status_to_fix_char OrderStatus.rejected = b'8'

pub data RequestError : Type 0 where
  invalid_fix_message : Option FixError → RequestError
  not_this_type : RequestError
  missing_required_fields : RequestError
  missing_side : RequestError
  missing_ord_type : RequestError
  missing_order_qty : RequestError
  missing_price : RequestError
  failed_to_parse : RequestError

pub record NewOrderSingle (Price Time : Type 0) : Type 0 where
  pub cl_ord_id : Bytes
  pub symbol : Bytes
  pub side : Side
  pub order_type : OrderType
  pub time_in_force : TimeInForce
  pub price : Price
  pub quantity : ℕ
  pub account : Bytes
  pub transact_time : Time

-- A member that the message does not give is `none`: the source leaves it without a value.
pub record OrderCancelReplaceRequest (Price Time : Type 0) : Type 0 where
  pub cl_ord_id : Bytes
  pub orig_cl_ord_id : Bytes
  pub symbol : Bytes
  pub side : Option Side
  pub order_type : Option OrderType
  pub time_in_force : TimeInForce
  pub price : Option Price
  pub quantity : Option ℕ
  pub account : Bytes
  pub transact_time : Time

pub record OrderCancelRequest (Time : Type 0) : Type 0 where
  pub cl_ord_id : Bytes
  pub orig_cl_ord_id : Bytes
  pub symbol : Bytes
  pub side : Option Side
  pub transact_time : Time

abbrev pub has_type : FixMessage → ℕ → Bool
has_type m c = elim m.msg_type [ none ↦ false | some mt ↦ mt == c ]

-- The first byte of a text that may not be empty.
abbrev pub first_of : RequestError → Bytes → Result RequestError ℕ
first_of e [] = error e
first_of e (c ∷ s) = success c

abbrev pub parse_tif : Bytes → TimeInForce
parse_tif [] = TimeInForce.gtc
parse_tif (c ∷ s) = fix_char_to_tif c

-- `parseTimestamp` does not read its argument.
abbrev pub parse_timestamp : {Time : Type 0} → Time → Bytes → Time
parse_timestamp now s = now

abbrev pub transact_time_of : {Time : Type 0} → Time → Bytes → Time
transact_time_of now s = if is_empty s then now else parse_timestamp now s

abbrev pub map_first : {A : Type 0} → (ℕ → A) → Bytes → Option A
map_first f [] = none
map_first f (c ∷ s) = some (f c)

-- A number that may be missing, but is read where it is there.
abbrev pub optional : {A : Type 0} → (Bytes → Option A) → Bytes → Result RequestError (Option A)
optional f [] = success none
optional f (c ∷ s) = result_of failed_to_parse (f (c ∷ s)) >>= λ a. success (some a)

abbrev pub check_type : FixMessage → ℕ → Result RequestError Bool
check_type m c = do
  valid ← require m.is_valid (invalid_fix_message m.error_message)
  require (has_type m c) not_this_type

abbrev pub parse_price :
    {Price : Type 0} ⦃d : Double Price⦄ → OrderType → Bytes → Result RequestError Price
parse_price ⦃d⦄ OrderType.market s = success d.nought
parse_price OrderType.limit [] = error missing_price
parse_price ⦃d⦄ OrderType.limit (c ∷ s) = result_of failed_to_parse (d.stod (c ∷ s))

module _ {Price Time : Type 0} ⦃d : Double Price⦄ where
  unfoldable pub parse_new_order_single :
      Time → FixMessage → Result RequestError (NewOrderSingle Price Time)
  parse_new_order_single now m = do
    let cl_ord_id = get_field m Tag.clord_id
    let symbol = get_field m Tag.symbol
    let quantity = get_field m Tag.order_qty
    typed ← check_type m msg_type_new_order_single
    given ← require (not (is_empty cl_ord_id) && not (is_empty symbol)) missing_required_fields
    side ← first_of missing_side (get_field m Tag.side)
    order_type ← first_of missing_ord_type (get_field m Tag.ord_type)
    there ← require (not (is_empty quantity)) missing_order_qty
    q ← result_of failed_to_parse (stoull quantity)
    price ← parse_price (fix_char_to_order_type order_type) (get_field m Tag.price)
    success (record {
      cl_ord_id = cl_ord_id;
      symbol = symbol;
      side = fix_char_to_side side;
      order_type = fix_char_to_order_type order_type;
      time_in_force = parse_tif (get_field m Tag.time_in_force);
      price = price;
      quantity = q;
      account = cl_ord_id;
      transact_time = transact_time_of now (get_field m Tag.transact_time);
    })

  unfoldable pub parse_order_cancel_replace_request :
      Time → FixMessage → Result RequestError (OrderCancelReplaceRequest Price Time)
  parse_order_cancel_replace_request now m = do
    let cl_ord_id = get_field m Tag.clord_id
    let orig_cl_ord_id = get_field m Tag.orig_clord_id
    let symbol = get_field m Tag.symbol
    typed ← check_type m msg_type_order_cancel_replace_request
    given ←
        require (not (is_empty cl_ord_id) && not (is_empty orig_cl_ord_id) && not (is_empty symbol))
          missing_required_fields
    quantity ← optional stoull (get_field m Tag.order_qty)
    price ← optional d.stod (get_field m Tag.price)
    success (record {
      cl_ord_id = cl_ord_id;
      orig_cl_ord_id = orig_cl_ord_id;
      symbol = symbol;
      side = map_first fix_char_to_side (get_field m Tag.side);
      order_type = map_first fix_char_to_order_type (get_field m Tag.ord_type);
      time_in_force = parse_tif (get_field m Tag.time_in_force);
      price = price;
      quantity = quantity;
      account = cl_ord_id;
      transact_time = transact_time_of now (get_field m Tag.transact_time);
    })

module _ {Time : Type 0} where
  unfoldable pub parse_order_cancel_request :
      Time → FixMessage → Result RequestError (OrderCancelRequest Time)
  parse_order_cancel_request now m = do
    let cl_ord_id = get_field m Tag.clord_id
    let orig_cl_ord_id = get_field m Tag.orig_clord_id
    let symbol = get_field m Tag.symbol
    typed ← check_type m msg_type_order_cancel_request
    given ←
        require (not (is_empty cl_ord_id) && not (is_empty orig_cl_ord_id) && not (is_empty symbol))
          missing_required_fields
    success (record {
      cl_ord_id = cl_ord_id;
      orig_cl_ord_id = orig_cl_ord_id;
      symbol = symbol;
      side = map_first fix_char_to_side (get_field m Tag.side);
      transact_time = transact_time_of now (get_field m Tag.transact_time);
    })
