-- ===== src/Session/Texts.antt =====
-- The texts of errors that a session sends: src/Network/FixParser.cpp and src/Network/FixSession.cpp.
use financial_order_book.Prelude.{Option, none, some, ◌++◌, []}
use financial_order_book.Prelude.Text.{Bytes, codes}
use financial_order_book.Fix.{
  FixError, empty_message, invalid_field_format, failed_to_parse_field, missing_header_fields,
  unsupported_version, missing_msg_type, invalid_checksum_format,
}
use financial_order_book.Fix.Requests.{
  RequestError, invalid_fix_message, not_this_type, missing_required_fields, missing_side,
  missing_ord_type, missing_order_qty, missing_price, failed_to_parse,
}

-- `what` is the text of an exception.
abbrev pub fix_error_text : Bytes → Option FixError → Bytes
fix_error_text what none = []
fix_error_text what (some empty_message) = codes "Empty message"
fix_error_text what (some (invalid_field_format field)) = codes "Invalid field format: " ++ field
fix_error_text what (some (failed_to_parse_field field)) =
    codes "Failed to parse field: " ++ field ++ codes " - " ++ what
fix_error_text what (some missing_header_fields) = codes "Missing required header fields"
fix_error_text what (some (unsupported_version v)) = codes "Unsupported FIX version: " ++ v
fix_error_text what (some missing_msg_type) = codes "Missing message type"
fix_error_text what (some invalid_checksum_format) = codes "Invalid checksum format"

pub data Kind : Type 0 where
  new_order replace cancel : Kind

abbrev pub kind_name : Kind → Bytes
kind_name Kind.new_order = codes "New Order Single"
kind_name Kind.replace = codes "Order Cancel Replace Request"
kind_name Kind.cancel = codes "Order Cancel Request"

abbrev pub missing_text : Kind → Bytes
missing_text Kind.new_order = codes "Missing required fields (ClOrdID or Symbol)"
missing_text _ = codes "Missing required fields"

abbrev pub not_type_text : Kind → Bytes
not_type_text Kind.new_order = codes "Not a New Order Single message"
not_type_text Kind.replace = codes "Not an Order Cancel Replace Request message"
not_type_text Kind.cancel = codes "Not an Order Cancel Request message"

abbrev pub request_message : Bytes → Kind → RequestError → Bytes
request_message what kind (invalid_fix_message e) =
    codes "Invalid FIX message: " ++ fix_error_text what e
request_message what kind not_this_type = not_type_text kind
request_message what kind missing_required_fields = missing_text kind
request_message what kind missing_side = codes "Missing Side field"
request_message what kind missing_ord_type = codes "Missing OrdType field"
request_message what kind missing_order_qty = codes "Missing OrderQty field"
request_message what kind missing_price = codes "Missing Price field for limit order"
request_message what kind failed_to_parse =
    codes "Failed to parse " ++ kind_name kind ++ codes ": " ++ what

abbrev pub reject_prefix : Kind → Bytes
reject_prefix Kind.new_order = codes "Invalid New Order Single: "
reject_prefix Kind.replace = codes "Invalid Cancel Replace Request: "
reject_prefix Kind.cancel = codes "Invalid Cancel Request: "

-- What the session says of a request that has an error, or no handler.
abbrev pub request_error_text : Bytes → Kind → Option RequestError → Bytes
request_error_text what kind none = reject_prefix kind
request_error_text what kind (some e) = reject_prefix kind ++ request_message what kind e
