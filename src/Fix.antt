-- ===== src/Fix.antt =====
-- src/Network/FixParser.cpp and include/orderbook/Network/FixParser.hpp: a message is parsed into
-- its fields, and built from a list of them. A string is its bytes. The text of the present time,
-- which `formatTimestamp` makes, is a parameter `now`.
pub mod Constants
pub mod Wire
pub mod RoundTrip
pub mod Requests
pub mod Generate
pub mod Reported
pub mod Orders
pub mod Chunks
mod Tests
use financial_order_book.Prelude.{
  ℕ, ◌+◌, ◌/◌, ◌%◌, ◌^◌, Bool, true, false, not, ◌&&◌, ◌||◌, List, [], ◌∷◌, ◌++◌, Option, none,
  some, ltb, ◌==◌, if◌then◌else◌, length,
}
use financial_order_book.Prelude.Decimal.{to_string, stoi}
use financial_order_book.Prelude.Int.{ℤ, pos, negsuc, sub_ℕ}
use financial_order_book.Prelude.Map.{lookup, insert, int_key}
use financial_order_book.Prelude.Text.{Bytes, codes, bytes_eq, is_empty}
use Constants.{Tag, number, field_delimiter, begin_string_44}

pub data FixError : Type 0 where
  empty_message : FixError
  invalid_field_format : Bytes → FixError
  failed_to_parse_field : Bytes → FixError
  missing_header_fields : FixError
  unsupported_version : Bytes → FixError
  missing_msg_type : FixError
  invalid_checksum_format : FixError

-- `isValid` and `errorMessage`: no error may be set. The type is `none` until it is read.
pub record FixMessage : Type 0 where
  pub msg_type : Option ℕ
  pub fields : List (ℤ × Bytes)
  pub raw_message : Bytes
  pub is_valid : Bool
  pub error_message : Option FixError

abbrev pub new_message : Bytes → FixMessage
new_message raw = record {
  msg_type = none;
  fields = [];
  raw_message = raw;
  is_valid = false;
  error_message = none;
}

abbrev pub or_empty : Option Bytes → Bytes
or_empty none = []
or_empty (some s) = s

abbrev pub is_there : Option Bytes → Bool
is_there none = false
is_there (some s) = true

abbrev pub get_field : FixMessage → Tag → Bytes
get_field m t = or_empty (lookup (pos (number t)) m.fields)

abbrev pub has_field : FixMessage → Tag → Bool
has_field m t = is_there (lookup (pos (number t)) m.fields)

-- One round of the loop that splits at the delimiter: the fields so far and the current one.
unfoldable pub split_round : List Bytes → Bytes → ℕ → List Bytes × Bytes
split_round fields current c =
    if c == field_delimiter
    then if is_empty current then (fields, current) else (fields ++ current ∷ [], [])
    else (fields, current ++ c ∷ [])

unfoldable pub split_loop : List Bytes → Bytes → Bytes → List Bytes × Bytes
split_loop fields current [] = (fields, current)
split_loop fields current (c ∷ s) = let r = split_round fields current c in split_loop r.0 r.1 s

-- The last field, if it does not end with the delimiter.
abbrev pub with_last : List Bytes × Bytes → List Bytes
with_last (fields, current) = if is_empty current then fields else fields ++ current ∷ []

abbrev pub split_fields : Bytes → List Bytes
split_fields s = with_last (split_loop [] [] s)

abbrev pub put_before : ℕ → Option (Bytes × Bytes) → Option (Bytes × Bytes)
put_before c none = none
put_before c (some (before, behind)) = some (c ∷ before, behind)

-- What stands before and behind the first `=`.
unfoldable pub split_at_equals : Bytes → Option (Bytes × Bytes)
split_at_equals [] = none
split_at_equals (c ∷ s) =
    let r = split_at_equals s in if c == b'=' then some ([], s) else put_before c r

abbrev pub with_tag : Option (Bytes × Bytes) → Option (Option ℤ × Bytes)
with_tag none = none
with_tag (some (before, behind)) = some (stoi before, behind)

-- The tag is `none` where `stoi` throws; all is `none` where there is no `=`.
unfoldable pub parse_field : Bytes → Option (Option ℤ × Bytes)
parse_field field = with_tag (split_at_equals field)

-- The fields that are read, and the error that ends the loop.
unfoldable pub parse_fields : List (ℤ × Bytes) → List Bytes → List (ℤ × Bytes) × Option FixError
parse_fields m [] = (m, none)
parse_fields m (field ∷ rest) = elim (parse_field field) [
  | none ↦ (m, some (invalid_field_format field))
  | some (none, value) ↦ (m, some (failed_to_parse_field field))
  | some (some tag, value) ↦ parse_fields (insert tag value m) rest
]

abbrev pub fail : FixMessage → FixError → FixMessage
fail m e = record m { error_message = some e }

abbrev pub first_byte : Bytes → Option ℕ
first_byte [] = none
first_byte (c ∷ s) = some c

abbrev pub header_is_there : FixMessage → Bool
header_is_there m =
    has_field m Tag.begin_string
    && has_field m Tag.body_length
    && has_field m Tag.msg_type
    && has_field m Tag.checksum

-- The tests behind the loop.
unfoldable pub check_header : FixMessage → FixMessage
check_header m =
    let typed = record m { msg_type = first_byte (get_field m Tag.msg_type) } in
    if not (header_is_there m)
    then fail m missing_header_fields
    else if not (bytes_eq (get_field m Tag.begin_string) begin_string_44)
    then fail m (unsupported_version (get_field m Tag.begin_string))
    else if is_empty (get_field m Tag.msg_type)
    then fail m missing_msg_type
    else if not (length (get_field m Tag.checksum) == 3)
    then fail typed invalid_checksum_format
    else record typed { is_valid = true }

abbrev pub checked : FixMessage → List (ℤ × Bytes) × Option FixError → FixMessage
checked m (fields, some e) = fail (record m { fields = fields }) e
checked m (fields, none) = check_header (record m { fields = fields })

unfoldable pub parse_message : Bytes → FixMessage
parse_message raw =
    if is_empty raw
    then fail (new_message raw) empty_message
    else checked (new_message raw) (parse_fields [] (split_fields raw))

-- `tag << "=" << value << FIELD_DELIMITER`, for each field of a list.
abbrev pub field_text : Tag × Bytes → Bytes
field_text (t, value) = to_string (number t) ++ b'=' ∷ value

unfoldable pub render : List (Tag × Bytes) → Bytes
render [] = []
render (f ∷ fs) = field_text f ++ field_delimiter ∷ render fs

-- The `uint32_t` sum of the bytes, and its low byte.
unfoldable pub sum32 : ℕ → Bytes → ℕ
sum32 sum [] = sum
sum32 sum (c ∷ s) = sum32 ((sum + c % 256) % 2 ^ 32) s

unfoldable pub calculate_checksum : Bytes → ℕ
calculate_checksum s = sum32 0 s % 256

-- `setfill('0') << setw(3)` of a number below 1000.
abbrev pub three_digits : ℕ → Bytes
three_digits n = (b'0' + n / 100 % 10) ∷ (b'0' + n / 10 % 10) ∷ (b'0' + n % 10) ∷ []

-- `static_cast<int>`, and an `int` as it is written.
abbrev pub to_int32 : ℕ → ℤ
to_int32 n = let m = n % 2 ^ 32 in if ltb m (2 ^ 31) then pos m else sub_ℕ m (2 ^ 32)

abbrev pub int_text : ℤ → Bytes
int_text (pos n) = to_string n
int_text (negsuc n) = b'-' ∷ to_string (1 + n)

abbrev pub header_fields : ℕ → Bytes → Bytes → ℕ → Bytes → List (Tag × Bytes)
header_fields msg_type sender target seq now =
    (Tag.msg_type, msg_type ∷ [])
    ∷ (Tag.sender_comp_id, sender)
    ∷ (Tag.target_comp_id, target)
    ∷ (Tag.msg_seq_num, to_string seq)
    ∷ (Tag.sending_time, now)
    ∷ []

-- The message up to its checksum.
unfoldable pub message_text : ℕ → Bytes → Bytes → Bytes → ℕ → Bytes → Bytes
message_text msg_type body sender target seq now =
    let header = render (header_fields msg_type sender target seq now) in
    let body_length = int_text (to_int32 (length header + length body)) in
    render ((Tag.begin_string, begin_string_44) ∷ (Tag.body_length, body_length) ∷ [])
    ++ header
    ++ body

unfoldable pub build_fix_message : ℕ → Bytes → Bytes → Bytes → ℕ → Bytes → Bytes
build_fix_message msg_type body sender target seq now =
    let message = message_text msg_type body sender target seq now in
    message ++ render ((Tag.checksum, three_digits (calculate_checksum message)) ∷ [])
