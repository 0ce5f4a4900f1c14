-- ===== src/Fix/Constants.antt =====
-- include/orderbook/Network/FixConstants.hpp: message types, tags and characters of FIX 4.4.
use financial_order_book.Prelude.{ℕ}
use financial_order_book.Prelude.Text.{Bytes, codes}

abbrev pub msg_type_heartbeat : ℕ
msg_type_heartbeat = b'0'

abbrev pub msg_type_test_request : ℕ
msg_type_test_request = b'1'

abbrev pub msg_type_reject : ℕ
msg_type_reject = b'3'

abbrev pub msg_type_logout : ℕ
msg_type_logout = b'5'

abbrev pub msg_type_logon : ℕ
msg_type_logon = b'A'

abbrev pub msg_type_new_order_single : ℕ
msg_type_new_order_single = b'D'

abbrev pub msg_type_execution_report : ℕ
msg_type_execution_report = b'8'

abbrev pub msg_type_order_cancel_replace_request : ℕ
msg_type_order_cancel_replace_request = b'G'

abbrev pub msg_type_order_cancel_request : ℕ
msg_type_order_cancel_request = b'F'

-- The tags, as the numbers before `=`.
pub data Tag : Type 0 where
  begin_string : Tag
  body_length : Tag
  checksum : Tag
  clord_id : Tag
  msg_seq_num : Tag
  msg_type : Tag
  order_id : Tag
  order_qty : Tag
  ord_status : Tag
  ord_type : Tag
  orig_clord_id : Tag
  price : Tag
  sender_comp_id : Tag
  sending_time : Tag
  side : Tag
  symbol : Tag
  target_comp_id : Tag
  time_in_force : Tag
  transact_time : Tag
  exec_id : Tag
  exec_type : Tag
  leaves_qty : Tag
  cum_qty : Tag
  avg_px : Tag
  last_qty : Tag
  last_px : Tag
  heartbt_int : Tag
  test_req_id : Tag
  -- 45 and 58 have no constant in the source.
  ref_seq_num : Tag
  text : Tag

abbrev pub number : Tag → ℕ
number Tag.begin_string = 8
number Tag.body_length = 9
number Tag.checksum = 10
number Tag.clord_id = 11
number Tag.msg_seq_num = 34
number Tag.msg_type = 35
number Tag.order_id = 37
number Tag.order_qty = 38
number Tag.ord_status = 39
number Tag.ord_type = 40
number Tag.orig_clord_id = 41
number Tag.price = 44
number Tag.sender_comp_id = 49
number Tag.sending_time = 52
number Tag.side = 54
number Tag.symbol = 55
number Tag.target_comp_id = 56
number Tag.time_in_force = 59
number Tag.transact_time = 60
number Tag.exec_id = 17
number Tag.exec_type = 150
number Tag.leaves_qty = 151
number Tag.cum_qty = 14
number Tag.avg_px = 6
number Tag.last_qty = 32
number Tag.last_px = 31
number Tag.heartbt_int = 108
number Tag.test_req_id = 112
number Tag.ref_seq_num = 45
number Tag.text = 58

-- SOH
abbrev pub field_delimiter : ℕ
field_delimiter = 1

abbrev pub begin_string_44 : Bytes
begin_string_44 = codes "FIX.4.4"

abbrev pub heartbeat_interval : ℕ
heartbeat_interval = 30
