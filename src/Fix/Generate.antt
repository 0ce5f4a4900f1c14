-- ===== src/Fix/Generate.antt =====
-- src/Network/FixParser.cpp: the messages that are generated. The texts of the report's time and
-- of the present time are bytes.
use financial_order_book.Prelude.{ℕ, List, [], ◌∷◌, ltb, if◌then◌else◌}
use financial_order_book.Prelude.Double.{Double}
use financial_order_book.Prelude.Int.{ℤ}
use financial_order_book.Prelude.Decimal.{to_string}
use financial_order_book.Prelude.Text.{Bytes, is_empty}
use financial_order_book.Types.{Side}
use financial_order_book.Fix.Constants.{
  Tag, msg_type_heartbeat, msg_type_logon, msg_type_logout, msg_type_reject,
  msg_type_execution_report,
}
use financial_order_book.Fix.{render, build_fix_message, int_text}
use financial_order_book.Fix.Requests.{side_to_fix_char}

pub record FixReport (Price : Type 0) : Type 0 where
  pub order_id : Bytes
  pub cl_ord_id : Bytes
  pub exec_id : Bytes
  pub exec_type : ℕ
  pub ord_status : ℕ
  pub symbol : Bytes
  pub side : Side
  pub order_qty : ℕ
  pub price : Price
  pub last_qty : ℕ
  pub last_px : Price
  pub leaves_qty : ℕ
  pub cum_qty : ℕ
  pub avg_px : Price
  pub transact_time : Bytes

module _ {Price : Type 0} ⦃d : Double Price⦄ where
  -- The fields of a report of which something was traded, and of any other.
  abbrev pub last_fields : FixReport Price → List (Tag × Bytes)
  last_fields r =
      if ltb 0 r.last_qty
      then (Tag.last_qty, to_string r.last_qty) ∷ (Tag.last_px, d.fixed2 r.last_px) ∷ []
      else []

  abbrev pub report_fields : FixReport Price → List (Tag × Bytes)
  report_fields r =
      (Tag.order_id, r.order_id)
      ∷ (Tag.clord_id, r.cl_ord_id)
      ∷ (Tag.exec_id, r.exec_id)
      ∷ (Tag.exec_type, r.exec_type ∷ [])
      ∷ (Tag.ord_status, r.ord_status ∷ [])
      ∷ (Tag.symbol, r.symbol)
      ∷ (Tag.side, side_to_fix_char r.side ∷ [])
      ∷ (Tag.order_qty, to_string r.order_qty)
      ∷ (Tag.price, d.fixed2 r.price)
      ∷ (Tag.leaves_qty, to_string r.leaves_qty)
      ∷ (Tag.cum_qty, to_string r.cum_qty)
      ∷ (Tag.avg_px, d.fixed2 r.avg_px)
      ∷ (Tag.transact_time, r.transact_time)
      ∷ last_fields r

  unfoldable pub generate_execution_report : FixReport Price → Bytes → Bytes → ℕ → Bytes → Bytes
  generate_execution_report r sender target seq now =
      build_fix_message msg_type_execution_report (render (report_fields r)) sender target seq now

abbrev pub unless_empty : Tag → Bytes → List (Tag × Bytes)
unless_empty t s = if is_empty s then [] else (t, s) ∷ []

unfoldable pub generate_heartbeat : Bytes → Bytes → ℕ → Bytes → Bytes → Bytes
generate_heartbeat sender target seq test_req_id now =
    build_fix_message msg_type_heartbeat (render (unless_empty Tag.test_req_id test_req_id)) sender
      target seq now

unfoldable pub generate_logon : Bytes → Bytes → ℕ → ℤ → Bytes → Bytes
generate_logon sender target seq interval now =
    build_fix_message msg_type_logon (render ((Tag.heartbt_int, int_text interval) ∷ [])) sender
      target seq now

unfoldable pub generate_logout : Bytes → Bytes → ℕ → Bytes → Bytes → Bytes
generate_logout sender target seq text now =
    build_fix_message msg_type_logout (render (unless_empty Tag.text text)) sender target seq now

unfoldable pub generate_reject : Bytes → Bytes → ℕ → ℕ → Bytes → Bytes → Bytes
generate_reject sender target seq ref_seq_num text now =
    build_fix_message msg_type_reject
      (render ((Tag.ref_seq_num, to_string ref_seq_num) ∷ (Tag.text, text) ∷ [])) sender target seq
      now
