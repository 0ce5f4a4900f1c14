-- ===== src/Fix/Tests.antt =====
-- Messages that are built and parsed, and the theorems on them at concrete texts.
use financial_order_book.Prelude.{ℕ, ◌≡◌, refl, arith, true, List, [], ◌∷◌, none, some}
use financial_order_book.Prelude.Double.{Double, cents_double}
use financial_order_book.Prelude.Int.{ℤ}
use financial_order_book.Prelude.Map.{lookup, int_key}
use financial_order_book.Prelude.Text.{Bytes, codes}
use financial_order_book.Types.{Side, OrderType, TimeInForce, success}
use financial_order_book.Fix.Constants.{Tag, msg_type_logon, msg_type_new_order_single}
use financial_order_book.Fix.{render, build_fix_message, parse_message, calculate_checksum, sum32}
use financial_order_book.Fix.Requests.{parse_new_order_single}
use financial_order_book.Fix.Wire.{last_value}
use financial_order_book.Fix.RoundTrip.{all_fields, parse_message-build_fix_message}
use financial_order_book.Fix.Orders.{order_fields, parse_new_order_single-build_fix_message}
use financial_order_book.Fix.Reported.{Carries, generate_execution_report-parses}
use financial_order_book.Fix.Generate.{FixReport, generate_execution_report}

-- Every price text is a hundred cents.
abbrev pub hundred_double : Double ℕ
hundred_double = record cents_double { stod = λ s. some 100 }

abbrev pub logon_body : List (Tag × Bytes)
logon_body = (Tag.heartbt_int, codes "30") ∷ []

checksum_of_text : calculate_checksum (codes "35=A") ≡ 230
unfolding calculate_checksum sum32
checksum_of_text = refl

parse_message-build_fix_message_example :
    let m = parse_message (
      build_fix_message msg_type_logon
        (render logon_body)
        (codes "ME")
        (codes "YOU")
        1
        (codes "now")) in
    (m.is_valid ≡ true)
    × (m.error_message ≡ none)
    × (m.msg_type ≡ some msg_type_logon)
    × ((k : ℤ)
        → lookup k m.fields
          ≡ last_value k
              (all_fields msg_type_logon logon_body (codes "ME") (codes "YOU") 1 (codes "now"))
              none)
parse_message-build_fix_message_example =
    parse_message-build_fix_message msg_type_logon logon_body (codes "ME") (codes "YOU") 1
      (codes "now") (λ e. omega arith) (ground arith) (ground arith) (ground arith) (ground arith)

parse_new_order_single-build_fix_message_example :
    parse_new_order_single {Time = ℕ} ⦃d = hundred_double⦄ 5 (
      parse_message (
        build_fix_message msg_type_new_order_single
          (render (
            order_fields
              (codes "c1")
              (codes "BTC")
              Side.buy
              OrderType.limit
              TimeInForce.ioc
              (codes "1.00")
              7
              (codes "t")))
          (codes "ME")
          (codes "YOU")
          2
          (codes "now")))
    ≡ success (record {
      cl_ord_id = codes "c1";
      symbol = codes "BTC";
      side = Side.buy;
      order_type = OrderType.limit;
      time_in_force = TimeInForce.ioc;
      price = 100;
      quantity = 7;
      account = codes "c1";
      transact_time = 5;
    })
parse_new_order_single-build_fix_message_example =
    parse_new_order_single-build_fix_message ⦃d = hundred_double⦄ 5 (codes "c1") (codes "BTC")
      Side.buy OrderType.limit TimeInForce.ioc (codes "1.00") 100 7 (codes "t") (codes "ME")
      (codes "YOU") 2 (codes "now") (λ e. cc e) (λ e. cc e) (omega arith) refl (λ e. cc e)
      (ground arith) (ground arith) (ground arith) (ground arith) (ground arith) (ground arith)
      (ground arith)

abbrev pub filled_report : FixReport ℕ
filled_report = record {
  order_id = codes "o1";
  cl_ord_id = codes "c1";
  exec_id = codes "e1";
  exec_type = b'1';
  ord_status = b'1';
  symbol = codes "BTC";
  side = Side.buy;
  order_qty = 7;
  price = 100;
  last_qty = 3;
  last_px = 100;
  leaves_qty = 4;
  cum_qty = 3;
  avg_px = 100;
  transact_time = codes "t";
}

generate_execution_report-parses_example : Carries filled_report (codes "ME") (codes "YOU") 3 (
    parse_message
      (generate_execution_report filled_report (codes "ME") (codes "YOU") 3 (codes "now")))
generate_execution_report-parses_example =
    generate_execution_report-parses filled_report (codes "ME") (codes "YOU") 3 (codes "now")
      (λ x. tt)
      (record {
        order_id = ground arith;
        cl_ord_id = ground arith;
        exec_id = ground arith;
        exec_type = ground arith;
        ord_status = ground arith;
        symbol = ground arith;
        transact_time = ground arith;
      })
      (ground arith) (ground arith) (ground arith) (omega arith) (omega arith) (omega arith)
      (omega arith)
