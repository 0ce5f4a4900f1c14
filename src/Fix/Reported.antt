-- ===== src/Fix/Reported.antt =====
-- A generated execution report is read back.
use financial_order_book.Prelude.{
  ℕ, Bool, true, false, [], ◌∷◌, ◌++◌, ltb, if◌then◌else◌, ◌≡◌, ◌<◌, ◌^◌, refl, arith, ap, ◌∙◌,
  Bool-cases, inl, inr, some, none, Option,
}
use financial_order_book.Prelude.Double.{Double}
use financial_order_book.Prelude.Int.{pos}
use financial_order_book.Prelude.Decimal.{
  signed, skip_space, to_string, stoull, stoull-to_string, to_string-IsDigits,
}
use financial_order_book.Prelude.Text.{Bytes}
use financial_order_book.Types.{Side}
use financial_order_book.Fix.Constants.{Tag, number, msg_type_execution_report}
use financial_order_book.Fix.{parse_message, get_field, or_empty, FixMessage}
use financial_order_book.Fix.Requests.{side_to_fix_char}
use financial_order_book.Fix.Wire.{last_value, IsClean, IsDigits-IsClean}
use financial_order_book.Fix.RoundTrip.{
  IsBody, checksum_text, closing, parse_message-build_fix_message,
}
use financial_order_book.Fix.Generate.{
  FixReport, report_fields, last_fields, generate_execution_report,
}

stoull_nil : stoull [] ≡ none
unfolding stoull signed skip_space
stoull_nil = refl

read_quantity :
    {v : Option Bytes} (q : ℕ) → q < 2 ^ 64 → v ≡ some (to_string q) → stoull (or_empty v) ≡ some q
read_quantity q small h = ap (λ v. stoull (or_empty v)) h ∙ stoull-to_string q small

digits-IsClean : (n : ℕ) → IsClean (to_string n)
digits-IsClean n = IsDigits-IsClean (to_string n) (to_string-IsDigits n)

side-IsClean : (s : Side) → IsClean (side_to_fix_char s ∷ [])
side-IsClean Side.buy = ((λ e. omega arith), tt)
side-IsClean Side.sell = ((λ e. omega arith), tt)

-- The tags that stand in a report before what was last traded.
abbrev is_early : Tag → Bool
is_early Tag.last_qty = false
is_early Tag.last_px = false
is_early Tag.checksum = false
is_early _ = true

module _ {Price : Type 0} ⦃d : Double Price⦄ where
  -- The texts of a report hold no delimiter.
  pub record IsCleanReport (r : FixReport Price) : Type 0 where
    pub order_id : IsClean r.order_id
    pub cl_ord_id : IsClean r.cl_ord_id
    pub exec_id : IsClean r.exec_id
    pub exec_type : IsClean (r.exec_type ∷ [])
    pub ord_status : IsClean (r.ord_status ∷ [])
    pub symbol : IsClean r.symbol
    pub transact_time : IsClean r.transact_time

  last_fields-IsBody :
      (r : FixReport Price) → ((x : Price) → IsClean (d.fixed2 x)) → IsBody (last_fields r)
  last_fields-IsBody r f = elim (Bool-cases (ltb 0 r.last_qty)) [
    | inl e ↦ rw e ((refl, digits-IsClean r.last_qty), ((refl, f r.last_px), tt))
    | inr e ↦ rw e tt
  ]

  report_fields-IsBody :
      (r : FixReport Price)
      → ((x : Price) → IsClean (d.fixed2 x))
      → IsCleanReport r
      → IsBody (report_fields r)
  report_fields-IsBody r f c = (
    (refl, c.order_id),
    (
      (refl, c.cl_ord_id),
      (
        (refl, c.exec_id),
        (
          (refl, c.exec_type),
          (
            (refl, c.ord_status),
            (
              (refl, c.symbol),
              (
                (refl, side-IsClean r.side),
                (
                  (refl, digits-IsClean r.order_qty),
                  (
                    (refl, f r.price),
                    (
                      (refl, digits-IsClean r.leaves_qty),
                      (
                        (refl, digits-IsClean r.cum_qty),
                        ((refl, f r.avg_px), ((refl, c.transact_time), last_fields-IsBody r f)),
                      ),
                    ),
                  ),
                ),
              ),
            ),
          ),
        ),
      ),
    ),
  )

  last_fields_other :
      (r : FixReport Price) (sum : Bytes) (v : Option Bytes) (t : Tag)
      → is_early t ≡ true
      → last_value (pos (number t)) (last_fields r ++ closing sum) v ≡ v
  last_fields_other r sum v t h = elim (Bool-cases (ltb 0 r.last_qty)) [
    | inl e ↦ rw e (ground arith)
    | inr e ↦ rw e (ground arith)
  ]

  last_fields_last :
      (r : FixReport Price) (sum : Bytes)
      → r.last_qty < 2 ^ 64
      → stoull (or_empty (last_value (pos 32) (last_fields r ++ closing sum) none))
        ≡ (if ltb 0 r.last_qty then some r.last_qty else none)
  last_fields_last r sum q = elim (Bool-cases (ltb 0 r.last_qty)) [
    | inl e ↦ rw e (stoull-to_string r.last_qty q)
    | inr e ↦ rw e stoull_nil
  ]

  last_fields_price :
      (r : FixReport Price) (sum : Bytes)
      → or_empty (last_value (pos 31) (last_fields r ++ closing sum) none)
        ≡ (if ltb 0 r.last_qty then d.fixed2 r.last_px else [])
  last_fields_price r sum = elim (Bool-cases (ltb 0 r.last_qty)) [
    | inl e ↦ rw e refl
    | inr e ↦ rw e refl
  ]

  -- A message with the sender, the target and the number of its header, and with every member of
  -- a report under its tag: texts and characters as they are, prices printed, quantities readable;
  -- what was last traded stands in it where that is more than zero.
  pub record Carries (r : FixReport Price) (sender target : Bytes) (seq : ℕ) (m : FixMessage)
      : Type 0 where
    pub is_valid : m.is_valid ≡ true
    pub msg_type : m.msg_type ≡ some msg_type_execution_report
    pub sender_is : get_field m Tag.sender_comp_id ≡ sender
    pub target_is : get_field m Tag.target_comp_id ≡ target
    pub number_is : get_field m Tag.msg_seq_num ≡ to_string seq
    pub order_id : get_field m Tag.order_id ≡ r.order_id
    pub cl_ord_id : get_field m Tag.clord_id ≡ r.cl_ord_id
    pub exec_id : get_field m Tag.exec_id ≡ r.exec_id
    pub exec_type : get_field m Tag.exec_type ≡ r.exec_type ∷ []
    pub ord_status : get_field m Tag.ord_status ≡ r.ord_status ∷ []
    pub symbol : get_field m Tag.symbol ≡ r.symbol
    pub side : get_field m Tag.side ≡ side_to_fix_char r.side ∷ []
    pub order_qty : stoull (get_field m Tag.order_qty) ≡ some r.order_qty
    pub price : get_field m Tag.price ≡ d.fixed2 r.price
    pub leaves_qty : stoull (get_field m Tag.leaves_qty) ≡ some r.leaves_qty
    pub cum_qty : stoull (get_field m Tag.cum_qty) ≡ some r.cum_qty
    pub avg_px : get_field m Tag.avg_px ≡ d.fixed2 r.avg_px
    pub transact_time : get_field m Tag.transact_time ≡ r.transact_time
    pub last_qty :
        stoull (get_field m Tag.last_qty) ≡ (if ltb 0 r.last_qty then some r.last_qty else none)
    pub last_px : get_field m Tag.last_px ≡ (if ltb 0 r.last_qty then d.fixed2 r.last_px else [])

  -- A generated report, of which the texts and the printed prices hold no delimiter and the
  -- quantities have 64 bits, with a sender, a target and a time without one, is parsed as a valid execution report that carries every member of
  -- the report under its tag, and the sender, the target and the number that were given.
  pub generate_execution_report-parses :
      (r : FixReport Price) (sender target : Bytes) (seq : ℕ) (now : Bytes)
      → ((x : Price) → IsClean (d.fixed2 x))
      → IsCleanReport r
      → IsClean sender
      → IsClean target
      → IsClean now
      → r.order_qty < 2 ^ 64
      → r.leaves_qty < 2 ^ 64
      → r.cum_qty < 2 ^ 64
      → r.last_qty < 2 ^ 64
      → Carries r sender target seq
          (parse_message (generate_execution_report r sender target seq now))
  unfolding generate_execution_report
  generate_execution_report-parses r sender target seq now f c cs ct cn q1 q2 q3 q4 =
      let h =
        parse_message-build_fix_message msg_type_execution_report (report_fields r) sender target
          seq now (λ e. omega arith) (report_fields-IsBody r f c) cs ct cn in
      let c10 = checksum_text msg_type_execution_report (report_fields r) sender target seq now in
      let early =
        λ (v : Bytes) (t : Tag) (e : is_early t ≡ true). last_fields_other r c10 (some v) t e in
      record {
        is_valid = h.0;
        msg_type = h.2;
        sender_is = ap or_empty (h.3 (pos 49) ∙ early sender Tag.sender_comp_id refl);
        target_is = ap or_empty (h.3 (pos 56) ∙ early target Tag.target_comp_id refl);
        number_is = ap or_empty (h.3 (pos 34) ∙ early (to_string seq) Tag.msg_seq_num refl);
        order_id = ap or_empty (h.3 (pos 37) ∙ early r.order_id Tag.order_id refl);
        cl_ord_id = ap or_empty (h.3 (pos 11) ∙ early r.cl_ord_id Tag.clord_id refl);
        exec_id = ap or_empty (h.3 (pos 17) ∙ early r.exec_id Tag.exec_id refl);
        exec_type = ap or_empty (h.3 (pos 150) ∙ early (r.exec_type ∷ []) Tag.exec_type refl);
        ord_status = ap or_empty (h.3 (pos 39) ∙ early (r.ord_status ∷ []) Tag.ord_status refl);
        symbol = ap or_empty (h.3 (pos 55) ∙ early r.symbol Tag.symbol refl);
        side = ap or_empty (h.3 (pos 54) ∙ early (side_to_fix_char r.side ∷ []) Tag.side refl);
        order_qty =
            read_quantity r.order_qty q1
              (h.3 (pos 38) ∙ early (to_string r.order_qty) Tag.order_qty refl);
        price = ap or_empty (h.3 (pos 44) ∙ early (d.fixed2 r.price) Tag.price refl);
        leaves_qty =
            read_quantity r.leaves_qty q2
              (h.3 (pos 151) ∙ early (to_string r.leaves_qty) Tag.leaves_qty refl);
        cum_qty =
            read_quantity r.cum_qty q3
              (h.3 (pos 14) ∙ early (to_string r.cum_qty) Tag.cum_qty refl);
        avg_px = ap or_empty (h.3 (pos 6) ∙ early (d.fixed2 r.avg_px) Tag.avg_px refl);
        transact_time = ap or_empty (h.3 (pos 60) ∙ early r.transact_time Tag.transact_time refl);
        last_qty = ap (λ v. stoull (or_empty v)) (h.3 (pos 32)) ∙ last_fields_last r c10 q4;
        last_px = ap or_empty (h.3 (pos 31)) ∙ last_fields_price r c10;
      }
