-- ===== src/Handler/Refused.antt =====
-- A new order that `addOrder` refuses, in src/Network/FixMessageHandler.cpp.
use financial_order_book.Prelude.{
  ℕ, ◌≡◌, refl, ap, sym, subst, Bool, true, false, List, [], ◌∷◌, ◌++◌, some,
}
use financial_order_book.Prelude.Double.{Double}
use financial_order_book.Prelude.Map.{lookup, erase, bytes_key, nat_key, lookup-insert_self}
use financial_order_book.Prelude.Text.{Bytes}
use financial_order_book.Types.{Side, error, add64}
use financial_order_book.Order.{Order}
use financial_order_book.Manager.{OrderManager, ManagerError, add_order}
use financial_order_book.Session.{Session, is_logged_in, send_execution_report, send_numbered}
use financial_order_book.Fix.Requests.{NewOrderSingle}
use financial_order_book.Fix.Generate.{FixReport, generate_execution_report}
use financial_order_book.Handler.{
  Handler, exec_type_new, set_fix_session, report_of, rejection_of, send_execution, send_rejection,
}
use financial_order_book.Handler.Requests.{
  valid, convert_to_internal_order, passes_risk, link, after_add, submit, handle_new_order_single,
}

append_two {ℓ} : {A : Type ℓ} (xs : List A) (x y : A) → (xs ++ x ∷ []) ++ y ∷ [] ≡ xs ++ x ∷ y ∷ []
append_two [] x y = refl
append_two (z ∷ xs) x y = ap (λ l. z ∷ l) (append_two xs x y)

module _ {Price Time : Type 0} ⦃d : Double Price⦄ (now : Bytes) where
  -- The session after one report.
  abbrev reported : Session Price Time → FixReport Price → Session Price Time
  reported s r = send_numbered s (λ n. generate_execution_report r s.sender s.target n now)

module _ {Price Time Level : Type 0} ⦃d : Double Price⦄ (now : Bytes) where
  -- What the session has sent, and the two numbers that the handler counts in.
  pub record Answered (h : Handler Price Time Level) (s : Session Price Time) (ms : List Bytes)
      (r : Handler Price Time Level × Bool) : Type 0 where
    pub session_after : Session Price Time
    pub session_is : r.0.session ≡ some session_after
    pub sent_is : session_after.sent ≡ s.sent ++ ms
    pub not_counted : r.0.orders_rejected ≡ h.orders_rejected
    pub throws : r.1 ≡ false

  abbrev report_sent :
      Handler Price Time Level → Session Price Time → FixReport Price → Handler Price Time Level
  report_sent h s r = record h {
    session = some (reported now s r);
    execution_id_counter = add64 h.execution_id_counter 1;
  }

  send_execution_lem :
      (h : Handler Price Time Level) (s : Session Price Time) (o : Order Price) (c : Bytes) (e : ℕ)
      → is_logged_in s ≡ true
      → lookup o.id h.cl_ord_ids ≡ some c
      → send_execution now (set_fix_session h (some s)) o e 0 d.nought
        ≡ report_sent h s (report_of now o c h.execution_id_counter e 0 d.nought)
  unfolding send_execution send_execution_report
  send_execution_lem h s o c e logged known = rw (logged, known, logged) refl

  send_rejection_lem :
      (h : Handler Price Time Level) (s : Session Price Time) (c symbol : Bytes) (side : Side)
      → is_logged_in s ≡ true
      → send_rejection now (set_fix_session h (some s)) c symbol side
        ≡ report_sent h s (rejection_of now c symbol side h.execution_id_counter)
  unfolding send_rejection send_execution_report
  send_rejection_lem h s c symbol side logged = rw logged refl

  -- The confirmation of an order with its client id, and the rejection after it.
  abbrev pub both_answers :
      Handler Price Time Level → Session Price Time → NewOrderSingle Price Time → List Bytes
  both_answers h s n =
      let k = add64 s.outgoing_seq 1 in
      let o : Order Price = convert_to_internal_order h.order_id_counter n in
      let new = report_of now o n.cl_ord_id h.execution_id_counter exec_type_new 0 d.nought in
      let refusal = rejection_of now n.cl_ord_id n.symbol n.side (add64 h.execution_id_counter 1) in
      generate_execution_report {Price = Price} new s.sender s.target k now
      ∷ generate_execution_report {Price = Price} refusal s.sender s.target (add64 k 1) now
      ∷ []

  -- In a session that is logged in, an order that passes the risk check and that the order
  -- manager refuses is answered twice: first it is confirmed as new, then it is rejected; the call
  -- ends by an exception, and the rejection is not counted.
  pub refused_order-Answered :
      (h : Handler Price Time Level) (s : Session Price Time) (n : NewOrderSingle Price Time)
      (m : OrderManager Price Level) (e : ManagerError Price)
      → is_logged_in s ≡ true
      → passes_risk h.risk (convert_to_internal_order h.order_id_counter n) ≡ true
      → add_order h.manager (some (convert_to_internal_order h.order_id_counter n)) ≡ (m, error e)
      → Answered h s
          (both_answers h s n)
          (handle_new_order_single now (set_fix_session h (some s)) (valid n))
  unfolding handle_new_order_single submit link send_numbered
  refused_order-Answered h s n m e logged passes refused =
      let o : Order Price = convert_to_internal_order h.order_id_counter n in
      let c = n.cl_ord_id in
      let h0 : Handler Price Time Level = record h {
        orders_processed = add64 h.orders_processed 1;
        order_id_counter = add64 h.order_id_counter 1;
      } in
      let h1 = link h0 c o.id in
      let r1 = report_of now o c h.execution_id_counter exec_type_new 0 d.nought in
      let known = lookup-insert_self o.id c h.cl_ord_ids in
      let h2 : Handler Price Time Level = record h1 {
        manager = m;
        execution_id_counter = add64 h.execution_id_counter 1;
      } in
      let Says : Handler Price Time Level × Bool → Type 0 = Answered h s (both_answers h s n) in
      rw passes (
        subst (λ x. Says (after_add now x n (add_order x.manager (some o))))
          (sym (send_execution_lem h1 s o c exec_type_new logged known))
          (subst (λ t. Says (after_add now (report_sent h1 s r1) n t)) (sym refused)
            (subst (λ x. Says (record x { order_ids = erase c x.order_ids }, false))
              (sym
                (send_rejection_lem h2 (reported now s r1) c n.symbol n.side (still s r1 logged)))
              (record {
                session_after = _;
                session_is = refl;
                sent_is = append_two s.sent _ _;
                not_counted = refl;
                throws = refl;
              }))))
    where
      still :
          (s : Session Price Time) (r : FixReport Price)
          → is_logged_in s ≡ true
          → is_logged_in (reported now s r) ≡ true
      still s r h = h
