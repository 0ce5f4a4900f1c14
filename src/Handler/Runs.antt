-- ===== src/Handler/Runs.antt =====
-- Sequences of what src/Network/FixMessageHandler.cpp handles.
use financial_order_book.Prelude.{
  ℕ, ◌≡◌, refl, sym, ◌∙◌, subst, Bool, true, false, List, [], ◌∷◌, Option, none, some,
  if◌then◌else◌,
}
use financial_order_book.Prelude.Double.{Double}
use financial_order_book.Prelude.Map.{
  lookup, insert, erase, nat_key, bytes_key, Each-insert, Each-erase,
}
use financial_order_book.Prelude.Text.{Bytes}
use financial_order_book.Types.{add64, Side, Result, success, error}
use financial_order_book.Order.{Order, Trade}
use financial_order_book.Manager.Calls.{Adds, add_order-Adds}
use financial_order_book.Manager.{OrderManager, ManagerError, add_order}
use financial_order_book.Session.{Session}
use financial_order_book.Fix.Requests.{
  NewOrderSingle, OrderCancelReplaceRequest, OrderCancelRequest,
}
use financial_order_book.Handler.{
  Handler, exec_type_new, send_execution, send_trade, send_rejection, handle_trade_execution,
  handle_order_status_change,
}
use financial_order_book.Handler.Requests.{
  NewOrder, valid, invalid, Change, Unset, convert_to_internal_order, passes_risk, link, after_add,
  submit, handle_new_order_single, reject_text, after_modify, replace_found,
  handle_order_cancel_replace_request, after_cancel, cancel_found, handle_order_cancel_request,
}
use financial_order_book.Handler.Known.{
  Has, Grows, cancel_order-Grows, modify_order-Grows, Adds-Grows, Adds-Added, AllKnown, IsKnown,
  same-IsKnown, AllKnown-Grows, AllKnown-undone, send_execution-SameIds, send_rejection-SameIds,
  confirm-SameIds, link-IsKnown,
}

-- What a handler is called with.
pub data Call (Price Time : Type 0) : Type 0 where
  new_order : NewOrder Price Time → Call Price Time
  replace : Change (OrderCancelReplaceRequest Price Time) → Call Price Time
  cancels : Change (OrderCancelRequest Time) → Call Price Time
  traded : Trade Price → Call Price Time
  changed : Order Price → Call Price Time

module _ {Price Time Level : Type 0} ⦃d : Double Price⦄ (now : Bytes) (u : Unset Price) where
  -- An exception of a new order is the session's, which goes on.
  abbrev pub handle : Handler Price Time Level → Call Price Time → Handler Price Time Level
  handle h (new_order n) = (handle_new_order_single now h n).0
  handle h (replace r) = handle_order_cancel_replace_request now u h r
  handle h (cancels r) = handle_order_cancel_request now u h r
  handle h (traded t) = handle_trade_execution now h t
  handle h (changed o) = handle_order_status_change now h o

  abbrev pub handle_all :
      Handler Price Time Level → List (Call Price Time) → Handler Price Time Level
  handle_all h [] = h
  handle_all h (c ∷ cs) = handle_all (handle h c) cs

  rejected-IsKnown :
      (h : Handler Price Time Level) (c symbol : Bytes) (side : Side)
      → IsKnown h
      → IsKnown (send_rejection now h c symbol side)
  rejected-IsKnown h c symbol side k = same-IsKnown (send_rejection-SameIds now h c symbol side) k

  -- What is left of the client ids after `addOrder` said yes or no.
  after_add-IsKnown :
      (h : Handler Price Time Level) (n : NewOrderSingle Price Time) (o : Order Price)
      (ids : List (Bytes × ℕ)) (r : OrderManager Price Level × Result (ManagerError Price) ℕ)
      → h.order_ids ≡ insert n.cl_ord_id o.id ids
      → AllKnown h.manager ids
      → Adds h.manager o r
      → IsKnown (after_add now h n r).0
  after_add-IsKnown h n o ids (m, error e) s k a =
      let h1 = send_rejection now (record h { manager = m }) n.cl_ord_id n.symbol n.side in
      let same =
        send_rejection-SameIds now (record h { manager = m }) n.cl_ord_id n.symbol n.side in
      subst (λ x. AllKnown x (erase n.cl_ord_id h1.order_ids)) (sym same.manager_same)
        (subst (λ is. AllKnown m (erase n.cl_ord_id is)) (sym (same.order_ids_same ∙ s))
          (AllKnown-undone m n.cl_ord_id o.id ids
            (AllKnown-Grows h.manager m ids (Adds-Grows h.manager o _ a) k)))
  after_add-IsKnown h n o ids (m, success id) s k a = subst (AllKnown m) (sym s) (
      Each-insert (λ c j. Has m j) n.cl_ord_id o.id ids
        (AllKnown-Grows h.manager m ids (Adds-Grows h.manager o _ a) k)
        (Adds-Added h.manager o _ a))

  submit-IsKnown :
      (h : Handler Price Time Level) (n : NewOrderSingle Price Time) (o : Order Price)
      → IsKnown h
      → IsKnown (submit now h n o).0
  unfolding submit link
  submit-IsKnown h n o k =
      let h1 = send_execution now (link h n.cl_ord_id o.id) o exec_type_new 0 d.nought in
      let same = send_execution-SameIds now (link h n.cl_ord_id o.id) o exec_type_new 0 d.nought in
      after_add-IsKnown h1 n o h.order_ids (add_order h1.manager (some o)) same.order_ids_same
        (subst (λ m. AllKnown m h.order_ids) (sym same.manager_same) k)
        (add_order-Adds h1.manager o)

  new_order-IsKnown :
      (h : Handler Price Time Level) (n : NewOrder Price Time)
      → IsKnown h
      → IsKnown (handle_new_order_single now h n).0
  unfolding handle_new_order_single
  new_order-IsKnown h (invalid c symbol side) k = rejected-IsKnown _ c symbol side k
  new_order-IsKnown h (valid n) k =
      let h1 : Handler Price Time Level = record h {
        orders_processed = add64 h.orders_processed 1;
        order_id_counter = add64 h.order_id_counter 1;
      } in
      let o = convert_to_internal_order h.order_id_counter n in
      either (passes_risk h.risk o) (submit now h1 n o) _ (submit-IsKnown h1 n o k)
        (rejected-IsKnown h1 n.cl_ord_id n.symbol n.side k)
    where
      either :
          (b : Bool) (x y : Handler Price Time Level × Bool)
          → IsKnown x.0
          → IsKnown y.0
          → IsKnown (if b then x else y).0
      either true x y p q = p
      either false x y p q = q

  reject_text-IsKnown :
      (h : Handler Price Time Level) (s : Option (Session Price Time)) (text : Bytes)
      → IsKnown h
      → IsKnown (reject_text now h s text)
  reject_text-IsKnown h none text k = k
  reject_text-IsKnown h (some s) text k = k

  after_cancel-IsKnown :
      (h : Handler Price Time Level) (r : OrderCancelRequest Time) (id : ℕ)
      (t : OrderManager Price Level × Result (ManagerError Price) Bool)
      → Grows h.manager t.0
      → Has h.manager id
      → IsKnown h
      → IsKnown (after_cancel now u h r id t)
  after_cancel-IsKnown h r id (m, success b) g has k =
      let h1 : Handler Price Time Level = record h { manager = m } in
      same-IsKnown (confirm-SameIds now (link h1 r.cl_ord_id id) _ _)
        (link-IsKnown now h1 r.cl_ord_id id (g id has) (AllKnown-Grows h.manager m h.order_ids g k))
  after_cancel-IsKnown h r id (m, error e) g has k =
      rejected-IsKnown (record h { manager = m }) r.cl_ord_id r.symbol _
        (AllKnown-Grows h.manager m h.order_ids g k)

  after_modify-IsKnown :
      (h : Handler Price Time Level) (r : OrderCancelReplaceRequest Price Time) (id : ℕ)
      (t : OrderManager Price Level × Result (ManagerError Price) Bool)
      → Grows h.manager t.0
      → Has h.manager id
      → IsKnown h
      → IsKnown (after_modify now u h r id t)
  after_modify-IsKnown h r id (m, success b) g has k =
      let h1 : Handler Price Time Level = record h {
        manager = m;
        order_ids = erase r.orig_cl_ord_id h.order_ids;
      } in
      same-IsKnown (confirm-SameIds now (link h1 r.cl_ord_id id) _ _) (
        link-IsKnown now h1 r.cl_ord_id id (g id has) (
          Each-erase (λ c n. Has m n) r.orig_cl_ord_id h.order_ids
            (AllKnown-Grows h.manager m h.order_ids g k)))
  after_modify-IsKnown h r id (m, error e) g has k =
      rejected-IsKnown (record h { manager = m }) r.cl_ord_id r.symbol _
        (AllKnown-Grows h.manager m h.order_ids g k)

  send_trade-IsKnown :
      (h : Handler Price Time Level) (t : Trade Price) (o : Option (Order Price))
      → IsKnown h
      → IsKnown (send_trade now h t o)
  send_trade-IsKnown h t none k = k
  send_trade-IsKnown h t (some o) k = same-IsKnown (send_execution-SameIds now h o _ _ _) k

  handle-IsKnown :
      (h : Handler Price Time Level) (c : Call Price Time) → IsKnown h → IsKnown (handle h c)
  unfolding handle_order_cancel_replace_request handle_order_cancel_request handle_trade_execution
      handle_order_status_change
  handle-IsKnown h (new_order n) k = new_order-IsKnown h n k
  handle-IsKnown h (replace (invalid e)) k = reject_text-IsKnown h h.session _ k
  handle-IsKnown h (replace (valid r)) k = found (lookup r.orig_cl_ord_id h.order_ids) refl
    where
      found :
          (i : Option ℕ)
          → lookup r.orig_cl_ord_id h.order_ids ≡ i
          → IsKnown (replace_found now u h r i)
      found none e = rejected-IsKnown h r.cl_ord_id r.symbol _ k
      found (some id) e =
          after_modify-IsKnown h r id _ (modify_order-Grows h.manager id _ _)
            (k r.orig_cl_ord_id id e) k
  handle-IsKnown h (cancels (invalid e)) k = reject_text-IsKnown h h.session _ k
  handle-IsKnown h (cancels (valid r)) k = found (lookup r.orig_cl_ord_id h.order_ids) refl
    where
      found :
          (i : Option ℕ)
          → lookup r.orig_cl_ord_id h.order_ids ≡ i
          → IsKnown (cancel_found now u h r i)
      found none e = rejected-IsKnown h r.cl_ord_id r.symbol _ k
      found (some id) e =
          after_cancel-IsKnown h r id _ (cancel_order-Grows h.manager id) (k r.orig_cl_ord_id id e)
            k
  handle-IsKnown h (traded t) k = send_trade-IsKnown _ t _ (send_trade-IsKnown _ t _ k)
  handle-IsKnown h (changed o) k = same-IsKnown (send_execution-SameIds now h o _ _ _) k

  -- Whatever a handler is called with, each client id that it knows names an order that the order
  -- manager has, if this was so before: an order that is refused takes its client id with it.
  pub handle_all-IsKnown :
      (h : Handler Price Time Level) (cs : List (Call Price Time))
      → IsKnown h
      → IsKnown (handle_all h cs)
  handle_all-IsKnown h [] k = k
  handle_all-IsKnown h (c ∷ cs) k = handle_all-IsKnown (handle h c) cs (handle-IsKnown h c k)
