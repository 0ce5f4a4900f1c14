-- ===== src/Risk/Limits.antt =====
-- What `RiskManager::validateOrder` approves.
use financial_order_book.Prelude.{
  ◌≡◌, ap, ℕ, ◌<◌, ◌≤◌, ◌^◌, Bool, true, ◌&&◌, not, if◌then◌else◌, arith, ◌↔◌,
}
use financial_order_book.Prelude.Int.{ℤ, pos, ◌+ℤ◌, ◌≤ℤ◌, int_laws, pos_part, neg_part}
use financial_order_book.Prelude.Double.{Double}
use financial_order_book.Prelude.Text.{Bytes, bytes_eq, bytes_eq_iff}
use financial_order_book.Types.{Side}
use financial_order_book.Order.{Order, Trade, is_buy_side}
use financial_order_book.Risk.{
  RiskManager, Portfolio, RiskLimits, get_position, update_position, portfolio_of, position_change,
  get_account_for_order, to_int64, validate_order, validate_position, is_approved,
}
use financial_order_book.Risk.Positions.{
  position_of, update_position_lem, negate_parts, neg_part-negate,
}

-- The position that the order leads to when the whole of it trades.
abbrev pub position_after : {Price : Type 0} → Portfolio Price → Order Price → ℤ
position_after p o = get_position p o.symbol +ℤ position_change o.side o.quantity

abbrev pub WithinLimits : {Price : Type 0} → RiskLimits Price → ℤ → Type 0
WithinLimits l a = (l.min_position ≤ℤ a) × (a ≤ℤ l.max_position)

to_int64_small : (q : ℕ) → q < 2 ^ 63 → to_int64 q ≡ pos q
unfolding to_int64
to_int64_small q h = ground arith

and_true : (b : Bool) → (b && true) ≡ b
and_true b = ground arith

module _ {Price : Type 0} where
  -- A part of a change that stays within the limits stays within them.
  within_part :
      (l : RiskLimits Price) (w after : ℤ) (side : Side) (q k : ℕ)
      → WithinLimits l w
      → WithinLimits l (w +ℤ position_change side q)
      → k ≤ q
      → q < 2 ^ 63
      → after +ℤ (if not (is_buy_side side) then to_int64 k else pos 0)
        ≡ w +ℤ (if is_buy_side side then to_int64 k else pos 0)
      → WithinLimits l after
  within_part l w after Side.buy q k h g le small e =
      let e1 = ap pos_part (rw (to_int64_small k (omega arith)) at e) in
      let e2 = ap neg_part (rw (to_int64_small k (omega arith)) at e) in
      let g1 = rw (to_int64_small q small) at g in
      (omega (int_laws, h, g1, le), omega (int_laws, h, g1, le))
  within_part l w after Side.sell q k h g le small e =
      let e1 = ap pos_part (rw (to_int64_small k (omega arith)) at e) in
      let e2 = ap neg_part (rw (to_int64_small k (omega arith)) at e) in
      let n1 = negate_parts (pos q) in
      let n2 = neg_part-negate (pos q) in
      let g1 = rw (to_int64_small q small) at g in
      (omega (int_laws, h, g1, le), omega (int_laws, h, g1, le))

  module _ ⦃d : Double Price⦄ where
    -- An order is approved exactly when its quantity is in 1 … max_order_size, its price passes
    -- both comparisons and the position that all of it leads to is within the limits.
    pub validate_order_lem :
        (r : RiskManager Price) (o : Order Price) (p : Portfolio Price)
        → (is_approved (validate_order r o p) ≡ true) ↔ (
            (1 ≤ o.quantity)
            × (o.quantity ≤ r.limits.max_order_size)
            × (d.le r.limits.min_price o.price ≡ true)
            × (d.le o.price r.limits.max_price ≡ true)
            × (r.limits.min_position ≤ℤ position_after p o)
            × (position_after p o ≤ℤ r.limits.max_position))
    unfolding validate_order validate_position
    validate_order_lem r o p = let after = position_after p o in ground arith

  -- Whoever's account holds a position within the limits still does after a trade that fills an
  -- approved order of it, in whole or in part: the order was checked against that account's
  -- portfolio, is below 2 ^ 63 and has its symbol, and the other side is another account.
  module _ ⦃d : Double Price⦄ where
    pub validate_order-keeps_limits :
        (r : RiskManager Price) (o : Order Price) (t : Trade Price) (account : Bytes)
        → is_approved (validate_order r o (portfolio_of r account)) ≡ true
        → WithinLimits r.limits (position_of r account o.symbol)
        → t.symbol ≡ o.symbol
        → t.quantity ≤ o.quantity
        → o.quantity < 2 ^ 63
        → bytes_eq (get_account_for_order r t.buy_order_id) account ≡ is_buy_side o.side
        → bytes_eq (get_account_for_order r t.sell_order_id) account ≡ not (is_buy_side o.side)
        → WithinLimits r.limits (position_of (update_position r t) account o.symbol)
    validate_order-keeps_limits r o t account ok start same le small buys sells =
        let v = (validate_order_lem r o (portfolio_of r account)).0 ok in
        let e = update_position_lem r t account o.symbol in
        let w = position_of r account o.symbol in
        within_part r.limits w (position_of (update_position r t) account o.symbol) o.side
          o.quantity t.quantity start (v.4, v.5) le small
          (rw
            (
              buys,
              sells,
              (bytes_eq_iff t.symbol o.symbol).1 same,
              and_true (is_buy_side o.side),
              and_true (not (is_buy_side o.side)),
            )
            at e)
