-- ===== src/Risk/Configured.antt =====
-- What `RiskManager::loadConfiguration` makes of the values of a configuration.
use financial_order_book.Prelude.{ℕ, ◌^◌, ◌≡◌, ◌<◌, ◌≤◌, ◌↔◌, sym, ap, true, some, arith}
use financial_order_book.Prelude.Double.{Double}
use financial_order_book.Prelude.Int.{negsuc, ◌≤ℤ◌}
use financial_order_book.Prelude.Text.{codes}
use financial_order_book.Order.{Order}
use financial_order_book.Config.{Config, get_int}
use financial_order_book.Risk.{RiskManager, Portfolio, validate_order, is_approved}
use financial_order_book.Risk.Limits.{position_after, validate_order_lem}
use financial_order_book.Risk.Loading.{limits_from, load_configuration, int_of_size, size_of_int}

size_of_negative : (n q : ℕ) → n < 2 ^ 31 → q < 2 ^ 63 → q ≤ size_of_int (negsuc n)
unfolding size_of_int
size_of_negative n q h small = ground arith

module _ {Price : Type 0} ⦃d : Double Price⦄ where
  -- Where the configured max_order_size is read as a negative number, an order of 1 … 2 ^ 63 - 1
  -- is approved exactly when its price and the position that it leads to are within the limits
  -- that were loaded: no order is too large.
  pub load_configuration_negative :
      (r : RiskManager Price) (c : Config Price) (o : Order Price) (p : Portfolio Price) (n : ℕ)
      → get_int c (codes "risk") (codes "max_order_size") (int_of_size r.limits.max_order_size)
        ≡ negsuc n
      → n < 2 ^ 31
      → 1 ≤ o.quantity
      → o.quantity < 2 ^ 63
      → let m = (load_configuration r (some c)).manager in
        (is_approved (validate_order m o p) ≡ true) ↔ (
          (d.le m.limits.min_price o.price ≡ true)
          × (d.le o.price m.limits.max_price ≡ true)
          × (m.limits.min_position ≤ℤ position_after p o)
          × (position_after p o ≤ℤ m.limits.max_position))
  unfolding load_configuration limits_from
  load_configuration_negative r c o p n e h one small =
      let m = (load_configuration r (some c)).manager in
      let v = validate_order_lem m o p in
      let fits = rw (sym (ap size_of_int e)) at (size_of_negative n o.quantity h small) in
      ((λ ok. let w = v.0 ok in (w.2, w.3, w.4, w.5)), λ g. v.1 (one, fits, g.0, g.1, g.2, g.3))
