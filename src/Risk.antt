-- ===== src/Risk.antt =====
-- src/Risk/RiskManager.cpp, include/orderbook/Risk/RiskManager.hpp, and `struct Portfolio` of
-- include/orderbook/Core/Order.hpp. Positions are integers: an int64_t sum that overflows is
-- undefined in the source. The configuration object and the logger are left out.
pub mod Positions
pub mod Limits
pub mod Loading
pub mod Configured
mod Tests
use financial_order_book.Prelude.{
  ℕ, ◌+◌, ◌-◌, ◌^◌, Bool, true, false, not, ◌&&◌, List, [], ◌∷◌, ◌++◌, Option, none, some, ltb, leb,
  if◌then◌else◌,
}
use financial_order_book.Prelude.Double.{Double}
use financial_order_book.Prelude.Decimal.{to_string}
use financial_order_book.Prelude.Int.{ℤ, pos, negsuc, sub_ℕ, ◌+ℤ◌, ◌-ℤ◌, ltb_ℤ, pos_part, neg_part}
use financial_order_book.Prelude.Map.{Key, lookup, insert, nat_key, bytes_key}
use financial_order_book.Prelude.Text.{Bytes, codes}
use financial_order_book.Types.{Side, RiskResult, u64}
use financial_order_book.Order.{Order, Trade, is_buy_side}

pub record Portfolio (Price : Type 0) : Type 0 where
  pub account : Bytes
  pub positions : List (Bytes × ℤ)
  pub avg_prices : List (Bytes × Price)

pub record RiskLimits (Price : Type 0) : Type 0 where
  pub max_order_size : ℕ
  pub max_price : Price
  pub min_price : Price
  pub max_position : ℤ
  pub min_position : ℤ

-- The reason that a check gives.
pub data RiskReason (Price : Type 0) : Type 0 where
  size_exceeds : ℕ → ℕ → RiskReason Price
  price_outside : Price → Price → Price → RiskReason Price
  position_exceeds : Bytes → RiskReason Price
  passed_all : RiskReason Price

pub record RiskCheck (Price : Type 0) : Type 0 where
  pub result : RiskResult
  pub reason : RiskReason Price

pub record RiskManager (Price : Type 0) : Type 0 where
  pub limits : RiskLimits Price
  pub portfolios : List (Bytes × Portfolio Price)
  pub order_to_account : List (ℕ × Bytes)

abbrev pub is_approved_result : RiskResult → Bool
is_approved_result RiskResult.approved = true
is_approved_result RiskResult.rejected = false

-- `static_cast<int64_t>` of a quantity, and the negation.
unfoldable pub to_int64 : ℕ → ℤ
to_int64 q = if ltb q (2 ^ 63) then pos q else sub_ℕ q u64

unfoldable pub negate : ℤ → ℤ
negate a = sub_ℕ (neg_part a) (pos_part a)

abbrev pub is_zero_ℤ : ℤ → Bool
is_zero_ℤ (pos ℕ.zero) = true
is_zero_ℤ _ = false

abbrev pub or_zero : Option ℤ → ℤ
or_zero none = pos 0
or_zero (some a) = a

abbrev pub position_change : Side → ℕ → ℤ
position_change side q = if is_buy_side side then to_int64 q else negate (to_int64 q)

module _ {Price : Type 0} where
  abbrev pub new_portfolio : Bytes → Portfolio Price
  new_portfolio account = record { account = account; positions = []; avg_prices = [] }

  unfoldable pub get_position : Portfolio Price → Bytes → ℤ
  get_position p symbol = or_zero (lookup symbol p.positions)

  -- `Portfolio::updatePosition`
  unfoldable pub change_position : Portfolio Price → Bytes → ℤ → Price → Portfolio Price
  change_position p symbol change price =
      let after = or_zero (lookup symbol p.positions) +ℤ change in
      record p {
        positions = insert symbol after p.positions;
        avg_prices = if is_zero_ℤ after then p.avg_prices else insert symbol price p.avg_prices;
      }

  abbrev pub is_approved : RiskCheck Price → Bool
  is_approved c = is_approved_result c.result

  unfoldable pub associate_order_with_account : RiskManager Price → ℕ → Bytes → RiskManager Price
  associate_order_with_account r id account = record r {
    order_to_account = insert id account r.order_to_account;
  }

  unfoldable pub get_account_for_order : RiskManager Price → ℕ → Bytes
  get_account_for_order r id = elim (lookup id r.order_to_account) [
    | some account ↦ account
    | none ↦ codes "account_" ++ to_string id
  ]

  -- A portfolio that is asked for is made where there is none.
  abbrev pub with_portfolio : RiskManager Price → Bytes → RiskManager Price
  with_portfolio r account = elim (lookup account r.portfolios) [
    | some p ↦ r
    | none ↦ record r { portfolios = insert account (new_portfolio account) r.portfolios }
  ]

  abbrev pub or_new : Bytes → Option (Portfolio Price) → Portfolio Price
  or_new account none = new_portfolio account
  or_new account (some p) = p

  abbrev pub portfolio_of : RiskManager Price → Bytes → Portfolio Price
  portfolio_of r account = or_new account (lookup account r.portfolios)

  -- `getPortfolio`: the manager after the call, whose map is mutable, and the portfolio.
  unfoldable pub get_portfolio : RiskManager Price → Bytes → RiskManager Price × Portfolio Price
  get_portfolio r account = (with_portfolio r account, portfolio_of r account)

  -- One half of `RiskManager::updatePosition`.
  unfoldable pub book_trade : RiskManager Price → Bytes → Bytes → ℤ → Price → RiskManager Price
  book_trade r account symbol change price = record r {
    portfolios =
        insert account (change_position (portfolio_of r account) symbol change price) r.portfolios;
  }

  unfoldable pub update_position : RiskManager Price → Trade Price → RiskManager Price
  update_position r t =
      let buyer = get_account_for_order r t.buy_order_id in
      let seller = get_account_for_order r t.sell_order_id in
      let r1 = book_trade r buyer t.symbol (to_int64 t.quantity) t.price in
      book_trade r1 seller t.symbol (negate (to_int64 t.quantity)) t.price

  abbrev pub set_limits : RiskManager Price → RiskLimits Price → RiskManager Price
  set_limits r limits = record r { limits = limits }

  abbrev pub validate_order_size : RiskLimits Price → ℕ → Bool
  validate_order_size l q = ltb 0 q && leb q l.max_order_size

  unfoldable pub validate_position : RiskLimits Price → Portfolio Price → Order Price → Bool
  validate_position l p o =
      let after = get_position p o.symbol +ℤ position_change o.side o.quantity in
      not (ltb_ℤ after l.min_position) && not (ltb_ℤ l.max_position after)

  module _ ⦃d : Double Price⦄ where
    abbrev pub validate_price : RiskLimits Price → Price → Bool
    validate_price l price = d.le l.min_price price && d.le price l.max_price

    unfoldable pub validate_order :
        RiskManager Price → Order Price → Portfolio Price → RiskCheck Price
    validate_order r o p =
        if not (validate_order_size r.limits o.quantity)
        then record {
          result = RiskResult.rejected;
          reason = size_exceeds o.quantity r.limits.max_order_size;
        }
        else if not (validate_price r.limits o.price)
        then record {
          result = RiskResult.rejected;
          reason = price_outside o.price r.limits.min_price r.limits.max_price;
        }
        else if not (validate_position r.limits p o)
        then record { result = RiskResult.rejected; reason = position_exceeds o.symbol }
        else record { result = RiskResult.approved; reason = passed_all }
