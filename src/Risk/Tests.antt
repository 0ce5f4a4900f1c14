-- ===== src/Risk/Tests.antt =====
-- A trade between two accounts, and the theorems on risk at it.
use financial_order_book.Prelude.{ℕ, ◌≡◌, ◌≤◌, refl, arith, [], ◌∷◌, true, ◌↔◌, some, leb}
use financial_order_book.Prelude.Double.{cents_double}
use financial_order_book.Prelude.Int.{pos, negsuc, ◌+ℤ◌, ◌≤ℤ◌}
use financial_order_book.Prelude.Map.{lookup, insert}
use financial_order_book.Prelude.Text.{codes, bytes_eq}
use financial_order_book.Order.{Trade}
use financial_order_book.Order.Tests.{ten}
use financial_order_book.Config.{Config, get_string, set_value}
use financial_order_book.Prelude.Decimal.{stoi, signed, scan, skip_space}
use financial_order_book.Risk.Loading.{load_configuration}
use financial_order_book.Risk.Configured.{load_configuration_negative}
use financial_order_book.Risk.{
  RiskManager, RiskLimits, to_int64, negate, get_position, change_position, get_account_for_order,
  book_trade, update_position, validate_order, validate_position, is_approved, portfolio_of,
}
use financial_order_book.Risk.Positions.{
  position_of, bought, sold, update_position_lem, total_position, total_position-update_position,
}
use financial_order_book.Risk.Limits.{
  position_after, WithinLimits, validate_order_lem, validate_order-keeps_limits,
}

abbrev pub limits_of_20 : RiskLimits ℕ
limits_of_20 = record {
  max_order_size = 15;
  max_price = 200;
  min_price = 1;
  max_position = pos 20;
  min_position = negsuc 19;
}

-- Order 7 is of the account "me", order 8 of the account "shop".
abbrev pub two_accounts : RiskManager ℕ
two_accounts = record {
  limits = limits_of_20;
  portfolios = [];
  order_to_account = (7, codes "me") ∷ (8, codes "shop") ∷ [];
}

abbrev pub four_traded : Trade ℕ
four_traded = record {
  id = 1;
  buy_order_id = 7;
  sell_order_id = 8;
  price = 100;
  quantity = 4;
  symbol = codes "BTC/USD";
}

four_sold :
    position_of (update_position two_accounts four_traded) (codes "shop") (codes "BTC/USD")
    ≡ negsuc 3
unfolding update_position book_trade change_position get_position get_account_for_order lookup
    insert to_int64 negate bytes_eq ◌+ℤ◌
four_sold = refl

update_position_lem_example :
    let r = update_position two_accounts four_traded in
    position_of r (codes "me") (codes "BTC/USD")
      +ℤ sold two_accounts four_traded (codes "me") (codes "BTC/USD")
    ≡ position_of two_accounts (codes "me") (codes "BTC/USD")
      +ℤ bought two_accounts four_traded (codes "me") (codes "BTC/USD")
update_position_lem_example =
    update_position_lem two_accounts four_traded (codes "me") (codes "BTC/USD")

total_position-update_position_example :
    total_position
      (update_position two_accounts four_traded)
      (codes "me" ∷ codes "shop" ∷ [])
      (codes "BTC/USD")
    ≡ total_position two_accounts (codes "me" ∷ codes "shop" ∷ []) (codes "BTC/USD")
unfolding get_account_for_order lookup bytes_eq
total_position-update_position_example =
    total_position-update_position two_accounts four_traded (codes "me" ∷ codes "shop" ∷ [])
      (codes "BTC/USD") (((λ e. cc e), tt), (tt, tt)) refl refl

validate_order_lem_example :
    (is_approved (validate_order two_accounts ten (portfolio_of two_accounts (codes "me"))) ≡ true)
    ↔ ((1 ≤ 10)
        × (10 ≤ 15)
        × (true ≡ true)
        × (true ≡ true)
        × (limits_of_20.min_position ≤ℤ position_after (portfolio_of two_accounts (codes "me")) ten)
        × (position_after (portfolio_of two_accounts (codes "me")) ten
            ≤ℤ limits_of_20.max_position))
validate_order_lem_example =
    validate_order_lem two_accounts ten (portfolio_of two_accounts (codes "me"))

validate_order-keeps_limits_example :
    WithinLimits limits_of_20
      (position_of (update_position two_accounts four_traded) (codes "me") (codes "BTC/USD"))
unfolding validate_order validate_position get_position get_account_for_order lookup bytes_eq
    to_int64 ◌+ℤ◌
validate_order-keeps_limits_example =
    validate_order-keeps_limits two_accounts ten four_traded (codes "me") refl
      (omega arith, omega arith) refl (omega arith) (omega arith) refl refl

-- The loaded largest size is 2 ^ 64 - 1.
abbrev pub minus_one : Config ℕ
minus_one =
    set_value (record { config = []; is_valid = true; errors = [] }) (codes "risk")
      (codes "max_order_size") (codes "-1")

load_configuration_negative_example :
    let m = (load_configuration two_accounts (some minus_one)).manager in
    let p = portfolio_of two_accounts (codes "me") in
    (is_approved (validate_order m ten p) ≡ true) ↔ (
      (leb m.limits.min_price 105 ≡ true)
      × (leb 105 m.limits.max_price ≡ true)
      × (m.limits.min_position ≤ℤ position_after p ten)
      × (position_after p ten ≤ℤ m.limits.max_position))
unfolding set_value get_string lookup insert bytes_eq stoi signed scan skip_space
load_configuration_negative_example =
    load_configuration_negative two_accounts minus_one ten (portfolio_of two_accounts (codes "me"))
      0 refl (omega arith) (omega arith) (omega arith)
