-- ===== src/Risk/Loading.antt =====
-- src/Risk/RiskManager.cpp: the limits from a configuration. `getInt` is of type int, so that a
-- limit is cut to 32 bits on its way in as a default, and a negative value becomes a large size.
use financial_order_book.Prelude.{
  ℕ, ◌-◌, ◌%◌, ◌^◌, ◌≡◌, ◌<◌, Bool, true, false, Option, none, some, arith, ltb, if◌then◌else◌,
}
use financial_order_book.Prelude.Double.{Double}
use financial_order_book.Prelude.Int.{ℤ, pos, negsuc, sub_ℕ}
use financial_order_book.Prelude.Text.{codes}
use financial_order_book.Types.{u64}
use financial_order_book.Config.{Config, get_int, get_double}
use financial_order_book.Risk.{RiskManager, RiskLimits, set_limits}

-- The conversion to int of an unsigned and of a signed 64-bit number, and back to size_t.
abbrev pub signed32 : ℕ → ℤ
signed32 r = if ltb r (2 ^ 31) then pos r else sub_ℕ r (2 ^ 32)

unfoldable pub int_of_size : ℕ → ℤ
int_of_size q = signed32 (q % 2 ^ 32)

unfoldable pub int_of_long : ℤ → ℤ
int_of_long (pos n) = signed32 (n % 2 ^ 32)
int_of_long (negsuc n) = signed32 (2 ^ 32 - 1 - n % 2 ^ 32)

unfoldable pub size_of_int : ℤ → ℕ
size_of_int (pos n) = n
size_of_int (negsuc n) = u64 - 1 - n

-- A risk manager, with whether it keeps a pointer to a configuration. The configuration is shared
-- with the rest of the program, so what it holds at a reload is an argument of the reload.
pub record Configured (Price : Type 0) : Type 0 where
  pub manager : RiskManager Price
  pub has_config : Bool

module _ {Price : Type 0} ⦃d : Double Price⦄ where
  unfoldable pub limits_from : Config Price → RiskLimits Price → RiskLimits Price
  limits_from c l =
      let risk = codes "risk" in
      record {
        max_order_size =
            size_of_int (get_int c risk (codes "max_order_size") (int_of_size l.max_order_size));
        max_price = get_double c risk (codes "max_price") l.max_price;
        min_price = get_double c risk (codes "min_price") l.min_price;
        max_position = get_int c risk (codes "max_position") (int_of_long l.max_position);
        min_position = get_int c risk (codes "min_position") (int_of_long l.min_position);
      }

  unfoldable pub load_configuration : RiskManager Price → Option (Config Price) → Configured Price
  load_configuration r none = record { manager = r; has_config = false }
  load_configuration r (some c) = record {
    manager = set_limits r (limits_from c r.limits);
    has_config = true;
  }

  unfoldable pub reload_configuration : Config Price → Configured Price → Configured Price
  reload_configuration now x = if x.has_config then load_configuration x.manager (some now) else x

-- A size below 2^31 survives the conversion to int and back.
pub int_of_size_fits : (q : ℕ) → q < 2 ^ 31 → size_of_int (int_of_size q) ≡ q
unfolding int_of_size size_of_int
int_of_size_fits q h = ground arith
