-- ===== src/Types.antt =====
-- include/orderbook/Core/Types.hpp: the enumerations, the `Result` template, and arithmetic on
-- `Quantity`, an `uint64_t`. An `OrderId` or a `TradeId` is its `value`.
use financial_order_book.Prelude.{ℕ, ◌+◌, ◌-◌, ◌%◌, ◌^◌, Bool, true, false, Option, none, some}

pub data Side : Type 0 where
  buy sell : Side

pub data OrderType : Type 0 where
  limit market : OrderType

pub data TimeInForce : Type 0 where
  gtc ioc fok : TimeInForce

pub data OrderStatus : Type 0 where
  new partially_filled filled cancelled rejected : OrderStatus

pub data RiskResult : Type 0 where
  approved rejected : RiskResult

-- `Result<T>`: the error message is a value of `E`, one for each message of the source.
pub data Result (E A : Type 0) : Type 0 where
  success : A → Result E A
  error : E → Result E A

abbrev pub is_success : {E A : Type 0} → Result E A → Bool
is_success (success a) = true
is_success (error e) = false

abbrev pub side_eq : Side → Side → Bool
side_eq Side.buy Side.buy = true
side_eq Side.sell Side.sell = true
side_eq _ _ = false

-- `uint64_t` sums and differences.
abbrev pub u64 : ℕ
u64 = 2 ^ 64

abbrev pub add64 : ℕ → ℕ → ℕ
add64 a b = (a + b) % u64

abbrev pub sub64 : ℕ → ℕ → ℕ
sub64 a b = (a + u64 - b) % u64

-- An error ends a chain of steps, as a return or an exception does.
infixl 5 ◌>>=◌
abbrev pub ◌>>=◌ : {E A B : Type 0} → Result E A → (A → Result E B) → Result E B
success a >>= f = f a
error e >>= f = error e

abbrev pub result_of : {E A : Type 0} → E → Option A → Result E A
result_of e none = error e
result_of e (some a) = success a

abbrev pub require : {E : Type 0} → Bool → E → Result E Bool
require true e = success true
require false e = error e
