-- ===== src/Order/Tests.antt =====
-- Runs of the order operations, and the theorems on them at concrete orders.
use financial_order_book.Prelude.{ℕ, ◌≡◌, refl, arith}
use financial_order_book.Prelude.Double.{cents_double}
use financial_order_book.Prelude.Text.{codes}
use financial_order_book.Types.{Side, OrderType, TimeInForce}
use financial_order_book.Order.{Order, new_order, fill, remaining_quantity}
use financial_order_book.Order.Fill.{IsSound, Fills, fill-Fills}

-- Ten units at a price of 1.05, in cents.
abbrev pub ten : Order ℕ
ten = new_order 7 Side.buy OrderType.limit TimeInForce.gtc 105 10 (codes "BTC/USD") (codes "me")

pub ten-IsSound : IsSound ten
ten-IsSound = record { within = omega arith; range = omega arith }

fill_twice : remaining_quantity (fill (fill ten 4) 6) ≡ 0
unfolding fill
fill_twice = refl

fill-Fills_example : Fills ten 4 (fill ten 4)
fill-Fills_example = fill-Fills ten 4 ten-IsSound (omega arith)
