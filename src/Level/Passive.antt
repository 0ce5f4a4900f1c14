-- ===== src/Level/Passive.antt =====
-- The passive side of a trade: a fill of an order of a level, and `updateQuantity` of
-- include/orderbook/Core/Order.hpp after it.
use financial_order_book.Prelude.{ℕ}
use financial_order_book.Order.{Addr, Order, fill}
use financial_order_book.Level.{Store, write}

module _ {Price : Type 0} where
  -- The store after a fill of the order at `a`, which keeps the links.
  abbrev pub fill_at : Store Price → Addr → ℕ → Store Price
  fill_at s a q = write s a (fill (s a) q)
