-- ===== src/Book/Calls.antt =====
-- src/Core/OrderBook.cpp: `addOrder`, `cancelOrder` and `modifyOrder`. Logging, measurement and
-- timestamps are left out. `cancelOrder` reads the location of the order after it has erased it,
-- which is undefined: the model reads what the location held.
use financial_order_book.Prelude.{
  ℕ, Bool, true, not, ◌&&◌, [], ◌∷◌, Option, none, some, ltb, if◌then◌else◌,
}
use financial_order_book.Prelude.Double.{Double}
use financial_order_book.Prelude.Map.{Key, nat_key, lookup, insert, erase}
use financial_order_book.Prelude.Text.{Bytes, codes}
use financial_order_book.Types.{Side, Result, success, error, ◌>>=◌, add64, sub64}
use financial_order_book.Order.{Addr, Order, remaining_quantity}
use financial_order_book.Level
use financial_order_book.Level.{PriceLevel, OrderLocation, write, remove_order, is_empty_level}
use financial_order_book.Risk.{
  RiskManager, associate_order_with_account, get_portfolio, validate_order, is_approved,
}
use financial_order_book.Book.{
  OrderBook, Slot, UpdateType, Undefined, BookError, risk_validation_failed,
  order_id_already_exists, order_not_found, invalid_order_location, Increment, level_at, put_level,
  publish_book_update, publish_market_data_update,
}
use financial_order_book.Book.Index.{
  find_or_create_price_level, remove_price_level, maintain_sorted_order,
}
use financial_order_book.Book.Trading.{process_matching}

-- A call that is defined ends with its result and the book.
abbrev pub Call : Type 0 → Type 0 → Type 0
Call Price A = Result Undefined (Result (BookError Price) A × OrderBook Price)

abbrev pub account_or_default : Bytes → Bytes
account_or_default [] = codes "default"
account_or_default (c ∷ cs) = c ∷ cs

module _ {Price : Type 0} where
  -- The order at `a` joins the queue of the level at a slot.
  unfoldable pub enqueue : OrderBook Price → Slot → PriceLevel Price → Addr → OrderBook Price
  enqueue b s l a =
      let r = Level.add_order b.store l a in put_level (record b { store = r.0 }) s r.1

  -- It leaves the queue, and the update with its details from before is published.
  unfoldable pub dequeue : OrderBook Price → Slot → PriceLevel Price → Addr → OrderBook Price
  dequeue b s l a =
      let o = b.store a in
      let r = remove_order b.store l a in
      publish_book_update (put_level (record b { store = r.0 }) s r.1) UpdateType.remove o.side
        o.price (remaining_quantity o) r.1.order_count

  unfoldable pub locate : OrderBook Price → ℕ → Addr → Slot → OrderBook Price
  locate b id a s = record b {
    order_index =
        insert id (record { order = some a; price_level = some s; side = (b.store a).side })
          b.order_index;
  }

  abbrev pub publish_add : OrderBook Price → Slot → Addr → Result Undefined (OrderBook Price)
  publish_add b s a =
      let o = b.store a in
      level_at b s >>= λ l.
      success
        (publish_book_update b UpdateType.add o.side o.price (remaining_quantity o) l.order_count)

  -- The last part of `modifyOrder`, for the order at `a` and the level that the index names.
  unfoldable pub change_quantity :
      OrderBook Price → Addr → Slot → PriceLevel Price → ℕ → OrderBook Price
  change_quantity b a s l q =
      let o = b.store a in
      let o' : Order Price = record o {
        quantity = q;
        filled_quantity = if ltb q o.filled_quantity then q else o.filled_quantity;
      } in
      let total = add64 (sub64 l.total_quantity (remaining_quantity o)) (remaining_quantity o') in
      let b1 =
        put_level (record b { store = write b.store a o' }) s
          (record l { total_quantity = total }) in
      publish_book_update b1 UpdateType.modify o'.side o'.price (remaining_quantity o')
        l.order_count

  unfoldable pub modify_quantity :
      OrderBook Price → Addr → Slot → ℕ → Result Undefined (OrderBook Price)
  modify_quantity b a s q =
      if ltb 0 q then (level_at b s >>= λ l. success (change_quantity b a s l q)) else success b

  module _ ⦃d : Double Price⦄ ⦃k : Key Price⦄ where
    -- Removal from the queue, and of the level where it is empty then.
    unfoldable pub take_out :
        OrderBook Price → Addr → Slot → Side → Result Undefined (OrderBook Price)
    take_out b a s side = level_at b s >>= λ l.
        (let b1 = dequeue b s l a in
          level_at b1 s >>= λ l1.
          (if is_empty_level l1 then remove_price_level b1 s side else success b1))

    -- The call for an order that is found: its address, its level and the side of its location.
    abbrev pub cancel_at : OrderBook Price → ℕ → Option Addr → Option Slot → Side → Call Price Bool
    cancel_at b id (some a) (some s) side = take_out b a s side >>= λ b1. success (
      success true,
      publish_market_data_update (record b1 { order_index = erase id b1.order_index }),
    )
    cancel_at b id _ _ side = success (error invalid_order_location, b)

    abbrev pub cancel_found : OrderBook Price → ℕ → Option (OrderLocation Slot) → Call Price Bool
    cancel_found b id none = success (error order_not_found, b)
    cancel_found b id (some l) = cancel_at b id l.order l.price_level l.side

    unfoldable pub cancel_order : OrderBook Price → ℕ → Call Price Bool
    cancel_order b id = cancel_found b id (lookup id b.order_index)

    module _ ⦃i : Increment Price⦄ where
      -- The order at `a`, which is in no queue, joins the level of its price; the index then
      -- names that level.
      unfoldable pub put_in : OrderBook Price → ℕ → Addr → Result Undefined (OrderBook Price × Slot)
      put_in b id a = find_or_create_price_level b (b.store a).price (b.store a).side >>= λ r.
          level_at r.0 r.1 >>= λ l. success (enqueue r.0 r.1 l a, r.1)

      -- `addOrder` from the copy of the order on, to which `a` is the new address.
      unfoldable pub add_copy : OrderBook Price → Addr → Order Price → Call Price ℕ
      add_copy b a o = put_in (record b { store = write b.store a o }) o.id a >>= λ r.
          publish_add (maintain_sorted_order (locate r.0 o.id a r.1)) r.1 a >>= λ b1.
          process_matching b1 a >>= λ b2.
          success (success (b2.store a).id, publish_market_data_update b2)

      abbrev pub add_new :
          OrderBook Price → Addr → Order Price → Option (OrderLocation Slot) → Call Price ℕ
      add_new b a o none = add_copy b a o
      add_new b a o (some location) = success (error order_id_already_exists, b)

      -- The part of `addOrder` that asks the risk manager.
      unfoldable pub add_checked :
          OrderBook Price → Addr → Order Price → RiskManager Price → Call Price ℕ
      add_checked b a o r =
          let account = account_or_default o.account in
          let g = get_portfolio (associate_order_with_account r o.id account) account in
          let check = validate_order g.0 o g.1 in
          let b1 : OrderBook Price = record b { risk_manager = some g.0 } in
          if not (is_approved check)
          then success (error (risk_validation_failed check.reason), b1)
          else add_new b1 a o (lookup o.id b.order_index)

      abbrev pub add_with :
          OrderBook Price → Addr → Order Price → Option (RiskManager Price) → Call Price ℕ
      add_with b a o none = add_new b a o (lookup o.id b.order_index)
      add_with b a o (some r) = add_checked b a o r

      unfoldable pub add_order : OrderBook Price → Addr → Order Price → Call Price ℕ
      add_order b a o = add_with b a o b.risk_manager

      -- The first part of `modifyOrder`: the order leaves its level and joins that of the new
      -- price. The result has the slot of its level.
      unfoldable pub move_order :
          OrderBook Price
          → ℕ
          → Addr
          → Slot
          → Side
          → Price
          → Result Undefined (OrderBook Price × Slot)
      move_order b id a s side p = take_out b a s side >>= λ b1.
          (let b2 : OrderBook Price = record b1 {
            store = write b1.store a (record (b1.store a) { price = p });
          } in
            put_in b2 id a >>= λ r. publish_add r.0 r.1 a >>= λ b3.
            success (maintain_sorted_order (locate b3 id a r.1), r.1))

      unfoldable pub modify_price :
          OrderBook Price
          → ℕ
          → Addr
          → Slot
          → Side
          → Price
          → Result Undefined (OrderBook Price × Slot)
      modify_price b id a s side p =
          if d.lt d.nought p && i.beyond (b.store a).price p
          then move_order b id a s side p
          else success (b, s)

      abbrev pub modify_at :
          OrderBook Price → ℕ → Price → ℕ → Option Addr → Option Slot → Side → Call Price Bool
      modify_at b id p q (some a) (some s) side = modify_price b id a s side p >>= λ r.
          modify_quantity r.0 a r.1 q >>= λ b1.
          success (success true, publish_market_data_update b1)
      modify_at b id p q _ _ side = success (error invalid_order_location, b)

      abbrev pub modify_found :
          OrderBook Price → ℕ → Price → ℕ → Option (OrderLocation Slot) → Call Price Bool
      modify_found b id p q none = success (error order_not_found, b)
      modify_found b id p q (some l) = modify_at b id p q l.order l.price_level l.side

      unfoldable pub modify_order : OrderBook Price → ℕ → Price → ℕ → Call Price Bool
      modify_order b id p q = modify_found b id p q (lookup id b.order_index)
