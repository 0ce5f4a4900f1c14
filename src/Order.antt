-- ===== src/Order.antt =====
-- `struct Order` and `struct Trade` of include/orderbook/Core/Order.hpp. A pointer is an address,
-- `none` where it is null. Timestamps are left out: nothing that is modelled reads them.
pub mod Fill
pub mod Tests
use financial_order_book.Prelude.{
  ℕ, Bool, true, false, Option, none, some, leb, ltb, ◌||◌, if◌then◌else◌, [],
}
use financial_order_book.Prelude.Double.{Double}
use financial_order_book.Prelude.Text.{Bytes}
use financial_order_book.Types.{Side, OrderType, TimeInForce, OrderStatus, add64, sub64}

abbrev pub Addr : Type 0
Addr = ℕ

pub record Order (Price : Type 0) : Type 0 where
  pub id : ℕ
  pub price : Price
  pub quantity : ℕ
  pub filled_quantity : ℕ
  pub side : Side
  pub type : OrderType
  pub tif : TimeInForce
  pub status : OrderStatus
  pub next : Option Addr
  pub prev : Option Addr
  pub symbol : Bytes
  pub account : Bytes

pub record Trade (Price : Type 0) : Type 0 where
  pub id : ℕ
  pub buy_order_id : ℕ
  pub sell_order_id : ℕ
  pub price : Price
  pub quantity : ℕ
  pub symbol : Bytes

-- Tests on the enumerations.
abbrev pub is_buy_side : Side → Bool
is_buy_side Side.buy = true
is_buy_side Side.sell = false

abbrev pub is_active_status : OrderStatus → Bool
is_active_status OrderStatus.new = true
is_active_status OrderStatus.partially_filled = true
is_active_status OrderStatus.filled = false
is_active_status OrderStatus.cancelled = false
is_active_status OrderStatus.rejected = false

module _ {Price : Type 0} where
  -- The constructor that takes a time in force and an account.
  abbrev pub new_order :
      ℕ → Side → OrderType → TimeInForce → Price → ℕ → Bytes → Bytes → Order Price
  new_order id side type tif price quantity symbol account = record {
    id = id;
    price = price;
    quantity = quantity;
    filled_quantity = 0;
    side = side;
    type = type;
    tif = tif;
    status = OrderStatus.new;
    next = none;
    prev = none;
    symbol = symbol;
    account = account;
  }

  abbrev pub is_fully_filled : Order Price → Bool
  is_fully_filled o = leb o.quantity o.filled_quantity

  abbrev pub remaining_quantity : Order Price → ℕ
  remaining_quantity o = sub64 o.quantity o.filled_quantity

  abbrev pub is_buy : Order Price → Bool
  is_buy o = is_buy_side o.side

  abbrev pub is_active : Order Price → Bool
  is_active o = is_active_status o.status

  -- The order after the fill; the method's result is `is_fully_filled` of it.
  unfoldable pub fill : Order Price → ℕ → Order Price
  fill o q =
      let n = add64 o.filled_quantity q in
      if leb o.quantity n
      then record o { filled_quantity = n; status = OrderStatus.filled }
      else record o { filled_quantity = n; status = OrderStatus.partially_filled }

  abbrev pub cancel : Order Price → Order Price
  cancel o = record o { status = OrderStatus.cancelled }

  abbrev pub reject : Order Price → Order Price
  reject o = record o { status = OrderStatus.rejected }

  -- `if (new_quantity > 0) { … }` of `modify`
  modify_quantity : Order Price → ℕ → Order Price
  modify_quantity o q =
      if ltb 0 q
      then (if ltb q o.filled_quantity
          then record o { quantity = q; filled_quantity = q; status = OrderStatus.filled }
          else record o { quantity = q })
      else o

  modify_price : ⦃d : Double Price⦄ → Order Price → Price → Order Price
  modify_price ⦃d⦄ o p = if d.lt d.nought p then record o { price = p } else o

  unfoldable pub modify : ⦃d : Double Price⦄ → Order Price → Price → ℕ → Order Price
  unfolding modify_quantity modify_price
  modify o p q = modify_quantity (modify_price o p) q

  unfoldable pub reset : ⦃d : Double Price⦄ → Order Price → Order Price
  reset ⦃d⦄ o = new_order 0 Side.buy OrderType.limit TimeInForce.gtc d.nought 0 [] []
