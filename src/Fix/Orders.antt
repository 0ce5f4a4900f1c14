-- ===== src/Fix/Orders.antt =====
-- What is read of a new order that is sent as a message.
use financial_order_book.Prelude.{ℕ, ◌≡◌, ◌≢◌, ◌<◌, ◌^◌, refl, true, List, [], ◌∷◌, some, arith}
use financial_order_book.Prelude.Double.{Double}
use financial_order_book.Prelude.Decimal.{
  to_string, to_string-ne-nil, to_string-IsDigits, stoull-to_string,
}
use financial_order_book.Prelude.Int.{ℤ, pos}
use financial_order_book.Prelude.Map.{lookup, int_key}
use financial_order_book.Prelude.Text.{Bytes}
use financial_order_book.Types.{Side, OrderType, TimeInForce, success}
use financial_order_book.Fix.Constants.{Tag, msg_type_new_order_single}
use financial_order_book.Fix.{FixMessage, render, build_fix_message, parse_message}
use financial_order_book.Fix.Requests.{
  side_to_fix_char, fix_char_to_side, order_type_to_fix_char, fix_char_to_order_type,
  tif_to_fix_char, fix_char_to_tif, parse_new_order_single, parse_price, transact_time_of,
}
use financial_order_book.Fix.Wire.{IsClean, IsDigits-IsClean}
use financial_order_book.Fix.RoundTrip.{IsBody, parse_message-build_fix_message, is_empty-ne-nil}

fix_char_to_side-char : (s : Side) → fix_char_to_side (side_to_fix_char s) ≡ s
fix_char_to_side-char Side.buy = refl
fix_char_to_side-char Side.sell = refl

fix_char_to_order_type-char :
    (t : OrderType) → fix_char_to_order_type (order_type_to_fix_char t) ≡ t
fix_char_to_order_type-char OrderType.market = refl
fix_char_to_order_type-char OrderType.limit = refl

fix_char_to_tif-char : (t : TimeInForce) → fix_char_to_tif (tif_to_fix_char t) ≡ t
fix_char_to_tif-char TimeInForce.gtc = refl
fix_char_to_tif-char TimeInForce.ioc = refl
fix_char_to_tif-char TimeInForce.fok = refl

-- The fields by which a client sends an order.
abbrev pub order_fields :
    Bytes → Bytes → Side → OrderType → TimeInForce → Bytes → ℕ → Bytes → List (Tag × Bytes)
order_fields id symbol side type tif price_text q time =
    (Tag.clord_id, id)
    ∷ (Tag.symbol, symbol)
    ∷ (Tag.side, side_to_fix_char side ∷ [])
    ∷ (Tag.ord_type, order_type_to_fix_char type ∷ [])
    ∷ (Tag.order_qty, to_string q)
    ∷ (Tag.price, price_text)
    ∷ (Tag.time_in_force, tif_to_fix_char tif ∷ [])
    ∷ (Tag.transact_time, time)
    ∷ []

order_fields-IsBody :
    (id symbol : Bytes) (side : Side) (type : OrderType) (tif : TimeInForce) (price_text : Bytes)
    (q : ℕ) (time : Bytes)
    → IsClean id
    → IsClean symbol
    → IsClean price_text
    → IsClean time
    → IsBody (order_fields id symbol side type tif price_text q time)
order_fields-IsBody id symbol side type tif price_text q time i s p t = (
  (refl, i),
  (
    (refl, s),
    (
      (refl, ((λ e. ground arith), tt)),
      (
        (refl, ((λ e. ground arith), tt)),
        (
          (refl, IsDigits-IsClean (to_string q) (to_string-IsDigits q)),
          ((refl, p), ((refl, ((λ e. ground arith), tt)), ((refl, t), tt))),
        ),
      ),
    ),
  ),
)

-- The price that is read: none is for a market order.
abbrev pub price_of : {Price : Type 0} ⦃d : Double Price⦄ → OrderType → Price → Price
price_of OrderType.limit price = price
price_of ⦃d⦄ OrderType.market price = d.nought

transact_time_of_lem : {Time : Type 0} (now : Time) (time : Bytes) → transact_time_of now time ≡ now
transact_time_of_lem now time = ground arith

module _ {Price : Type 0} ⦃d : Double Price⦄ where
  parse_price_lem :
      (type : OrderType) (s : Bytes) (price : Price)
      → d.stod s ≡ some price
      → s ≢ []
      → parse_price type s ≡ success (price_of type price)
  parse_price_lem OrderType.market s price h ne = refl
  parse_price_lem OrderType.limit [] price h ne = absurd (ne refl)
  parse_price_lem OrderType.limit (c ∷ s) price h ne = rw h refl

module _ {Price Time : Type 0} ⦃d : Double Price⦄ where
  new_order_of :
      (now : Time) (m : FixMessage) (id symbol : Bytes) (side : Side) (type : OrderType)
      (tif : TimeInForce) (price_text : Bytes) (price : Price) (q : ℕ) (time : Bytes)
      → id ≢ []
      → symbol ≢ []
      → q < 2 ^ 64
      → d.stod price_text ≡ some price
      → price_text ≢ []
      → m.is_valid ≡ true
      → m.msg_type ≡ some msg_type_new_order_single
      → lookup (pos 11) m.fields ≡ some id
      → lookup (pos 55) m.fields ≡ some symbol
      → lookup (pos 54) m.fields ≡ some (side_to_fix_char side ∷ [])
      → lookup (pos 40) m.fields ≡ some (order_type_to_fix_char type ∷ [])
      → lookup (pos 38) m.fields ≡ some (to_string q)
      → lookup (pos 44) m.fields ≡ some price_text
      → lookup (pos 59) m.fields ≡ some (tif_to_fix_char tif ∷ [])
      → lookup (pos 60) m.fields ≡ some time
      → parse_new_order_single now m
        ≡ success (record {
          cl_ord_id = id;
          symbol = symbol;
          side = side;
          order_type = type;
          time_in_force = tif;
          price = price_of type price;
          quantity = q;
          account = id;
          transact_time = now;
        })
  unfolding parse_new_order_single
  new_order_of now m id symbol side type tif price_text price q time ni ns small reads np v t e11
        e55 e54 e40 e38 e44 e59 e60 =
      rw
        (
          v,
          t,
          e11,
          e55,
          e54,
          e40,
          e38,
          e44,
          e59,
          e60,
          is_empty-ne-nil id ni,
          is_empty-ne-nil symbol ns,
          is_empty-ne-nil (to_string q) (to_string-ne-nil q),
          stoull-to_string q small,
          fix_char_to_order_type-char type,
          parse_price_lem type price_text price reads np,
          fix_char_to_side-char side,
          fix_char_to_tif-char tif,
          transact_time_of_lem now time,
        )
        refl

  -- A new order that a client sends, with an id and a symbol that are not empty, a quantity of 64
  -- bits, the text of its price and no delimiter in a text, is read back with its id, symbol,
  -- side, type, time in force and quantity, and with its price where it is a limit order; a market
  -- order has the price zero. The account is the client's id. The time that was sent is lost: the
  -- order has that of reading, whatever stood in the message.
  pub parse_new_order_single-build_fix_message :
      (now : Time) (id symbol : Bytes) (side : Side) (type : OrderType) (tif : TimeInForce)
      (price_text : Bytes) (price : Price) (q : ℕ) (time sender target : Bytes) (seq : ℕ)
      (sent : Bytes)
      → id ≢ []
      → symbol ≢ []
      → q < 2 ^ 64
      → d.stod price_text ≡ some price
      → price_text ≢ []
      → IsClean id
      → IsClean symbol
      → IsClean price_text
      → IsClean time
      → IsClean sender
      → IsClean target
      → IsClean sent
      → parse_new_order_single now (
          parse_message (
            build_fix_message msg_type_new_order_single
              (render (order_fields id symbol side type tif price_text q time))
              sender
              target
              seq
              sent))
        ≡ success (record {
          cl_ord_id = id;
          symbol = symbol;
          side = side;
          order_type = type;
          time_in_force = tif;
          price = price_of type price;
          quantity = q;
          account = id;
          transact_time = now;
        })
  unfolding parse_new_order_single
  parse_new_order_single-build_fix_message now id symbol side type tif price_text price q time
        sender target seq sent id_given symbol_given small reads price_given ci cs cp ct csender
        ctarget csent =
      let body = order_fields id symbol side type tif price_text q time in
      let h =
        parse_message-build_fix_message msg_type_new_order_single body sender target seq sent
          (λ e. omega arith)
          (order_fields-IsBody id symbol side type tif price_text q time ci cs cp ct) csender
          ctarget csent in
      let l = λ (k : ℤ). h.3 k in
      new_order_of now
        (parse_message
          (build_fix_message msg_type_new_order_single (render body) sender target seq sent))
        id symbol side type tif price_text price q time id_given symbol_given small reads
        price_given h.0 h.2 (l (pos 11)) (l (pos 55)) (l (pos 54)) (l (pos 40)) (l (pos 38))
        (l (pos 44)) (l (pos 59)) (l (pos 60))
