-- ===== src/Risk/Positions.antt =====
-- What `RiskManager::updatePosition` does to the positions of every account.
use financial_order_book.Prelude.{
  ◌≡◌, refl, sym, subst, ap, Bool, true, false, List, [], ◌∷◌, ◌&&◌, if◌then◌else◌, arith, inl, inr,
  Bool-cases, NotIn, Distinct,
}
use financial_order_book.Prelude.Int.{ℤ, pos, ◌+ℤ◌, int_laws, eq_of_parts, pos_part, neg_part}
use financial_order_book.Prelude.Map.{lookup, lookup-insert, nat_key, bytes_key}
use financial_order_book.Prelude.Text.{Bytes, bytes_eq, bytes_eq_iff}
use financial_order_book.Order.{Trade}
use financial_order_book.Risk.{
  RiskManager, Portfolio, get_position, change_position, book_trade, update_position, portfolio_of,
  get_account_for_order, to_int64, negate, or_zero,
}

pub negate_parts : (a : ℤ) → pos_part (negate a) ≡ neg_part a
unfolding negate
negate_parts a = ground arith

pub neg_part-negate : (a : ℤ) → neg_part (negate a) ≡ pos_part a
unfolding negate
neg_part-negate a = ground arith

-- A sum and a difference that two tests switch on.
booked :
    (b c : Bool) (p q : ℤ)
    → (if c then (if b then p +ℤ q else p) +ℤ negate q else (if b then p +ℤ q else p))
        +ℤ (if c then q else pos 0)
      ≡ p +ℤ (if b then q else pos 0)
booked true true p q = omega (int_laws, negate_parts q, neg_part-negate q)
booked true false p q = omega (int_laws, negate_parts q, neg_part-negate q)
booked false true p q = omega (int_laws, negate_parts q, neg_part-negate q)
booked false false p q = omega (int_laws, negate_parts q, neg_part-negate q)

sum_of_sums :
    (a s p b t u v w : ℤ)
    → a +ℤ s ≡ p +ℤ b
    → t +ℤ u ≡ v +ℤ w
    → a +ℤ t +ℤ (s +ℤ u) ≡ p +ℤ v +ℤ (b +ℤ w)
sum_of_sums a s p b t u v w h k =
    let h1 = ap pos_part h in
    let h2 = ap neg_part h in
    let k1 = ap pos_part k in
    let k2 = ap neg_part k in eq_of_parts (a +ℤ t +ℤ (s +ℤ u)) (p +ℤ v +ℤ (b +ℤ w)) (omega int_laws)

cancel_right : (a b c : ℤ) → a +ℤ c ≡ b +ℤ c → a ≡ b
cancel_right a b c h =
    let h1 = ap pos_part h in let h2 = ap neg_part h in eq_of_parts a b (omega int_laws)

abbrev pub includes : Bytes → List Bytes → Bool
includes who [] = false
includes who (a ∷ accounts) = if bytes_eq who a then true else includes who accounts

-- What one account's share adds up to over some accounts.
abbrev pub total_share : Bytes → Bool → ℤ → List Bytes → ℤ
total_share who b q [] = pos 0
total_share who b q (a ∷ accounts) =
    (if bytes_eq who a && b then q else pos 0) +ℤ total_share who b q accounts

zero_add : (a : ℤ) → pos 0 +ℤ a ≡ a
zero_add a = eq_of_parts (pos 0 +ℤ a) a (omega int_laws)

add_zero : (a : ℤ) → a +ℤ pos 0 ≡ a
add_zero a = eq_of_parts (a +ℤ pos 0) a (omega int_laws)

total_share_none :
    (who : Bytes) (b : Bool) (q : ℤ) (accounts : List Bytes)
    → NotIn who accounts
    → total_share who b q accounts ≡ pos 0
total_share_none who b q [] n = refl
total_share_none who b q (a ∷ accounts) n = elim (Bool-cases (bytes_eq who a)) [
  | inl e ↦ elim (n.0 ((bytes_eq_iff who a).0 e)) [ ]
  | inr e ↦ rw (e, total_share_none who b q accounts n.1, add_zero (pos 0))
]

total_share_one :
    (who : Bytes) (b : Bool) (q : ℤ) (accounts : List Bytes)
    → Distinct accounts
    → includes who accounts ≡ true
    → total_share who b q accounts ≡ (if b then q else pos 0)
total_share_one who b q [] d h = ground arith
total_share_one who b q (a ∷ accounts) d h = elim (Bool-cases (bytes_eq who a)) [
  | inl e ↦
      let same = (bytes_eq_iff who a).0 e in
      let n = subst (λ x. NotIn x accounts) (sym same) d.0 in
      rw (e, total_share_none who b q accounts n, add_zero (if b then q else pos 0))
  | inr e ↦
      rw (e, total_share_one who b q accounts d.1 (rw e at h), zero_add (if b then q else pos 0))
]

module _ {Price : Type 0} where
  abbrev pub position_of : RiskManager Price → Bytes → Bytes → ℤ
  position_of r account symbol = get_position (portfolio_of r account) symbol

  get_position-change :
      (p : Portfolio Price) (symbol s : Bytes) (change : ℤ) (price : Price)
      → get_position (change_position p symbol change price) s
        ≡ (if bytes_eq symbol s then get_position p s +ℤ change else get_position p s)
  unfolding get_position change_position
  get_position-change p symbol s change price = elim (Bool-cases (bytes_eq symbol s)) [
    | inl e ↦
        let same = (bytes_eq_iff symbol s).0 e in
        rw (
          lookup-insert symbol s (or_zero (lookup symbol p.positions) +ℤ change) p.positions,
          e,
          same,
        )
    | inr e ↦
        rw (lookup-insert symbol s (or_zero (lookup symbol p.positions) +ℤ change) p.positions, e)
  ]

  position_of-book_trade :
      (r : RiskManager Price) (account symbol : Bytes) (change : ℤ) (price : Price) (a s : Bytes)
      → position_of (book_trade r account symbol change price) a s ≡ (
          if bytes_eq account a && bytes_eq symbol s
          then position_of r a s +ℤ change
          else position_of r a s)
  unfolding book_trade
  position_of-book_trade r account symbol change price a s =
      elim (Bool-cases (bytes_eq account a)) [
        | inl e ↦
            let same = (bytes_eq_iff account a).0 e in
            let m = change_position (portfolio_of r account) symbol change price in
            rw (
              lookup-insert account a m r.portfolios,
              e,
              same,
              get_position-change (portfolio_of r a) symbol s change price,
            )
        | inr e ↦
            let m = change_position (portfolio_of r account) symbol change price in
            rw (lookup-insert account a m r.portfolios, e)
      ]

  -- What a trade adds to an account's position.
  abbrev pub bought : RiskManager Price → Trade Price → Bytes → Bytes → ℤ
  bought r t a s =
      if bytes_eq (get_account_for_order r t.buy_order_id) a && bytes_eq t.symbol s
      then to_int64 t.quantity
      else pos 0

  abbrev pub sold : RiskManager Price → Trade Price → Bytes → Bytes → ℤ
  sold r t a s =
      if bytes_eq (get_account_for_order r t.sell_order_id) a && bytes_eq t.symbol s
      then to_int64 t.quantity
      else pos 0

  -- The position of every account in every symbol: the buyer grows by the quantity as int64_t, the
  -- seller shrinks by it, one account on both sides keeps its position, and no other changes.
  pub update_position_lem :
      (r : RiskManager Price) (t : Trade Price) (a s : Bytes)
      → position_of (update_position r t) a s +ℤ sold r t a s ≡ position_of r a s +ℤ bought r t a s
  unfolding update_position
  update_position_lem r t a s =
      let buyer = get_account_for_order r t.buy_order_id in
      let seller = get_account_for_order r t.sell_order_id in
      let q = to_int64 t.quantity in
      let r1 = book_trade r buyer t.symbol q t.price in
      let e1 = position_of-book_trade r buyer t.symbol q t.price a s in
      let e2 = position_of-book_trade r1 seller t.symbol (negate q) t.price a s in
      let b = bytes_eq buyer a && bytes_eq t.symbol s in
      let c = bytes_eq seller a && bytes_eq t.symbol s in
      rw (e2, e1, booked b c (position_of r a s) q)

  -- The sum of the positions of some accounts.
  abbrev pub total_position : RiskManager Price → List Bytes → Bytes → ℤ
  total_position r [] s = pos 0
  total_position r (a ∷ accounts) s = position_of r a s +ℤ total_position r accounts s

  total_position-update :
      (r : RiskManager Price) (t : Trade Price) (accounts : List Bytes) (s : Bytes)
      → total_position (update_position r t) accounts s
          +ℤ total_share
              (get_account_for_order r t.sell_order_id)
              (bytes_eq t.symbol s)
              (to_int64 t.quantity)
              accounts
        ≡ total_position r accounts s
          +ℤ total_share
              (get_account_for_order r t.buy_order_id)
              (bytes_eq t.symbol s)
              (to_int64 t.quantity)
              accounts
  total_position-update r t [] s = refl
  total_position-update r t (a ∷ accounts) s =
      let buyer = get_account_for_order r t.buy_order_id in
      let seller = get_account_for_order r t.sell_order_id in
      let q = to_int64 t.quantity in
      let b = bytes_eq t.symbol s in
      sum_of_sums (position_of (update_position r t) a s) (sold r t a s) (position_of r a s)
        (bought r t a s) (total_position (update_position r t) accounts s)
        (total_share seller b q accounts) (total_position r accounts s)
        (total_share buyer b q accounts) (update_position_lem r t a s)
        (total_position-update r t accounts s)

  -- A trade moves a position from one account to another: over any accounts without a repetition
  -- that include the buyer's and the seller's, the positions of a symbol keep their sum.
  pub total_position-update_position :
      (r : RiskManager Price) (t : Trade Price) (accounts : List Bytes) (s : Bytes)
      → Distinct accounts
      → includes (get_account_for_order r t.buy_order_id) accounts ≡ true
      → includes (get_account_for_order r t.sell_order_id) accounts ≡ true
      → total_position (update_position r t) accounts s ≡ total_position r accounts s
  total_position-update_position r t accounts s d buyer_in seller_in =
      let buyer = get_account_for_order r t.buy_order_id in
      let seller = get_account_for_order r t.sell_order_id in
      let q = to_int64 t.quantity in
      let b = bytes_eq t.symbol s in
      let eb = total_share_one buyer b q accounts d buyer_in in
      let es = total_share_one seller b q accounts d seller_in in
      let e = total_position-update r t accounts s in
      cancel_right (total_position (update_position r t) accounts s) (total_position r accounts s)
        (if b then q else pos 0) (rw (eb, es) at e)
