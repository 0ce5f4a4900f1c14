-- ===== src/Matching/Accounting.antt =====
-- What the loop over the levels keeps true of the incoming order, the trades and the counter.
use financial_order_book.Prelude.{
  ℕ, ◌+◌, ◌<◌, ◌≡◌, refl, sym, ◌∙◌, ap, inl, inr, true, List, [], ◌∷◌, ◌++◌, arith, Bool-cases,
  if◌then◌else◌, ◌==◌, All, All-append,
}
use financial_order_book.Prelude.Double.{Double}
use financial_order_book.Types.{u64, add64}
use financial_order_book.Order.{Addr, Order, Trade, is_buy, is_fully_filled, fill}
use financial_order_book.Order.Fill.{IsSound, fill-Fills}
use financial_order_book.Level.{Store, PriceLevel, write, is_empty_level}
use financial_order_book.Matching.{
  MatchState, Progress, trade_with, trade_of, start, match_against_price_level, after_level,
  crosses_level, match_levels,
}
use financial_order_book.Matching.Body.{AllSound, least, update_quantity-SameButLinks, IsSound-same}
use financial_order_book.Matching.OneTrade.{Outcome, untouched, traded, match_loop-Outcome}

abbrev pub sum_traded : {Price : Type 0} → List (Trade Price) → ℕ
sum_traded [] = 0
sum_traded (t ∷ ts) = t.quantity + sum_traded ts

pub sum_traded-append :
    {Price : Type 0} (ts us : List (Trade Price))
    → sum_traded (ts ++ us) ≡ sum_traded ts + sum_traded us
sum_traded-append [] us = omega arith
sum_traded-append (t ∷ ts) us = omega (arith, sum_traded-append ts us)

-- The counter after the trades, and trades numbered from the counter on.
abbrev pub counter_after : {Price : Type 0} → ℕ → List (Trade Price) → ℕ
counter_after c [] = c
counter_after c (t ∷ ts) = counter_after (add64 c 1) ts

abbrev pub Numbered : {Price : Type 0} → ℕ → List (Trade Price) → Type 0
Numbered c [] = Unit
Numbered c (t ∷ ts) = (t.id ≡ c) × Numbered (add64 c 1) ts

counter_after-append :
    {Price : Type 0} (c : ℕ) (ts : List (Trade Price)) (t : Trade Price)
    → counter_after c (ts ++ t ∷ []) ≡ add64 (counter_after c ts) 1
counter_after-append c [] t = refl
counter_after-append c (u ∷ ts) t = counter_after-append (add64 c 1) ts t

Numbered-append :
    {Price : Type 0} (c : ℕ) (ts : List (Trade Price)) (t : Trade Price)
    → Numbered c ts
    → t.id ≡ counter_after c ts
    → Numbered c (ts ++ t ∷ [])
Numbered-append c [] t n e = (e, tt)
Numbered-append c (u ∷ ts) t n e = (n.0, Numbered-append (add64 c 1) ts t n.1 e)

module _ {Price : Type 0} ⦃d : Double Price⦄ where
  -- A trade that order `o` may make: of some quantity, at a price within its limit, on its side.
  pub record Fits (o : Order Price) (t : Trade Price) : Type 0 where
    pub positive : 0 < t.quantity
    pub priced : (if is_buy o then d.le t.price o.price else d.le o.price t.price) ≡ true
    pub sided : (if is_buy o then t.buy_order_id else t.sell_order_id) ≡ o.id
    pub same_symbol : t.symbol ≡ o.symbol

  -- What stays as it is of the incoming order.
  pub record SameTerms (o o' : Order Price) : Type 0 where
    pub same_id : o'.id ≡ o.id
    pub same_price : o'.price ≡ o.price
    pub same_side : o'.side ≡ o.side
    pub same_quantity : o'.quantity ≡ o.quantity
    pub same_symbol : o'.symbol ≡ o.symbol

  -- How far the match of order `o`, begun at counter `c`, has come.
  pub record IsProgress (o : Order Price) (c : ℕ) (p : Progress Price) : Type 0 where
    pub sound : IsSound p.incoming
    pub stored : AllSound p.store
    pub terms : SameTerms o p.incoming
    pub filled_is : p.incoming.filled_quantity ≡ o.filled_quantity + p.total
    pub traded_is : sum_traded p.trades ≡ p.total
    pub fits : All (Fits o) p.trades
    pub numbered : Numbered c p.trades
    pub counted : p.trade_counter ≡ counter_after c p.trades

  fill-SameTerms : (o : Order Price) (q : ℕ) → SameTerms o (fill o q)
  unfolding fill
  fill-SameTerms o q = ground arith

  trans-SameTerms : {o p q : Order Price} → SameTerms o p → SameTerms p q → SameTerms o q
  trans-SameTerms f g = record {
    same_id = g.same_id ∙ f.same_id;
    same_price = g.same_price ∙ f.same_price;
    same_side = g.same_side ∙ f.same_side;
    same_quantity = g.same_quantity ∙ f.same_quantity;
    same_symbol = g.same_symbol ∙ f.same_symbol;
  }

  write-AllSound :
      (s : Store Price) (a : Addr) (o : Order Price)
      → AllSound s
      → IsSound o
      → AllSound (write s a o)
  unfolding write
  write-AllSound s a o all so b = elim (Bool-cases (a == b)) [
    | inl e ↦ rw e so
    | inr e ↦ rw e (all b)
  ]

  trade_with-AllSound :
      (m : MatchState Price) (a : Addr)
      → AllSound m.store
      → AllSound (trade_with m a (least m a)).store
  unfolding trade_with
  trade_with-AllSound m a sa b =
      let q = least m a in
      let s' : Store Price = write m.store a (fill (m.store a) q) in
      let filled = (fill-Fills (m.store a) q (sa a) (omega arith)).sound in
      IsSound-same (update_quantity-SameButLinks s' m.level a q b)
        (write-AllSound m.store a (fill (m.store a) q) sa filled b)

  -- The trade of one round fits the incoming order where the level crosses it.
  trade-Fits :
      (o : Order Price) (m : MatchState Price) (a : Addr)
      → SameTerms o m.incoming
      → crosses_level m.incoming m.level ≡ true
      → 0 < least m a
      → (passive : Order Price)
      → Fits o
          (trade_of m.trade_counter (fill m.incoming (least m a)) passive m.level.price (least m a))
  trade-Fits o m a same h pos passive =
      let same' = trans-SameTerms same (fill-SameTerms m.incoming (least m a)) in
      record {
        positive = pos;
        priced = ground arith;
        sided = ground arith;
        same_symbol = same'.same_symbol;
      }

  trade_with-IsProgress :
      (o : Order Price) (c : ℕ) (p : Progress Price) (l : PriceLevel Price) (a : Addr)
      → IsProgress o c p
      → crosses_level p.incoming l ≡ true
      → let m = start p.store l p.incoming p.trades p.trade_counter in
        (0 < least m a → IsProgress o c (after_level p (trade_with m a (least m a))))
  unfolding trade_with
  trade_with-IsProgress o c p l a v cross pos =
      let m = start p.store l p.incoming p.trades p.trade_counter in
      let q = least m a in
      let fills = fill-Fills p.incoming q v.sound (omega arith) in
      let passive : Order Price = write p.store a (fill (p.store a) q) a in
      let t = trade_of p.trade_counter (fill p.incoming q) passive l.price q in
      let room : o.filled_quantity + p.total + q < u64 =
        omega (arith, fills.filled_is, fills.sound.within, fills.sound.range, v.filled_is) in
      record {
        sound = fills.sound;
        stored = trade_with-AllSound m a v.stored;
        terms = trans-SameTerms v.terms (fill-SameTerms p.incoming q);
        filled_is = omega (arith, fills.filled_is, v.filled_is, room);
        traded_is = omega (arith, sum_traded-append p.trades (t ∷ []), v.traded_is, room);
        fits =
            All-append (Fits o) p.trades (t ∷ []) v.fits
              (trade-Fits o m a v.terms cross pos passive, tt);
        numbered = Numbered-append c p.trades t v.numbered v.counted;
        counted = ap (λ (n : ℕ). add64 n 1) v.counted ∙ sym (counter_after-append c p.trades t);
      }

  -- A run over one level keeps the account.
  pub after_level-IsProgress :
      (o : Order Price) (c : ℕ) (p : Progress Price) (l : PriceLevel Price) (m : MatchState Price)
      → IsProgress o c p
      → crosses_level p.incoming l ≡ true
      → Outcome (start p.store l p.incoming p.trades p.trade_counter) m
      → IsProgress o c (after_level p m)
  after_level-IsProgress o c p l m v cross (untouched e0 e1 e2 e3 e4 e5) = record {
    sound = rw e2 v.sound;
    stored = rw e0 v.stored;
    terms = rw e2 v.terms;
    filled_is = omega (arith, ap (λ (x : Order Price). x.filled_quantity) e2);
    traded_is = omega (arith, ap sum_traded e3);
    fits = rw e3 v.fits;
    numbered = rw e3 v.numbered;
    counted = rw (e3, e5) v.counted;
  }
  after_level-IsProgress o c p l m v cross (traded a at pos valid e) =
      rw e (trade_with-IsProgress o c p l a v cross pos)

  -- So does the loop, whatever the levels.
  pub match_levels-IsProgress :
      (o : Order Price) (c : ℕ) (p : Progress Price) (ls : List (PriceLevel Price))
      → IsProgress o c p
      → IsProgress o c (match_levels p ls).0
  unfolding match_levels
  match_levels-IsProgress o c p [] v = v
  match_levels-IsProgress o c p (l ∷ ls) v =
      let m = match_against_price_level p.store l p.incoming p.trades p.trade_counter in
      let run =
        match_loop-Outcome 0 (start p.store l p.incoming p.trades p.trade_counter) v.sound
          v.stored in
      elim (Bool-cases (is_empty_level l)) [
        | inl e ↦ rw e (match_levels-IsProgress o c p ls v)
        | inr e ↦ elim (Bool-cases (crosses_level p.incoming l)) [
          | inr f ↦ rw (e, f) v
          | inl f ↦
              let v' = after_level-IsProgress o c p l m v f run in
              elim (Bool-cases (is_fully_filled m.incoming)) [
                | inl g ↦ rw (e, f, g) v'
                | inr g ↦ rw (e, f, g) (match_levels-IsProgress o c (after_level p m) ls v')
              ]
        ]
      ]
