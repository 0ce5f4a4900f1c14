-- ===== src/Matching/Results.antt =====
-- What `matchOrder` promises to its caller, and where it falls short of it.
use financial_order_book.Prelude.{
  ℕ, suc, ◌+◌, ◌<◌, ◌≡◌, refl, sym, ◌∙◌, ◌⊎◌, inl, inr, ◌↔◌, true, false, List, [], ◌∷◌, none, some,
  arith, if◌then◌else◌, ltb,
}
use financial_order_book.Prelude.Double.{Double}
use financial_order_book.Order.{Addr, Order, remaining_quantity}
use financial_order_book.Order.Fill.{IsSound, remaining_quantity_lem}
use financial_order_book.Level.{Store, PriceLevel}
use financial_order_book.Report.{generate_execution_report}
use financial_order_book.Matching.{
  MatchState, Progress, MatchResult, trade_with, running, match_loop, start,
  match_against_price_level, match_result, match_order, sort_levels, last_id,
}
use financial_order_book.Matching.Body.{AllSound, least}
use financial_order_book.Matching.OneTrade.{
  Outcome, untouched, traded, match_loop-Outcome, match_loop_ends,
}
use financial_order_book.Matching.Accounting.{IsProgress, sum_traded, match_levels-IsProgress}

module _ {Price : Type 0} ⦃d : Double Price⦄ where
  -- What the result of matching order `o`, begun at counter `c`, says of the orders afterwards.
  pub record Settles (o : Order Price) (c : ℕ) (r : MatchResult Price) (p : Progress Price)
      : Type 0 where
    pub progress : IsProgress o c p
    pub trades_are : r.trades ≡ p.trades
    pub total_is : sum_traded r.trades ≡ r.total_filled_quantity
    pub conserved : remaining_quantity p.incoming + r.total_filled_quantity ≡ remaining_quantity o
    pub full_iff : (r.fully_filled ≡ true) ↔ (remaining_quantity p.incoming ≡ 0)
    pub rest_is :
        r.remaining_order
        ≡ (if ltb 0 (remaining_quantity p.incoming) then some p.incoming else none)
    pub reports_are : r.execution_reports ≡ (
        if ltb 0 r.total_filled_quantity
        then generate_execution_report p.incoming (last_id r.trades) ∷ []
        else [])

  match_result-Settles :
      (o : Order Price) (c : ℕ) (p : Progress Price)
      → IsSound o
      → IsProgress o c p
      → Settles o c (match_result p) p
  unfolding match_result
  match_result-Settles o c p so v =
      let left = remaining_quantity_lem p.incoming v.sound in
      let left' = remaining_quantity_lem o so in
      record {
        progress = v;
        trades_are = refl;
        total_is = v.traded_is;
        conserved = omega (arith, left, left', v.filled_is, v.terms.same_quantity, v.sound.within);
        full_iff = ground (arith, left);
        rest_is = ground (arith, left);
        reports_are = refl;
      }

  abbrev pub started : Store Price → ℕ → Order Price → Progress Price
  started s c o = record { store = s; incoming = o; trades = []; total = 0; trade_counter = c }

  pub started-IsProgress :
      (s : Store Price) (c : ℕ) (o : Order Price)
      → AllSound s
      → IsSound o
      → IsProgress o c (started s c o)
  started-IsProgress s c o sa so = record {
    sound = so;
    stored = sa;
    terms = record {
      same_id = refl;
      same_price = refl;
      same_side = refl;
      same_quantity = refl;
      same_symbol = refl;
    };
    filled_is = omega arith;
    traded_is = refl;
    fits = tt;
    numbered = tt;
    counted = refl;
  }

  -- Matching a sound order against sound resting orders: the trades add up to the quantity that
  -- the incoming order loses, each is of a positive quantity, within its limit price, on its side
  -- and for its symbol; they are numbered from the counter on, and the counter has moved behind
  -- them; the order is reported filled exactly when nothing remains of it, and handed back, with
  -- its terms unchanged, exactly when something does; a report is made exactly when it traded.
  pub match_order-Settles :
      (s : Store Price) (c : ℕ) (o : Order Price) (ls : List (PriceLevel Price))
      → AllSound s
      → IsSound o
      → let r = match_order s c o ls in Settles o c r.0 r.1
  unfolding match_order
  match_order-Settles s c o ls sa so = match_result-Settles o c _ so (
      match_levels-IsProgress o c (started s c o) (sort_levels o.side ls)
        (started-IsProgress s c o sa so))

  -- A run over one level ends by its own test whatever the fuel from two rounds on, and comes to
  -- no trade at all or to one trade, with the order at the head of the level, of all that the
  -- two can trade.
  pub match_loop_once :
      (fuel : ℕ) (s : Store Price) (l : PriceLevel Price) (o : Order Price) (c : ℕ)
      → AllSound s
      → IsSound o
      → let m = start s l o [] c in
        let m' = match_loop (suc (suc fuel)) m in
        (m' ≡ match_against_price_level s l o [] c)
        × (running m' ≡ false)
        × (((m'.trades ≡ []) × (m'.incoming ≡ o) × (m'.store ≡ s) × (m'.level ≡ l))
            ⊎ ((a : Addr) × (l.head ≡ some a)
                × (0 < least m a)
                × (m' ≡ trade_with m a (least m a))))
  match_loop_once fuel s l o c sa so =
      let m = start s l o [] c in
      let ends = match_loop_ends fuel m so sa in
      (
        ends.0 ∙ sym (match_loop_ends 0 m so sa).0,
        ends.1,
        cases _ (match_loop-Outcome fuel m so sa),
      )
    where
      cases :
          (m' : MatchState Price)
          → Outcome (start s l o [] c) m'
          → ((m'.trades ≡ []) × (m'.incoming ≡ o) × (m'.store ≡ s) × (m'.level ≡ l))
            ⊎ ((a : Addr) × (l.head ≡ some a)
                × (0 < least (start s l o [] c) a)
                × (m' ≡ trade_with (start s l o [] c) a (least (start s l o [] c) a)))
      cases m' (untouched e0 e1 e2 e3 e4 e5) = inl (e3, e2, e0, e1)
      cases m' (traded a at pos valid e) = inr (a, at, pos, e)
