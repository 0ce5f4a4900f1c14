-- ===== src/Book/Kept.antt =====
-- Invariants of the order book: one that the single steps of src/Core/OrderBook.cpp keep is kept
-- by its operations.
pub mod Calls
use financial_order_book.Prelude.{
  ℕ, zero, suc, ◌≡◌, refl, ap, subst, arith, ◌∙◌, Bool, true, false, not, ◌&&◌, ◌||◌, List, [], ◌∷◌,
  Option, none, some, ◌==◌, ltb, min, if◌then◌else◌, length,
}
use financial_order_book.Prelude.Double.{Double}
use financial_order_book.Prelude.Map.{Key, lookup, erase}
use financial_order_book.Types.{Side, Result, success, error, ◌>>=◌, result_of}
use financial_order_book.Order.{Addr, Order, is_fully_filled, remaining_quantity}
use financial_order_book.Level
use financial_order_book.Level.{PriceLevel, update_quantity, remove_order, is_empty_level, write}
use financial_order_book.Matching.{crosses_level, sort_levels}
use financial_order_book.Book.{
  OrderBook, Slot, UpdateType, Undefined, dangling_level, Increment, nth, levels_of, set_levels,
  back, level_at, put_level, publish_book_update, publish_market_data_update,
}
use financial_order_book.Book.Index.{
  create_price_level, take_or_create, find_or_create_price_level, erase_level, remove_price_level,
  maintain_sorted_order,
}
use financial_order_book.Book.Trading.{
  execute_trade, publish_passive, drop_filled, trade_at, match_once, match_orders,
  match_against_price_level, match_slots, execute_matching, process_matching, can_match_best,
  opposite,
}
use financial_order_book.Book.Calls.{
  enqueue, dequeue, locate, change_quantity, modify_quantity, take_out, put_in, publish_add,
  move_order, modify_price,
}

-- A property of the result, where there is one.
abbrev pub Holds : {E A : Type 0} → (A → Type 0) → Result E A → Type 0
Holds P (success a) = P a
Holds P (error e) = Unit

pub Holds->>= :
    {E A B : Type 0} (P : A → Type 0) (Q : B → Type 0) (r : Result E A) (f : A → Result E B)
    → Holds P r
    → ((a : A) → P a → Holds Q (f a))
    → Holds Q (r >>= f)
Holds->>= P Q (success a) f h k = k a h
Holds->>= P Q (error e) f h k = tt

-- A step that only needs to know the level that it has read.
pub Holds-read :
    {E A B : Type 0} (Q : B → Type 0) (r : Result E A) (f : A → Result E B)
    → ((a : A) → r ≡ success a → Holds Q (f a))
    → Holds Q (r >>= f)
Holds-read Q (success a) f k = k a refl
Holds-read Q (error e) f k = tt

pub Holds-if :
    {E A : Type 0} (Q : A → Type 0) (b : Bool) (s t : Result E A)
    → Holds Q s
    → Holds Q t
    → Holds Q (if b then s else t)
Holds-if Q true s t h k = h
Holds-if Q false s t h k = k

pub Holds-success :
    {E A : Type 0} (Q : A → Type 0) (r : Result E A) (a : A) → r ≡ success a → Holds Q r → Q a
Holds-success Q r a e h = subst (Holds Q) e h

pub if-kept :
    {A : Type 0} {x y : A} (P : A → Type 0) (t : Bool) → P x → P y → P (if t then x else y)
if-kept P true h k = h
if-kept P false h k = k

module _ {Price : Type 0} (I : OrderBook Price → Type 0) where
  -- What books with the same levels, events and numbers share, and what the steps of matching and
  -- cancelling keep.
  pub record IsKept : Type 0 where
    pub same :
        (b b' : OrderBook Price)
        → b'.bids ≡ b.bids
        → b'.asks ≡ b.asks
        → b'.events ≡ b.events
        → b'.book_sequence ≡ b.book_sequence
        → I b
        → I b'
    pub published :
        (b : OrderBook Price) (type : UpdateType) (side : Side) (p : Price) (q n : ℕ)
        → I b
        → I (publish_book_update b type side p q n)
    pub put :
        (b : OrderBook Price) (s : Slot) (l l' : PriceLevel Price)
        → level_at b s ≡ success l
        → l'.price ≡ l.price
        → I b
        → I (put_level b s l')
    pub erased :
        ⦃k : Key Price⦄ (b : OrderBook Price) (s : Slot) (side : Side) (p : Price)
        → I b
        → I (erase_level b s side p)
    pub traded :
        (b : OrderBook Price) (inc a : Addr) (p : Price) (q : ℕ)
        → I b
        → I (execute_trade b inc a p q)

  -- What the calls do beside that.
  pub record IsKeptByCalls ⦃d : Double Price⦄ ⦃k : Key Price⦄ : Type 0 where
    pub created :
        (b : OrderBook Price) (p : Price) (side : Side) → I b → I (create_price_level b p side).0
    pub maintained : (b : OrderBook Price) → I b → I (maintain_sorted_order b)
    pub updated : (b : OrderBook Price) → I b → I (publish_market_data_update b)

traded_bids :
    {Price : Type 0} (b : OrderBook Price) (inc a : Addr) (p : Price) (q : ℕ)
    → (execute_trade b inc a p q).bids ≡ b.bids
unfolding execute_trade
traded_bids b inc a p q = refl

traded_asks :
    {Price : Type 0} (b : OrderBook Price) (inc a : Addr) (p : Price) (q : ℕ)
    → (execute_trade b inc a p q).asks ≡ b.asks
unfolding execute_trade
traded_asks b inc a p q = refl

-- The steps of matching.
module _ {Price : Type 0} (I : OrderBook Price → Type 0) (kept : IsKept I) where
  publish_passive-kept : (b : OrderBook Price) (a : Addr) (n : ℕ) → I b → I (publish_passive b a n)
  unfolding publish_passive
  publish_passive-kept b a n h =
      if-kept I (is_fully_filled (b.store a)) (kept.published b _ _ _ _ _ h)
        (kept.published b _ _ _ _ _ h)

  drop_filled-kept :
      (b : OrderBook Price) (inc a : Addr) → I b → Holds (λ r. I r.0) (drop_filled b inc a)
  unfolding drop_filled
  drop_filled-kept b inc a h =
      Holds-if _ (not (is_fully_filled (b.store a))) _ _ h
        (Holds-if _ (a == inc) _ _ tt (kept.same b _ refl refl refl refl h))

  update_quantity-price :
      (t : Level.Store Price) (l : PriceLevel Price) (a : Addr) (q : ℕ)
      → (update_quantity t l a q).1.price ≡ l.price
  unfolding update_quantity remove_order
  update_quantity-price t l a q = ground arith

  pub level_same :
      (b b' : OrderBook Price) (s : Slot) (l : PriceLevel Price)
      → b'.bids ≡ b.bids
      → b'.asks ≡ b.asks
      → level_at b s ≡ success l
      → level_at b' s ≡ success l
  unfolding level_at
  level_same b b' s l p q h = side_same s.side s.index h
    where
      side_same :
          (side : Side) (i : ℕ)
          → result_of dangling_level (nth (levels_of b side) i) ≡ success l
          → result_of dangling_level (nth (levels_of b' side) i) ≡ success l
      side_same Side.buy i h = ap (λ ls. result_of dangling_level (nth ls i)) p ∙ h
      side_same Side.sell i h = ap (λ ls. result_of dangling_level (nth ls i)) q ∙ h

  trade_at-kept :
      (b : OrderBook Price) (inc : Addr) (s : Slot) (a : Addr) (q : ℕ)
      → I b
      → Holds (λ r. I r.0) (trade_at b inc s a q)
  unfolding trade_at
  trade_at-kept b inc s a q h =
      Holds-read (λ r. I r.0) (level_at b s) _
        (λ l at.
          let b1 = execute_trade b inc a l.price q in
          let r = update_quantity b1.store l a q in
          let b1' : OrderBook Price = record b1 { store = r.0 } in
          let h1 = kept.same b1 b1' refl refl refl refl (kept.traded b inc a l.price q h) in
          let at' =
            level_same b b1' s l (traded_bids b inc a l.price q) (traded_asks b inc a l.price q)
              at in
          let h2 = kept.put b1' s l r.1 at' (update_quantity-price b1.store l a q) h1 in
          drop_filled-kept _ inc a (publish_passive-kept _ a r.1.order_count h2))

  match_once-kept :
      (b : OrderBook Price) (inc : Addr) (s : Slot) (a : Addr)
      → I b
      → Holds (λ r. I r.0) (match_once b inc s a)
  unfolding match_once
  match_once-kept b inc s a h =
      let q = min (remaining_quantity (b.store inc)) (remaining_quantity (b.store a)) in
      Holds-if (λ r. I r.0) (q == 0) (success (b, none)) (trade_at b inc s a q) h
        (trade_at-kept b inc s a q h)

  match_orders-kept :
      (n : ℕ) (b : OrderBook Price) (inc : Addr) (s : Slot) (c : Option Addr)
      → I b
      → Holds I (match_orders n b inc s c)
  unfolding match_orders
  match_orders-kept zero b inc s c h = h
  match_orders-kept (suc n) b inc s none h = h
  match_orders-kept (suc n) b inc s (some a) h = Holds-if I (is_fully_filled (b.store inc)) _ _ h (
      Holds->>= (λ r. I r.0) I (match_once b inc s a) _ (match_once-kept b inc s a h)
        (λ r k. match_orders-kept n r.0 inc s r.1 k))

module _ {Price : Type 0} ⦃d : Double Price⦄ ⦃k : Key Price⦄ (I : OrderBook Price → Type 0)
    (kept : IsKept I) where
  pub remove_price_level-kept :
      (b : OrderBook Price) (s : Slot) (side : Side) → I b → Holds I (remove_price_level b s side)
  unfolding remove_price_level
  remove_price_level-kept b s side h =
      Holds-read I (level_at b s) _
        (λ l at. if-kept I (is_empty_level l) (kept.erased b s side l.price h) h)

  match_against_price_level-kept :
      (b : OrderBook Price) (inc : Addr) (s : Slot)
      → I b
      → Holds I (match_against_price_level b inc s)
  unfolding match_against_price_level
  match_against_price_level-kept b inc s h = Holds-read I (level_at b s) _ (λ l at.
      Holds->>= I I (match_orders 2 b inc s l.head) _ (match_orders-kept I kept 2 b inc s l.head h)
        (λ b1 h1.
          Holds-read I (level_at b1 s) _
            (λ l1 at1. Holds-if I (is_empty_level l1) _ _ (remove_price_level-kept b1 s _ h1) h1)))

  pub match_slots-kept :
      (n : ℕ) (b : OrderBook Price) (inc : Addr) (side : Side) (i : ℕ)
      → I b
      → Holds I (match_slots n b inc side i)
  unfolding match_slots
  match_slots-kept zero b inc side i h = h
  match_slots-kept (suc n) b inc side i h = Holds-read I (level_at b _) _ (λ l at.
      Holds-if I (is_empty_level l || is_fully_filled (b.store inc)) _ _ h (
        Holds-if I (not (crosses_level (b.store inc) l)) _ _ h (
          Holds->>= I I (match_against_price_level b inc _) _
            (match_against_price_level-kept b inc _ h)
            (λ b1 h1. match_slots-kept n b1 inc side (suc i) h1))))

  pub process_matching-kept :
      (b : OrderBook Price) (inc : Addr)
      → I b
      → (let side = opposite (b.store inc).side in
          I (set_levels b side (sort_levels (b.store inc).side (levels_of b side))))
      → Holds I (process_matching b inc)
  unfolding process_matching execute_matching
  process_matching-kept b inc h h' =
      let side = opposite (b.store inc).side in
      Holds-if I (can_match_best (b.store inc) (back (levels_of b side))) _ _
        (match_slots-kept _ _ inc side 0 h') h
