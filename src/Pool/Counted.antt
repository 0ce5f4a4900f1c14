-- ===== src/Pool/Counted.antt =====
-- What each step of an `ObjectPool` does to the number of owners of an object.
use financial_order_book.Prelude.{
  ℕ, suc, ◌+◌, ◌≤◌, ◌<◌, ◌≡◌, sym, ap, ◌∙◌, Option, none, some, List, [], ◌∷◌, length, ◌==◌,
  if◌then◌else◌, arith,
}
use financial_order_book.Types.{u64}
use financial_order_book.Pool.{
  ObjectPool, max_pool_size, acquire_from, return_object, release, exchange,
}

-- How often an object is in the pool, in a wrapper, and in the wrappers.
unfoldable pub count : ℕ → List ℕ → ℕ
count a [] = 0
count a (b ∷ bs) = (if a == b then 1 else 0) + count a bs

unfoldable pub held : ℕ → Option ℕ → ℕ
held a none = 0
held a (some b) = if a == b then 1 else 0

unfoldable pub count_held : ℕ → List (Option ℕ) → ℕ
count_held a [] = 0
count_held a (w ∷ ws) = held a w + count_held a ws

pub count_held-exchange :
    (a i : ℕ) (x : Option ℕ) (ws : List (Option ℕ))
    → count_held a (exchange i x ws).1 + held a (exchange i x ws).0 ≡ count_held a ws + held a x
unfolding exchange count_held held
count_held-exchange a i x [] = ground arith
count_held-exchange a ℕ.zero x (w ∷ ws) = omega arith
count_held-exchange a (suc i) x (w ∷ ws) = omega (arith, count_held-exchange a i x ws)

-- Releasing gives the object to the pool, or to nobody.
pub count-release :
    (a : ℕ) (x : Option ℕ) (p : ObjectPool) → count a (release x p).pool ≤ held a x + count a p.pool
unfolding release return_object held count
count-release a none p = omega arith
count-release a (some b) p = ground arith

pub release-counted :
    (bound : ℕ) (x : Option ℕ) (p : ObjectPool)
    → max_pool_size ≤ bound
    → bound < u64
    → p.available_count ≡ length p.pool
    → length p.pool ≤ bound
    → ((release x p).available_count ≡ length (release x p).pool)
      × (length (release x p).pool ≤ bound)
unfolding release return_object
release-counted bound none p big small e le = (e, le)
release-counted bound (some a) p big small e le = (ground arith, ground arith)

-- An object leaves the pool, or is the new one.
pub count-acquire_from :
    (a made : ℕ) (p : ObjectPool) (l : List ℕ)
    → p.pool ≡ l
    → let r = acquire_from made p l in
      count a r.0.pool + held a (some r.1) ≡ count a l + (if r.2 then held a (some made) else 0)
unfolding held count
count-acquire_from a made p [] e = omega (arith, ap (count a) e)
count-acquire_from a made p (b ∷ bs) e = omega arith

pub acquire_from-counted :
    (made : ℕ) (p : ObjectPool) (l : List ℕ)
    → p.pool ≡ l
    → p.available_count ≡ length l
    → length l < u64
    → let r = acquire_from made p l in
      (r.0.available_count ≡ length r.0.pool) × (length r.0.pool ≤ length l)
acquire_from-counted made p [] e c small = (c ∙ sym (ap length e), omega (arith, ap length e))
acquire_from-counted made p (b ∷ bs) e c small = (ground arith, omega arith)

pub taken :
    (a j : ℕ) (ws : List (Option ℕ))
    → count_held a (exchange j none ws).1 + held a (exchange j none ws).0 ≡ count_held a ws
unfolding held
taken a j ws = omega (arith, count_held-exchange a j none ws)
