-- ===== src/Pool/Owned.antt =====
-- Who owns the objects of an `ObjectPool` through any sequence of uses.
use financial_order_book.Prelude.{
  ℕ, suc, ◌+◌, ◌≤◌, ◌<◌, ◌≡◌, refl, sym, ap, Bool, true, false, Option, none, some, List, [], ◌∷◌,
  length, ltb, leb, ◌==◌, if◌then◌else◌, arith,
}
use financial_order_book.Types.{u64}
use financial_order_book.Pool.{
  Holders, Use, max_pool_size, fresh, new_pool, acquire, acquire_from, exchange, put_into, step,
  run, started, destroy, assign, acquire_into,
}
use financial_order_book.Pool.Counted.{
  count, held, count_held, count_held-exchange, count-release, release-counted, count-acquire_from,
  acquire_from-counted, taken,
}

abbrev pub owners : Holders → ℕ → ℕ
owners s a = count a s.objects.pool + count_held a s.wrappers

-- Each object is in the pool or in a wrapper at most once, and an object that was not made nowhere;
-- the count of available objects is the pool's size, which is within `bound`.
pub record IsOwned (bound : ℕ) (s : Holders) : Type 0 where
  pub once : (a : ℕ) → owners s a ≤ 1
  pub fresh_free : (a : ℕ) → s.made ≤ a → owners s a ≡ 0
  pub counted : s.objects.available_count ≡ length s.objects.pool
  pub bounded : length s.objects.pool ≤ bound

-- A wrapper that takes `x` gives no object a second owner but those of `x`.
owners-put_into :
    (a i : ℕ) (x : Option ℕ) (s : Holders) → owners (put_into i x s) a ≤ owners s a + held a x
unfolding put_into
owners-put_into a i x s =
    let r = exchange i x s.wrappers in
    omega (arith, count_held-exchange a i x s.wrappers, count-release a r.0 s.objects)

put_into-IsOwned :
    (bound i : ℕ) (x : Option ℕ) (s : Holders)
    → max_pool_size ≤ bound
    → bound < u64
    → ((a : ℕ) → owners s a + held a x ≤ 1)
    → ((a : ℕ) → s.made ≤ a → owners s a + held a x ≡ 0)
    → s.objects.available_count ≡ length s.objects.pool
    → length s.objects.pool ≤ bound
    → IsOwned bound (put_into i x s)
unfolding put_into
put_into-IsOwned bound i x s big small once free e le =
    let c = release-counted bound (exchange i x s.wrappers).0 s.objects big small e le in
    record {
      once = λ a. omega (arith, owners-put_into a i x s, once a);
      fresh_free = λ a h. omega (arith, owners-put_into a i x s, free a h);
      counted = c.0;
      bounded = c.1;
    }

-- Where nobody has an object that was not made, a new one has one owner.
owners_made : (bound a : ℕ) (s : Holders) → IsOwned bound s → owners s a + held a (some s.made) ≤ 1
unfolding held
owners_made bound a s o = grind (arith, o.once a, o.fresh_free a)

owners_later :
    (bound a : ℕ) (s : Holders)
    → IsOwned bound s
    → s.made < a
    → owners s a + held a (some s.made) ≡ 0
unfolding held
owners_later bound a s o h = grind (arith, o.fresh_free a)

at_most : (b : Bool) (x y z w : ℕ) → x ≡ y + (if b then z else 0) → y + w + z ≤ 1 → x + w ≤ 1
at_most true x y z w e h = omega arith
at_most false x y z w e h = omega arith

none_later :
    (b : Bool) (a made x y z w : ℕ)
    → x ≡ y + (if b then z else 0)
    → (made < a → y + w + z ≡ 0)
    → (made ≤ a → y + w ≡ 0)
    → (if b then suc made else made) ≤ a
    → x + w ≡ 0
none_later true a made x y z w e f g h = omega (arith, f h)
none_later false a made x y z w e f g h = omega (arith, g h)

assign-IsOwned :
    (bound i : ℕ) (r : Option ℕ × List (Option ℕ)) (s : Holders)
    → max_pool_size ≤ bound
    → bound < u64
    → IsOwned bound s
    → ((a : ℕ) → count_held a r.1 + held a r.0 ≡ count_held a s.wrappers)
    → IsOwned bound (put_into i r.0 (record s { wrappers = r.1 }))
assign-IsOwned bound i r s big small o e =
    put_into-IsOwned bound i r.0 (record s { wrappers = r.1 }) big small
      (λ a. omega (arith, e a, o.once a)) (λ a h. omega (arith, e a, o.fresh_free a h)) o.counted
      o.bounded

step-IsOwned :
    (bound : ℕ) (s : Holders) (u : Use)
    → max_pool_size ≤ bound
    → bound < u64
    → IsOwned bound s
    → IsOwned bound (step s u)
unfolding step acquire held
step-IsOwned bound s (acquire_into i) big small o =
    let p = s.objects in
    let r = acquire_from s.made p p.pool in
    let ca = λ (a : ℕ). count-acquire_from a s.made p p.pool refl in
    let c = acquire_from-counted s.made p p.pool refl o.counted (omega (arith, o.bounded)) in
    let made = if r.2 then suc s.made else s.made in
    put_into-IsOwned bound i (some r.1) (record s { objects = r.0; made = made }) big small
      (λ a. omega (
        arith,
        at_most r.2 (count a r.0.pool + held a (some r.1)) (count a p.pool) (held a (some s.made))
            (count_held a s.wrappers) (ca a) (omega (arith, owners_made bound a s o)),
      ))
      (λ a h. omega (
        arith,
        none_later r.2 a s.made (count a r.0.pool + held a (some r.1)) (count a p.pool)
            (held a (some s.made)) (count_held a s.wrappers) (ca a)
            (λ l. omega (arith, owners_later bound a s o l)) (λ l. omega (arith, o.fresh_free a l))
            h,
      ))
      c.0 (omega (arith, c.1, o.bounded))
step-IsOwned bound s (destroy i) big small o =
    put_into-IsOwned bound i none s big small (λ a. omega (arith, o.once a))
      (λ a h. omega (arith, o.fresh_free a h)) o.counted o.bounded
step-IsOwned bound s (assign i j) big small o =
    elim (i == j)
      as (λ b. IsOwned bound (
        if b
        then s
        else put_into i (exchange j none s.wrappers).0
            (record s { wrappers = (exchange j none s.wrappers).1 }))) [
              | true ↦ o
              | false ↦
                  assign-IsOwned bound i (exchange j none s.wrappers) s big small o
                    (λ a. taken a j s.wrappers)
            ]

run-IsOwned_from :
    (bound : ℕ) (us : List Use) (s : Holders)
    → max_pool_size ≤ bound
    → bound < u64
    → IsOwned bound s
    → IsOwned bound (run s us)
unfolding run
run-IsOwned_from bound [] s big small o = o
run-IsOwned_from bound (u ∷ us) s big small o =
    run-IsOwned_from bound us (step s u) big small (step-IsOwned bound s u big small o)

length-fresh : (n : ℕ) → length (fresh n) ≡ n
unfolding fresh
length-fresh ℕ.zero = refl
length-fresh (suc n) = ap suc (length-fresh n)

count-fresh : (a n : ℕ) → count a (fresh n) ≡ (if ltb a n then 1 else 0)
unfolding fresh count
count-fresh a ℕ.zero = ground arith
count-fresh a (suc n) = let e = count-fresh a n in ground arith

-- From a pool of n objects, whatever the program does with its wrappers, no object is ever twice
-- in the pool or in the wrappers together, the count of available objects is the size of the pool,
-- and the pool has no more than n or 10000 objects, whichever is more.
pub run-IsOwned :
    (n : ℕ) (us : List Use)
    → n < u64
    → IsOwned (if leb n max_pool_size then max_pool_size else n) (run (started n) us)
unfolding started new_pool count_held
run-IsOwned n us h =
    let f = λ (a : ℕ). count-fresh a n in
    let l = length-fresh n in
    run-IsOwned_from (if leb n max_pool_size then max_pool_size else n) us (started n)
      (ground arith) (ground arith)
      (record {
        once = λ a. let e = f a in ground arith;
        fresh_free = λ a k. let e = f a in ground arith;
        counted = sym l;
        bounded = ground arith;
      })
