-- ===== src/Pool.antt =====
-- include/orderbook/Utilities/ObjectPool.hpp: `ObjectPool` and its wrapper `PooledObject`. An object
-- is a number, that of its making, and what it holds is not modelled. The vector stands with its
-- back first.
pub mod Counted
pub mod Owned
mod Tests
use financial_order_book.Prelude.{
  ℕ, suc, ◌+◌, Bool, true, false, Option, none, some, List, [], ◌∷◌, length, ltb, ◌==◌,
  if◌then◌else◌,
}
use financial_order_book.Types.{add64, sub64}

pub record ObjectPool : Type 0 where
  pub pool : List ℕ
  pub available_count : ℕ
  pub total_created : ℕ

pub record Stats : Type 0 where
  pub available : ℕ
  pub total_created : ℕ
  pub pool_size : ℕ

unfoldable pub get_stats : ObjectPool → Stats
get_stats p = record {
  available = p.available_count;
  total_created = p.total_created;
  pool_size = length p.pool;
}

abbrev pub max_pool_size : ℕ
max_pool_size = 10000

-- The objects `from`, … , that the constructor makes, the last one first.
unfoldable pub fresh : ℕ → List ℕ
fresh ℕ.zero = []
fresh (suc n) = n ∷ fresh n

unfoldable pub new_pool : ℕ → ObjectPool
new_pool n = record { pool = fresh n; available_count = n; total_created = 0 }

-- `acquire`, where `made` is the object that `make_unique` gives; whether it was used is returned.
abbrev pub acquire_from : ℕ → ObjectPool → List ℕ → ObjectPool × ℕ × Bool
acquire_from made p [] = (record p { total_created = add64 p.total_created 1 }, made, true)
acquire_from made p (a ∷ rest) =
    (record p { pool = rest; available_count = sub64 p.available_count 1 }, a, false)

unfoldable pub acquire : ℕ → ObjectPool → ObjectPool × ℕ × Bool
acquire made p = acquire_from made p p.pool

unfoldable pub return_object : ℕ → ObjectPool → ObjectPool
return_object a p =
    if ltb (length p.pool) max_pool_size
    then record p { pool = a ∷ p.pool; available_count = add64 p.available_count 1 }
    else p

-- The end of a wrapper's hold on what it had; a wrapper that was moved from has nothing.
unfoldable pub release : Option ℕ → ObjectPool → ObjectPool
release none p = p
release (some a) p = return_object a p

-- The program's wrappers, by their place, and the number of objects that were made.
pub record Holders : Type 0 where
  pub objects : ObjectPool
  pub wrappers : List (Option ℕ)
  pub made : ℕ

-- What wrapper `i` holds, and the wrappers with `x` in its place. A wrapper that is not there yet
-- is made.
unfoldable pub exchange : ℕ → Option ℕ → List (Option ℕ) → Option ℕ × List (Option ℕ)
exchange i x [] = (none, x ∷ [])
exchange ℕ.zero x (w ∷ ws) = (w, x ∷ ws)
exchange (suc i) x (w ∷ ws) = let r = exchange i x ws in (r.0, w ∷ r.1)

-- `wrapper i = pool.acquire()`, the destructor of wrapper i, and `wrapper i = std::move(wrapper j)`.
pub data Use : Type 0 where
  acquire_into : ℕ → Use
  destroy : ℕ → Use
  assign : ℕ → ℕ → Use

-- A wrapper takes an object, and lets go of what it had.
unfoldable pub put_into : ℕ → Option ℕ → Holders → Holders
put_into i x s =
    let r = exchange i x s.wrappers in record s { objects = release r.0 s.objects; wrappers = r.1 }

unfoldable pub step : Holders → Use → Holders
step s (acquire_into i) =
    let r = acquire s.made s.objects in
    put_into i (some r.1) (record s { objects = r.0; made = if r.2 then suc s.made else s.made })
step s (destroy i) = put_into i none s
step s (assign i j) =
    let r = exchange j none s.wrappers in
    if i == j then s else put_into i r.0 (record s { wrappers = r.1 })

unfoldable pub run : Holders → List Use → Holders
run s [] = s
run s (u ∷ us) = run (step s u) us

unfoldable pub started : ℕ → Holders
started n = record { objects = new_pool n; wrappers = []; made = n }

-- The program's two pools, and their statistics.
pub record ObjectPools : Type 0 where
  pub order_pool : ObjectPool
  pub trade_pool : ObjectPool

unfoldable pub object_pools : ObjectPools
object_pools = record { order_pool = new_pool 2000; trade_pool = new_pool 1000 }

unfoldable pub get_all_stats : ObjectPools → Stats × Stats
get_all_stats p = (get_stats p.order_pool, get_stats p.trade_pool)
