-- ===== src/Pool/Tests.antt =====
-- A pool of two objects, and the theorem on it.
use financial_order_book.Prelude.{◌≡◌, refl, List, [], ◌∷◌, arith}
use financial_order_book.Pool.{
  Use, acquire, return_object, release, exchange, put_into, step, run, started, fresh, new_pool,
  get_stats,
}
use financial_order_book.Pool.Owned.{IsOwned, run-IsOwned}

abbrev pub three_taken : List Use
three_taken =
    Use.acquire_into 0
    ∷ Use.acquire_into 1
    ∷ Use.acquire_into 2
    ∷ Use.assign 0 2
    ∷ Use.destroy 1
    ∷ []

-- The third object is made anew, and the first two are back in the pool.
three_taken_pool : (run (started 2) three_taken).objects.pool ≡ 0 ∷ 1 ∷ []
unfolding run started new_pool fresh step put_into exchange release return_object acquire
three_taken_pool = refl

three_taken_total : (get_stats (run (started 2) three_taken).objects).total_created ≡ 1
unfolding run started new_pool fresh step put_into exchange release return_object acquire get_stats
three_taken_total = refl

run-IsOwned_example : IsOwned 10000 (run (started 2) three_taken)
run-IsOwned_example = run-IsOwned 2 three_taken (omega arith)
