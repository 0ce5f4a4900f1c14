-- ===== src/Manager/Tests.antt =====
-- Calls of an order manager, and the theorems on them at concrete managers.
use financial_order_book.Prelude.{ℕ, ◌≡◌, refl, ◌⊎◌, arith, [], ◌∷◌, none, some, true, false}
use financial_order_book.Prelude.Double.{cents_double}
use financial_order_book.Prelude.Map.{lookup, insert}
use financial_order_book.Types.{success, error}
use financial_order_book.Order.{Order, fill, remaining_quantity, is_active}
use financial_order_book.Order.Fill.{fill-Fills}
use financial_order_book.Order.Tests.{ten, ten-IsSound}
use financial_order_book.Manager.{
  OrderManager, new_manager, add_order, store_order, cancel_order, modify_order, get_order,
  validate_order, is_valid_price, step, run, adds, fills, cancels, modifies, removes, not_found,
  not_active, count_active, get_active_order_count,
}
use financial_order_book.Manager.Invariant.{AllManaged, run-AllManaged, empty-AllManaged}
use financial_order_book.Manager.Machine.{replay, replies, answers}
use financial_order_book.Manager.Replay.{run-replay}
use financial_order_book.Manager.Calls.{
  Adds, add_order-Adds, Cancels, cancel_order_lem, modify_to_filled,
}
use financial_order_book.Manager.Modifying.{Modifies, modify_order_lem}

abbrev pub empty : OrderManager ℕ ℕ
empty = new_manager

abbrev pub four_filled : Order ℕ
four_filled = fill ten 4

abbrev pub managed : OrderManager ℕ ℕ
managed = record new_manager { orders = (7, four_filled) ∷ [] }

added_once : (add_order empty (some ten)).1 ≡ success 7
unfolding add_order store_order validate_order is_valid_price lookup
added_once = refl

counted_once : get_active_order_count managed ≡ 1
unfolding count_active fill
counted_once = refl

add_order-Adds_example : Adds empty ten (add_order empty (some ten))
add_order-Adds_example = add_order-Adds empty ten

cancel_order_lem_example :
    ((cancel_order managed 7 ≡ (managed, error (not_found 7))) × (get_order managed 7 ≡ none))
    ⊎ ((o : Order ℕ) × (cancel_order managed 7 ≡ (managed, error (not_active 7)))
        × (get_order managed 7 ≡ some o)
        × (is_active o ≡ false))
    ⊎ ((m' : OrderManager ℕ ℕ) × (cancel_order managed 7 ≡ (m', success true))
        × Cancels managed 7 m')
cancel_order_lem_example = cancel_order_lem managed 7

modify_order_lem_example : Modifies managed 7 99 12 (modify_order managed 7 99 12)
modify_order_lem_example = modify_order_lem managed 7 99 12

modify_to_filled_example :
    (o' : Order ℕ) × (get_order (modify_order managed 7 0 4).0 7 ≡ some o')
    × ((modify_order managed 7 0 4).1 ≡ success true)
    × (remaining_quantity o' ≡ 0)
    × (is_active o' ≡ true)
unfolding fill get_order lookup
modify_to_filled_example =
    modify_to_filled managed 7 0 four_filled refl refl
      (fill-Fills ten 4 ten-IsSound (omega arith)).sound (omega arith) (omega arith) refl

run-AllManaged_example : AllManaged (run empty (adds (some ten) ∷ fills 7 4 ∷ cancels 7 ∷ []))
unfolding step add_order store_order validate_order is_valid_price lookup insert
run-AllManaged_example =
    run-AllManaged empty (adds (some ten) ∷ fills 7 4 ∷ cancels 7 ∷ [])
      (tt, ((λ o e. ground arith), (tt, tt))) empty-AllManaged

-- The second addition of the same id and the quantity below what was filled are refused.
run-replay_example :
    let cs = adds (some ten) ∷ adds (some ten) ∷ fills 7 4 ∷ modifies 7 99 3 ∷ removes 7 ∷ [] in
    (get_order (run empty cs) ≡ replay (get_order empty) cs)
    × ((run empty cs).next_order_id ≡ 1)
    × (replies empty cs ≡ answers (get_order empty) 1 cs)
run-replay_example =
    run-replay empty
      (adds (some ten) ∷ adds (some ten) ∷ fills 7 4 ∷ modifies 7 99 3 ∷ removes 7 ∷ [])
