-- ===== src/Feed/Tests.antt =====
-- A publisher with two typed subscribers and one on texts, and the theorems on it.
use financial_order_book.Prelude.{
  ℕ, ◌==◌, ◌≡◌, refl, not, arith, if◌then◌else◌, List, [], ◌∷◌, ◌++◌, none, some, true, length,
}
use financial_order_book.Prelude.Double.{cents_double}
use financial_order_book.Prelude.Text.{codes}
use financial_order_book.Order.{Trade}
use financial_order_book.Book.{Event, BestPrices, nth, erase_nth}
use financial_order_book.Feed.{
  World, Outcome, on_text, Publisher, new_publisher, subscribe, subscribe_text, remove_expired,
  notify_loop, notify_typed_subscribers, notify_each, notify_string_subscribers, publish,
  next_sequence,
}
use financial_order_book.Feed.Format.{publish_trade, publish_best_prices}
use financial_order_book.Feed.Notify.{IsCalm, calls_of, notify_typed_subscribers_lem}
use financial_order_book.Feed.Tally.{publish_all, IsRead, publish_all-IsRead}

abbrev two_subscribers : Publisher ℕ
two_subscribers = subscribe_text (subscribe (subscribe new_publisher 1) 2) 3

-- Subscriber 1 has expired; subscriber 3 throws.
abbrev without_first : World
without_first = record {
  locks = λ s. not (s == 1);
  calls = λ s. if s == 3 then Outcome.throws else Outcome.returns;
}

abbrev prices : BestPrices ℕ
prices = record { bid = some 100; ask = none; bid_size = some 5; ask_size = none }

abbrev a_trade : Trade ℕ
a_trade = record {
  id = 1;
  buy_order_id = 4;
  sell_order_id = 2;
  price = 105;
  quantity = 2;
  symbol = codes "A";
}

abbrev events : List (World × Event ℕ)
events = (without_first, Event.trade a_trade) ∷ (without_first, Event.best_prices prices) ∷ []

without_first-IsCalm : IsCalm without_first
without_first-IsCalm s = ground arith

two_published :
    ((publish_all [] 10 two_subscribers events).sequence_number ≡ 2)
    × ((publish_all [] 10 two_subscribers events).typed_subscribers ≡ 2 ∷ [])
    × (length (publish_all [] 10 two_subscribers events).delivered ≡ 4)
unfolding publish_trade publish_best_prices publish next_sequence notify_typed_subscribers
    notify_loop notify_string_subscribers notify_each nth erase_nth
two_published = (refl, refl, refl)

notify_typed_subscribers_lem_example :
    notify_typed_subscribers without_first two_subscribers (on_text []) ≡ (
      record two_subscribers {
        typed_subscribers = remove_expired without_first.locks (1 ∷ 2 ∷ []);
        delivered = [] ++ calls_of (on_text []) (remove_expired without_first.locks (1 ∷ 2 ∷ []));
      },
      true,
    )
notify_typed_subscribers_lem_example =
    notify_typed_subscribers_lem without_first without_first-IsCalm (on_text []) two_subscribers

publish_all-IsRead_example : IsRead 2 0 (publish_all [] 10 two_subscribers events)
publish_all-IsRead_example =
    publish_all-IsRead 2 0 [] 10 two_subscribers events
      ((without_first-IsCalm, refl), ((without_first-IsCalm, refl), tt))
      (record { read_is = refl; once = refl })
