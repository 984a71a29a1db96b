-- ===== src/Tests/Booking.antt =====
-- Books in the cache, and their subscribers.
use quant_execution_engine.Prelude.{
  ℕ, ◌+◌, ◌-◌, ◌≤◌, ◌≡◌, refl, List, [], ◌∷◌, some, length, ltb, same_text, if◌then◌else◌,
}
use quant_execution_engine.Prelude.Decimal.{whole}
use quant_execution_engine.Contracts.Enums.{Market}
use quant_execution_engine.OrderBook.Models.{OrderBook, Key, same_key}
use quant_execution_engine.OrderBook.Cache.{to_end, evict, store, get}
use quant_execution_engine.OrderBook.Cache.Latest.{
  Use, publishing, reading, latest, run, history, empty_cache, cache_refines,
}
use quant_execution_engine.OrderBook.Subscribers.{acquire, remove, release, fan_out, offer}
use quant_execution_engine.OrderBook.Subscribers.Balance.{
  Change, acquiring, releasing, publishing as passing_on, subscribes, unsubscribes, AllPaired,
  no_subscribers, run as run_changes, subscriptions_balance,
}

abbrev book_at : ℕ → OrderBook
book_at n = record {
  symbol = "PTT";
  market = Market.set;
  bid_levels = record { price = whole 33; volume = 100 } ∷ [];
  ask_levels = record { price = whole 36; volume = 100 } ∷ [];
  sequence = n;
  received_at = n;
}

abbrev key : Key
key = record { symbol = "PTT"; market = Market.set }

abbrev uses : List Use
uses =
    publishing (book_at 1)
    ∷ publishing (record (book_at 2) { symbol = "AOT" })
    ∷ reading key 3
    ∷ publishing (book_at 4)
    ∷ []

read_at_last : (get key 5 (run uses (empty_cache 1 10))).0 ≡ some (book_at 4)
unfolding get store to_end evict same_key same_text
read_at_last = refl

cache_refines_example :
    (length (run uses (empty_cache 1 10)).books ≤ 1)
    × (latest key (history uses []) ≡ some (book_at 4))
    × (5 - 4 ≤ 10)
cache_refines_example = cache_refines 1 10 uses key 5 (book_at 4) read_at_last

-- Two consumers of one symbol, of which one leaves.
abbrev changes : List Change
changes =
    acquiring key (record { id = 1; books = [] })
    ∷ acquiring key (record { id = 2; books = [] })
    ∷ passing_on (book_at 1)
    ∷ releasing key 1
    ∷ []

paired : AllPaired changes (no_subscribers 1)
unfolding acquire remove release fan_out offer same_key same_text
paired = (tt, (tt, (tt, (refl, tt))))

subscriptions_balance_example :
    let (s, log) = run_changes changes (no_subscribers 1) [] in
    (s.refcounts key ≡ length (s.queues key))
    × (subscribes key log ≡ unsubscribes key log + (if ltb 0 (length (s.queues key)) then 1 else 0))
subscriptions_balance_example = subscriptions_balance 1 changes key paired
