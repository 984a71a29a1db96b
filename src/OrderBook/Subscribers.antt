-- ===== src/OrderBook/Subscribers.antt =====
-- order_book/service.py: the subscriptions of `OrderBookService`, and what it passes on to them.
pub mod Balance
use quant_execution_engine.Prelude.{
  ℕ, ◌+◌, ◌-◌, Bool, List, [], ◌∷◌, ◌++◌, map, drop, length, leb, ltb, ◌==◌, ◌&&◌, any,
  if◌then◌else◌,
}
use quant_execution_engine.OrderBook.Models.{OrderBook, Key, key_of, same_key}

-- A bounded queue, known by its identity; a bound of 0 is none.
pub record BookQueue : Type 0 where
  pub id : ℕ
  pub books : List OrderBook

-- The two dictionaries as functions: a key that is absent has no queue, and the count 0.
pub record Subscribers : Type 0 where
  pub queue_size : ℕ
  pub queues : Key → List BookQueue
  pub refcounts : Key → ℕ

-- What the service asks of the router.
pub data RouterCall : Type 0 where
  router_subscribe router_unsubscribe : Key → RouterCall

-- `table[key] = value`
abbrev put {ℓ} : {A : Type ℓ} → Key → A → (Key → A) → Key → A
put key value table k = if same_key key k then value else table k

-- `put_nowait`, and on a full queue again once the oldest book is dropped
unfoldable pub offer : ℕ → OrderBook → BookQueue → BookQueue
offer size book q = record q {
  books =
      (if ltb 0 size && leb size (length q.books) then drop 1 q.books else q.books) ++ book ∷ [];
}

-- The part of `publish` that passes the book on.
unfoldable pub fan_out : OrderBook → Subscribers → Subscribers
fan_out book s =
    let key = key_of book in
    record s { queues = put key (map (offer s.queue_size book) (s.queues key)) s.queues }

-- `_acquire`, with what it asks of the router, which may raise after the state has changed
unfoldable pub acquire : Key → BookQueue → Subscribers → Subscribers × List RouterCall
acquire key q s =
    let count = s.refcounts key + 1 in
    (
      record s {
        queues = put key (s.queues key ++ q ∷ []) s.queues;
        refcounts = put key count s.refcounts;
      },
      (if count == 1 then router_subscribe key ∷ [] else []),
    )

-- `queues.remove(queue)`, if it is there
unfoldable pub remove : ℕ → List BookQueue → List BookQueue
remove id [] = []
remove id (q ∷ rest) = let others = remove id rest in if q.id == id then rest else q ∷ others

unfoldable pub release : Key → ℕ → Subscribers → Subscribers × List RouterCall
release key id s =
    let count = s.refcounts key - 1 in
    let left = put key (remove id (s.queues key)) s.queues in
    if count == 0
    then (
      record s { queues = put key [] left; refcounts = put key 0 s.refcounts },
      router_unsubscribe key ∷ [],
    )
    else (record s { queues = left; refcounts = put key count s.refcounts }, [])

abbrev pub is_held : Key → ℕ → Subscribers → Bool
is_held key id s = any (λ q. q.id == id) (s.queues key)
