-- ===== src/OrderBook/Cache.antt =====
-- order_book/service.py: the cache of `OrderBookService`.
pub mod Latest
pub mod Recent
use quant_execution_engine.Prelude.{
  ℕ, ◌-◌, Bool, not, List, [], ◌∷◌, ◌++◌, Option, none, some, ltb, length, keep, find,
  if◌then◌else◌,
}
use quant_execution_engine.OrderBook.Models.{OrderBook, Key, key_of, same_key}

-- The ordered dictionary, the least recently used book first. Its key is always the book's own.
pub record BookCache : Type 0 where
  pub max_symbols : ℕ
  pub max_age : ℕ
  pub books : List OrderBook

-- `cache[key] = book; cache.move_to_end(key)`
unfoldable pub to_end : OrderBook → List OrderBook → List OrderBook
to_end book books = keep (λ b. not (same_key (key_of b) (key_of book))) books ++ book ∷ []

-- `_evict`
unfoldable pub evict : ℕ → List OrderBook → List OrderBook
evict max_symbols [] = []
evict max_symbols (b ∷ rest) =
    let fewer = evict max_symbols rest in
    if ltb max_symbols (length (b ∷ rest)) then fewer else b ∷ rest

-- The part of `publish` that keeps the book.
unfoldable pub store : OrderBook → BookCache → BookCache
store book c = record c { books = evict c.max_symbols (to_end book c.books) }

fresh : OrderBook → ℕ → BookCache → Option OrderBook × BookCache
fresh book now c =
    if ltb c.max_age (now - book.received_at)
    then (none, c)
    else (some book, record c { books = to_end book c.books })

answer : Option OrderBook → ℕ → BookCache → Option OrderBook × BookCache
answer none now c = (none, c)
answer (some book) now c = fresh book now c

-- `get`: the answer, and the cache after it.
unfoldable pub get : Key → ℕ → BookCache → Option OrderBook × BookCache
unfolding answer fresh
get key now c = answer (find (λ b. same_key (key_of b) key) c.books) now c
