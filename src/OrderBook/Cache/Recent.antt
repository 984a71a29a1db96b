-- ===== src/OrderBook/Cache/Recent.antt =====
-- What the cache of order_book/service.py still holds after a publish.
use quant_execution_engine.Prelude.{
  ℕ, ◌-◌, ◌≤◌, ◌<◌, ◌≡◌, refl, Bool, true, false, not, List, [], ◌∷◌, ◌++◌, some, arith, length,
  ltb, keep, find, All, Bool-cases, inl, inr,
}
use quant_execution_engine.OrderBook.Models.{OrderBook, key_of, same_key}
use quant_execution_engine.OrderBook.Models.Keys.{same_key_refl}
use quant_execution_engine.OrderBook.Cache.{BookCache, to_end, evict, store, fresh, answer, get}

found_last :
    (test : OrderBook → Bool) (xs : List OrderBook) (b : OrderBook)
    → All (λ x. test x ≡ false) xs
    → test b ≡ true
    → find test (xs ++ b ∷ []) ≡ some b
found_last test [] b none_before h = rw h
found_last test (x ∷ rest) b (first, later) h = rw first (found_last test rest b later h)

found_evicted :
    (test : OrderBook → Bool) (n : ℕ) (xs : List OrderBook) (b : OrderBook)
    → 0 < n
    → All (λ x. test x ≡ false) xs
    → test b ≡ true
    → find test (evict n (xs ++ b ∷ [])) ≡ some b
unfolding evict
found_evicted test n [] b some_room none_before h =
    let stays : ltb n 1 ≡ false = ground arith in rw (stays, h)
found_evicted test n (x ∷ rest) b some_room (first, later) h =
    elim (Bool-cases (ltb n (length (x ∷ rest ++ b ∷ [])))) [
      | inl e ↦ rw e (found_evicted test n rest b some_room later h)
      | inr e ↦ rw e (rw first (found_last test rest b later h))
    ]

others_kept :
    (test : OrderBook → Bool) (books : List OrderBook)
    → All (λ x. test x ≡ false) (keep (λ x. not (test x)) books)
others_kept test [] = tt
others_kept test (x ∷ rest) = elim (Bool-cases (test x)) [
  | inl e ↦ rw e (others_kept test rest)
  | inr e ↦ rw e ((e, others_kept test rest))
]

-- A book that has just been published is read back under its key, if the cache may hold a book at
-- all and while it is no older than the cache allows.
published_is_read :
    (book : OrderBook) (c : BookCache) (now : ℕ)
    → 0 < c.max_symbols
    → now - book.received_at ≤ c.max_age
    → (get (key_of book) now (store book c)).0 ≡ some book
unfolding get store to_end answer fresh
published_is_read book c now some_room young =
    let test : OrderBook → Bool = λ b. same_key (key_of b) (key_of book) in
    let found =
      found_evicted test c.max_symbols (keep (λ b. not (test b)) c.books) book some_room
        (others_kept test c.books) (same_key_refl (key_of book)) in
    let not_stale : ltb c.max_age (now - book.received_at) ≡ false = ground (arith, young) in
    rw found (rw not_stale refl)
