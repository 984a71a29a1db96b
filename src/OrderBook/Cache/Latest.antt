-- ===== src/OrderBook/Cache/Latest.antt =====
-- The cache of order_book/service.py against what was published: a map from keys to the latest book,
-- of which the cache may have forgotten some.
use quant_execution_engine.Prelude.{
  ℕ, ◌+◌, ◌-◌, ◌≤◌, ◌≡◌, refl, sym, subst, ◌∙◌, Bool, true, false, not, List, [], ◌∷◌, Option, none,
  some, arith, length, length-append, ltb, keep, find, All, All-append, Bool-cases, inl, inr,
  if◌then◌else◌,
}
use quant_execution_engine.OrderBook.Models.{OrderBook, Key, key_of, same_key}
use quant_execution_engine.OrderBook.Models.Keys.{eq_of_same_key, same_key_refl, other_key}
use quant_execution_engine.OrderBook.Cache.{BookCache, to_end, evict, store, fresh, answer, get}

-- The abstract view: the book that was published last under a key, from the latest back.
abbrev pub latest : Key → List OrderBook → Option OrderBook
latest k [] = none
latest k (book ∷ before) = if same_key (key_of book) k then some book else latest k before

pub data Use : Type 0 where
  publishing : OrderBook → Use
  reading : Key → ℕ → Use

-- The cache after a use, and the books published, the latest first.
abbrev pub use_cache : Use → BookCache → BookCache
use_cache (publishing book) c = store book c
use_cache (reading key now) c = (get key now c).1

abbrev pub published : Use → List OrderBook → List OrderBook
published (publishing book) before = book ∷ before
published (reading key now) before = before

abbrev pub run : List Use → BookCache → BookCache
run [] c = c
run (u ∷ rest) c = run rest (use_cache u c)

abbrev pub history : List Use → List OrderBook → List OrderBook
history [] before = before
history (u ∷ rest) before = history rest (published u before)

-- Each book that the cache holds is the latest of its key, and it holds no more than it may.
record IsCache (c : BookCache) (before : List OrderBook) : Type 0 where
  bounded : length c.books ≤ c.max_symbols
  known : All (λ b. latest (key_of b) before ≡ some b) c.books

evict_bounded : (n : ℕ) (books : List OrderBook) → length (evict n books) ≤ n
unfolding evict
evict_bounded n [] = omega arith
evict_bounded n (b ∷ rest) = let ih = evict_bounded n rest in ground (arith, ih)

evict-All :
    (P : OrderBook → Type 0) (n : ℕ) (books : List OrderBook) → All P books → All P (evict n books)
unfolding evict
evict-All P n [] all = tt
evict-All P n (b ∷ rest) (first, later) = elim (Bool-cases (ltb n (length (b ∷ rest)))) [
  | inl h ↦ rw h (evict-All P n rest later)
  | inr h ↦ rw h ((first, later))
]

keep-All :
    (P Q : OrderBook → Type 0) (test : OrderBook → Bool) (books : List OrderBook)
    → ((b : OrderBook) → test b ≡ true → P b → Q b)
    → All P books
    → All Q (keep test books)
keep-All P Q test [] weaken all = tt
keep-All P Q test (b ∷ rest) weaken (first, later) = elim (Bool-cases (test b)) [
  | inl h ↦ rw h ((weaken b h first, keep-All P Q test rest weaken later))
  | inr h ↦ rw h (keep-All P Q test rest weaken later)
]

find-lem :
    (P : OrderBook → Type 0) (test : OrderBook → Bool) (books : List OrderBook) (b : OrderBook)
    → All P books
    → find test books ≡ some b
    → P b × (test b ≡ true)
find-lem P test [] b all h = cc
find-lem P test (x ∷ rest) b (first, later) h = elim (Bool-cases (test x)) [
  | inl e ↦
      (let found : find test (x ∷ rest) ≡ some x = rw e in
        let same : x ≡ b = cc in subst (λ b. P b × (test b ≡ true)) same (first, e))
  | inr e ↦
      (let passed : find test (x ∷ rest) ≡ find test rest = rw e in
        find-lem P test rest b later (sym passed ∙ h))
]

to_end-All :
    (P Q : OrderBook → Type 0) (book : OrderBook) (books : List OrderBook)
    → ((b : OrderBook) → same_key (key_of b) (key_of book) ≡ false → P b → Q b)
    → Q book
    → All P books
    → All Q (to_end book books)
unfolding to_end
to_end-All P Q book books weaken self all =
    All-append Q (keep (λ b. not (same_key (key_of b) (key_of book))) books) (book ∷ [])
      (keep-All P Q (λ b. not (same_key (key_of b) (key_of book))) books
        (λ b h p. weaken b (ground (arith, h)) p) all)
      (self, tt)

length-keep :
    (test : OrderBook → Bool) (books : List OrderBook) → length (keep test books) ≤ length books
length-keep test [] = omega arith
length-keep test (b ∷ rest) = let ih = length-keep test rest in ground (arith, ih)

fewer_kept :
    (test : OrderBook → Bool) (books : List OrderBook) (b : OrderBook)
    → find test books ≡ some b
    → length (keep (λ b. not (test b)) books) + 1 ≤ length books
fewer_kept test [] b h = cc
fewer_kept test (x ∷ rest) b h =
    let ih = fewer_kept test rest b in
    let kept = length-keep (λ b. not (test b)) rest in ground (arith, h, ih, kept)

-- Moving a book to the end makes the cache no longer, if its key is there.
length-to_end :
    (book b : OrderBook) (books : List OrderBook)
    → find (λ b. same_key (key_of b) (key_of book)) books ≡ some b
    → length (to_end book books) ≤ length books
unfolding to_end
length-to_end book b books h =
    let kept = keep (λ b. not (same_key (key_of b) (key_of book))) books in
    omega (
      arith,
      length-append kept (book ∷ []),
      fewer_kept (λ b. same_key (key_of b) (key_of book)) books b h,
    )

store-IsCache :
    (book : OrderBook) (c : BookCache) (before : List OrderBook)
    → IsCache c before
    → IsCache (store book c) (book ∷ before)
unfolding store
store-IsCache book c before v =
    let self : latest (key_of book) (book ∷ before) ≡ some book =
      rw (same_key_refl (key_of book)) in
    record {
      bounded = evict_bounded c.max_symbols (to_end book c.books);
      known =
          evict-All (λ b. latest (key_of b) (book ∷ before) ≡ some b) c.max_symbols
            (to_end book c.books)
            (to_end-All (λ b. latest (key_of b) before ≡ some b)
              (λ b. latest (key_of b) (book ∷ before) ≡ some b) book c.books
              (λ b h p. rw (other_key (key_of b) (key_of book) h) p) self v.known);
    }

-- A read: what it answers is the latest of the key and fresh, and the cache stays one.
record IsRead (key : Key) (now : ℕ) (c c' : BookCache) (before : List OrderBook)
    (o : Option OrderBook) : Type 0 where
  still : IsCache c' before
  current :
      (b : OrderBook)
      → o ≡ some b
      → (latest key before ≡ some b) × (now - b.received_at ≤ c.max_age)

fresh-IsRead :
    (b : OrderBook) (key : Key) (now : ℕ) (c : BookCache) (before : List OrderBook)
    → IsCache c before
    → find (λ b. same_key (key_of b) key) c.books ≡ some b
    → IsRead key now c (fresh b now c).1 before (fresh b now c).0
unfolding fresh
fresh-IsRead b key now c before v h =
    let (known, same) =
      find-lem (λ b. latest (key_of b) before ≡ some b) (λ b. same_key (key_of b) key) c.books b
        v.known h in
    let e = eq_of_same_key (key_of b) key same in
    let found : find (λ x. same_key (key_of x) (key_of b)) c.books ≡ some b =
      subst (λ k. find (λ x. same_key (key_of x) k) c.books ≡ some b) (sym e) h in
    elim (Bool-cases (ltb c.max_age (now - b.received_at))) [
      | inl stale ↦ rw stale (record { still = v; current = λ b' none_is. cc })
      | inr young ↦ rw young (record {
        still = record {
          bounded = omega (arith, length-to_end b b c.books found, v.bounded);
          known =
              to_end-All (λ b. latest (key_of b) before ≡ some b)
                (λ b. latest (key_of b) before ≡ some b) b c.books (λ b h p. p) known v.known;
        };
        current = λ b' some_is.
            let same_book : b ≡ b' = cc in
            subst (λ b. (latest key before ≡ some b) × (now - b.received_at ≤ c.max_age)) same_book
              (subst (λ k. latest k before ≡ some b) e known, ground (arith, young));
      })
    ]

get-IsRead :
    (key : Key) (now : ℕ) (c : BookCache) (before : List OrderBook)
    → IsCache c before
    → IsRead key now c (get key now c).1 before (get key now c).0
unfolding get answer
get-IsRead key now c before v = from (find (λ b. same_key (key_of b) key) c.books) refl
  where
    from :
        (o : Option OrderBook)
        → find (λ b. same_key (key_of b) key) c.books ≡ o
        → IsRead key now c (answer o now c).1 before (answer o now c).0
    from none h = record { still = v; current = λ b none_is. cc }
    from (some b) h = fresh-IsRead b key now c before v h

run-IsCache :
    (uses : List Use) (c : BookCache) (before : List OrderBook)
    → IsCache c before
    → IsCache (run uses c) (history uses before)
run-IsCache [] c before v = v
run-IsCache (publishing book ∷ rest) c before v =
    run-IsCache rest (store book c) (book ∷ before) (store-IsCache book c before v)
run-IsCache (reading key now ∷ rest) c before v =
    run-IsCache rest (get key now c).1 before (get-IsRead key now c before v).still

abbrev pub empty_cache : ℕ → ℕ → BookCache
empty_cache max_symbols max_age = record {
  max_symbols = max_symbols;
  max_age = max_age;
  books = [];
}

use_keeps :
    (u : Use) (c : BookCache)
    → ((use_cache u c).max_symbols ≡ c.max_symbols) × ((use_cache u c).max_age ≡ c.max_age)
unfolding store get answer fresh
use_keeps (publishing book) c = (refl, refl)
use_keeps (reading key now) c = ground arith

run_keeps :
    (uses : List Use) (c : BookCache)
    → ((run uses c).max_symbols ≡ c.max_symbols) × ((run uses c).max_age ≡ c.max_age)
run_keeps [] c = (refl, refl)
run_keeps (u ∷ rest) c =
    let (max_is, age_is) = use_keeps u c in
    let (max_is', age_is') = run_keeps rest (use_cache u c) in (max_is' ∙ max_is, age_is' ∙ age_is)

-- After any sequence of publishes and reads from an empty cache, the cache holds no more books than
-- it may, and what a read answers, if anything, is the book that was published last under its key,
-- and that book is no older than the cache allows.
pub cache_refines :
    (max_symbols max_age : ℕ) (uses : List Use) (key : Key) (now : ℕ) (book : OrderBook)
    → let c = run uses (empty_cache max_symbols max_age) in
      (get key now c).0 ≡ some book
      → (length c.books ≤ max_symbols)
        × (latest key (history uses []) ≡ some book)
        × (now - book.received_at ≤ max_age)
cache_refines max_symbols max_age uses key now book h =
    let start = empty_cache max_symbols max_age in
    let c = run uses start in
    let (max_is, age_is) = run_keeps uses start in
    let v = run-IsCache uses start [] (record { bounded = omega arith; known = tt }) in
    let (known, young) = (get-IsRead key now c (history uses []) v).current book h in
    (omega (arith, v.bounded, max_is), known, omega (arith, young, age_is))
