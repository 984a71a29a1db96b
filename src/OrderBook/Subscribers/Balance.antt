-- ===== src/OrderBook/Subscribers/Balance.antt =====
-- What the subscriptions of order_book/service.py ask of the router, against the queues held.
use quant_execution_engine.Prelude.{
  ℕ, ◌+◌, ◌≡◌, refl, sym, subst, true, false, List, [], ◌∷◌, ◌++◌, map, arith, length, any, ltb,
  ◌==◌, Bool-cases, inl, inr, if◌then◌else◌, length-append,
}
use quant_execution_engine.OrderBook.Models.{OrderBook, Key, key_of, same_key}
use quant_execution_engine.OrderBook.Models.Keys.{eq_of_same_key}
use quant_execution_engine.OrderBook.Subscribers.{
  BookQueue, Subscribers, RouterCall, router_subscribe, router_unsubscribe, offer, fan_out, acquire,
  remove, release, is_held,
}

-- How often the router was asked to subscribe to a key, and to unsubscribe from it.
abbrev pub subscribes : Key → List RouterCall → ℕ
subscribes k [] = 0
subscribes k (router_subscribe l ∷ log) = (if same_key l k then 1 else 0) + subscribes k log
subscribes k (_ ∷ log) = subscribes k log

abbrev pub unsubscribes : Key → List RouterCall → ℕ
unsubscribes k [] = 0
unsubscribes k (router_unsubscribe l ∷ log) = (if same_key l k then 1 else 0) + unsubscribes k log
unsubscribes k (_ ∷ log) = unsubscribes k log

pub data Change : Type 0 where
  acquiring : Key → BookQueue → Change
  releasing : Key → ℕ → Change
  publishing : OrderBook → Change

-- The state after a change, and what it asks of the router.
abbrev change : Change → Subscribers → Subscribers × List RouterCall
change (acquiring key q) s = acquire key q s
change (releasing key id) s = release key id s
change (publishing book) s = (fan_out book s, [])

abbrev pub run : List Change → Subscribers → List RouterCall → Subscribers × List RouterCall
run [] s log = (s, log)
run (c ∷ rest) s log = run rest (change c s).0 ((change c s).1 ++ log)

-- A queue is released only while it is held.
abbrev IsPaired : Change → Subscribers → Type 0
IsPaired (releasing key id) s = is_held key id s ≡ true
IsPaired _ s = Unit

abbrev pub AllPaired : List Change → Subscribers → Type 0
AllPaired [] s = Unit
AllPaired (c ∷ rest) s = IsPaired c s × AllPaired rest (change c s).0

abbrev pub no_subscribers : ℕ → Subscribers
no_subscribers size = record { queue_size = size; queues = λ k. []; refcounts = λ k. 0 }

record IsBalanced (s : Subscribers) (log : List RouterCall) (k : Key) : Type 0 where
  counted : s.refcounts k ≡ length (s.queues k)
  asked : subscribes k log ≡ unsubscribes k log + (if ltb 0 (s.refcounts k) then 1 else 0)

length-remove :
    (id : ℕ) (qs : List BookQueue)
    → any (λ q. q.id == id) qs ≡ true
    → length (remove id qs) + 1 ≡ length qs
unfolding remove
length-remove id [] h = cc
length-remove id (q ∷ rest) h = let ih = length-remove id rest in ground (arith, h, ih)

length-map : (f : BookQueue → BookQueue) (qs : List BookQueue) → length (map f qs) ≡ length qs
length-map f [] = refl
length-map f (q ∷ rest) = omega (arith, length-map f rest)

module _ (s : Subscribers) (log : List RouterCall) (key : Key) (self : same_key key key ≡ true)
    (v : IsBalanced s log key) where
  same_acquire : (q : BookQueue) → IsBalanced (acquire key q s).0 ((acquire key q s).1 ++ log) key
  unfolding acquire
  same_acquire q =
      let longer = length-append (s.queues key) (q ∷ []) in
      record {
        counted = ground (arith, self, v.counted, longer);
        asked = ground (arith, self, v.asked);
      }

  same_release :
      (id : ℕ)
      → is_held key id s ≡ true
      → IsBalanced (release key id s).0 ((release key id s).1 ++ log) key
  unfolding release
  same_release id held =
      let shorter = length-remove id (s.queues key) held in
      record {
        counted = ground (arith, self, v.counted, shorter);
        asked = ground (arith, self, v.counted, v.asked, shorter);
      }

module _ (s : Subscribers) (log : List RouterCall) (key k : Key) (other : same_key key k ≡ false)
    (v : IsBalanced s log k) where
  other_acquire : (q : BookQueue) → IsBalanced (acquire key q s).0 ((acquire key q s).1 ++ log) k
  unfolding acquire
  other_acquire q = record {
    counted = ground (arith, other, v.counted);
    asked = ground (arith, other, v.asked);
  }

  other_release : (id : ℕ) → IsBalanced (release key id s).0 ((release key id s).1 ++ log) k
  unfolding release
  other_release id = record {
    counted = ground (arith, other, v.counted);
    asked = ground (arith, other, v.asked);
  }

-- At every key: at the key of the change by the cases above, and elsewhere nothing has changed.
module _ (s : Subscribers) (log : List RouterCall) (v : (k : Key) → IsBalanced s log k) where
  at_each :
      (key : Key) (P : Key → Type 0)
      → (same_key key key ≡ true → P key)
      → ((k : Key) → same_key key k ≡ false → P k)
      → (k : Key) → P k
  at_each key P same other k = elim (Bool-cases (same_key key k)) [
    | inl h ↦
        (let e = eq_of_same_key key k h in
          subst P e (same (subst (λ l. same_key key l ≡ true) (sym e) h)))
    | inr h ↦ other k h
  ]

  change-IsBalanced :
      (c : Change) → IsPaired c s → (k : Key) → IsBalanced (change c s).0 ((change c s).1 ++ log) k
  unfolding fan_out
  change-IsBalanced (acquiring key q) held =
      at_each key (IsBalanced (acquire key q s).0 ((acquire key q s).1 ++ log))
        (λ self. same_acquire s log key self (v key) q)
        (λ k other. other_acquire s log key k other (v k) q)
  change-IsBalanced (releasing key id) held =
      at_each key (IsBalanced (release key id s).0 ((release key id s).1 ++ log))
        (λ self. same_release s log key self (v key) id held)
        (λ k other. other_release s log key k other (v k) id)
  change-IsBalanced (publishing book) held =
      at_each (key_of book) (IsBalanced (fan_out book s) log)
        (λ self.
          let same_length = length-map (offer s.queue_size book) (s.queues (key_of book)) in
          record {
            counted = ground (arith, self, (v (key_of book)).counted, same_length);
            asked = (v (key_of book)).asked;
          })
        (λ k other. record { counted = ground (arith, other, (v k).counted); asked = (v k).asked })

run-IsBalanced :
    (changes : List Change) (s : Subscribers) (log : List RouterCall)
    → AllPaired changes s
    → ((k : Key) → IsBalanced s log k)
    → (k : Key) → let (s', log') = run changes s log in IsBalanced s' log' k
run-IsBalanced [] s log paired v = v
run-IsBalanced (c ∷ rest) s log (first, later) v =
    run-IsBalanced rest (change c s).0 ((change c s).1 ++ log) later
      (change-IsBalanced s log v c first)

-- Along any sequence of acquires, publishes and releases of queues that are held then, from no
-- subscribers, the count of each key is the number of queues held for it, and the router has been
-- asked to subscribe to the key once more often than to unsubscribe from it while a queue is held,
-- and equally often while none is.
pub subscriptions_balance :
    (size : ℕ) (changes : List Change) (k : Key)
    → AllPaired changes (no_subscribers size)
    → let (s, log) = run changes (no_subscribers size) [] in
      (s.refcounts k ≡ length (s.queues k))
      × (subscribes k log ≡ unsubscribes k log + (if ltb 0 (length (s.queues k)) then 1 else 0))
subscriptions_balance size changes k paired =
    let v =
      run-IsBalanced changes (no_subscribers size) [] paired
        (λ k. record { counted = refl; asked = refl }) k in
    (v.counted, ground (arith, v.counted, v.asked))
