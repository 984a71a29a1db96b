-- ===== src/Adapters/RateLimit/Bounds.antt =====
-- How much a `TokenBucket` lets through.
use quant_execution_engine.Prelude.{
  ℕ, ◌+◌, ◌-◌, ◌*◌, ◌≤◌, ◌<◌, ◌≡◌, ◌⊎◌, ap, refl, inl, inr, ◌∙◌, subst, Bool-cases, leb→le, lt→ltb,
  true, List, [], ◌∷◌, arith, leb, length,
}
use quant_execution_engine.Adapters.RateLimit.{
  TokenBucket, token, new_bucket, enabled, refill, Turn, spent, taken, acquire,
}

abbrev pub run : TokenBucket → List Turn → TokenBucket
run b [] = b
run b (turn ∷ rest) = run (acquire b turn).0 rest

elapsed_lem : (r u t : ℕ) → u ≤ t → (t - u) * r + u * r ≡ t * r
elapsed_lem r u t h =
    let split : (t - u) + u ≡ t = omega (arith, h) in
    let whole : ((t - u) + u) * r ≡ t * r = ap (λ x. x * r) split in omega (arith, whole)

-- The clock is monotone, and a sleep takes at least as long as the missing tokens do to accrue.
abbrev pub IsTimely : TokenBucket → Turn → Type 0
IsTimely b turn =
    (b.updated ≤ turn.started)
    × ((deficit : ℕ) → turn.started * b.rate + deficit ≤ turn.woken deficit * b.rate)
    × ((deficit : ℕ) → turn.started ≤ turn.woken deficit)

abbrev pub AllTimely : TokenBucket → List Turn → Type 0
AllTimely b [] = Unit
AllTimely b (turn ∷ rest) = IsTimely b turn × AllTimely (acquire b turn).0 rest

-- What the bucket has let through by now, beside the tokens that are left, is no more than one full
-- bucket and what has accrued since it was made.
abbrev Paid : ℕ → ℕ → TokenBucket → Type 0
Paid made n b = token * n + b.tokens + made * b.rate ≤ b.capacity + b.updated * b.rate

-- No bucket holds more than its capacity.
record IsPaid (made n : ℕ) (b : TokenBucket) : Type 0 where
  full : b.tokens ≤ b.capacity
  paid : Paid made n b

refill_keeps :
    (b : TokenBucket) (t : ℕ)
    → ((refill b t).rate ≡ b.rate)
      × ((refill b t).capacity ≡ b.capacity)
      × ((refill b t).updated ≡ t)
unfolding refill
refill_keeps b t = ground arith

acquire_keeps :
    (b : TokenBucket) (turn : Turn)
    → ((acquire b turn).0.rate ≡ b.rate) × ((acquire b turn).0.capacity ≡ b.capacity)
unfolding acquire taken refill
acquire_keeps b turn = ground arith

module _ (made n : ℕ) where
  refill-IsPaid :
      (b : TokenBucket) (t : ℕ) → b.updated ≤ t → IsPaid made n b → IsPaid made n (refill b t)
  unfolding refill
  refill-IsPaid b t h v = record {
    full = ground (arith, v.full);
    paid = ground (arith, elapsed_lem b.rate b.updated t h, v.paid, v.full);
  }

  -- A whole token, or the time that one takes, pays for one more.
  spent-IsPaid :
      (b : TokenBucket)
      → IsPaid made n b
      → (token ≤ b.tokens) ⊎ (token * (n + 1) + made * b.rate ≤ b.capacity + b.updated * b.rate)
      → IsPaid made (n + 1) (spent b)
  spent-IsPaid b v enough = record {
    full = omega (arith, v.full);
    paid = ground (arith, v.paid, enough);
  }

  slept_enough :
      (b : TokenBucket) (t : ℕ)
      → b.updated ≤ t
      → IsPaid made n b
      → b.updated * b.rate + (token - b.tokens) ≤ t * b.rate
      → (token ≤ (refill b t).tokens)
        ⊎ (token * (n + 1) + made * (refill b t).rate
            ≤ (refill b t).capacity + (refill b t).updated * (refill b t).rate)
  unfolding refill
  slept_enough b t h v long = ground (arith, elapsed_lem b.rate b.updated t h, v.full, v.paid, long)

  taken-IsPaid :
      (b : TokenBucket) (turn : Turn)
      → ((deficit : ℕ) → b.updated * b.rate + deficit ≤ turn.woken deficit * b.rate)
      → ((deficit : ℕ) → b.updated ≤ turn.woken deficit)
      → IsPaid made n b
      → IsPaid made (n + 1) (taken b turn).0
  unfolding taken
  taken-IsPaid b turn long woken v = elim (Bool-cases (leb token b.tokens)) [
    | inl h ↦ rw h (spent-IsPaid b v (inl (leb→le token b.tokens h)))
    | inr h ↦ rw h (
        let deficit = token - b.tokens in
        let t = turn.woken deficit in
        spent-IsPaid (refill b t) (refill-IsPaid b t (woken deficit) v)
          (slept_enough b t (woken deficit) v (long deficit)))
  ]

  acquire-IsPaid :
      (b : TokenBucket) (turn : Turn)
      → enabled b ≡ true
      → IsTimely b turn
      → IsPaid made n b
      → IsPaid made (n + 1) (acquire b turn).0
  unfolding acquire
  acquire-IsPaid b turn on (later, long, woken) v =
      let (rate_is, _, updated_is) = refill_keeps b turn.started in
      rw on (
        taken-IsPaid (refill b turn.started) turn
          (λ deficit. rw (rate_is, updated_is) (long deficit))
          (λ deficit. rw updated_is (woken deficit)) (refill-IsPaid b turn.started later v))

run_keeps :
    (b : TokenBucket) (turns : List Turn)
    → ((run b turns).rate ≡ b.rate) × ((run b turns).capacity ≡ b.capacity)
run_keeps b [] = (refl, refl)
run_keeps b (turn ∷ rest) =
    let (rate_is, capacity_is) = acquire_keeps b turn in
    let (rate_is', capacity_is') = run_keeps (acquire b turn).0 rest in
    (rate_is' ∙ rate_is, capacity_is' ∙ capacity_is)

run-IsPaid :
    (made n : ℕ) (b : TokenBucket) (turns : List Turn)
    → enabled b ≡ true
    → AllTimely b turns
    → IsPaid made n b
    → IsPaid made (n + length turns) (run b turns)
run-IsPaid made n b [] on timely v = subst (λ m. IsPaid made m b) (omega arith) v
run-IsPaid made n b (turn ∷ rest) on (first, later) v =
    let (rate_is, _) = acquire_keeps b turn in
    subst (λ m. IsPaid made m (run (acquire b turn).0 rest)) (omega arith)
      (run-IsPaid made (n + 1) (acquire b turn).0 rest (rw rate_is on) later
        (acquire-IsPaid made n b turn on first v))

-- Along any sequence of acquires of an enabled bucket, on a clock that does not go back and with
-- sleeps that last at least as long as the missing tokens take to accrue, the number of acquires is
-- at most the tokens of one second and those that have accrued from the making of the bucket to its
-- last reading of the clock; and the bucket never holds more than the tokens of one second.
pub acquired_bounded :
    (rate made : ℕ) (turns : List Turn)
    → 0 < rate
    → AllTimely (new_bucket rate made) turns
    → let b = run (new_bucket rate made) turns in
      (token * length turns + made * rate ≤ rate * 1000 + b.updated * rate)
      × (b.tokens ≤ rate * 1000)
unfolding new_bucket
acquired_bounded rate made turns on timely =
    let start = new_bucket rate made in
    let b = run start turns in
    let v =
      run-IsPaid made 0 start turns (lt→ltb 0 rate on) timely
        (record { full = omega arith; paid = omega arith }) in
    let (rate_is, capacity_is) = run_keeps start turns in
    let accrued : b.updated * b.rate ≡ b.updated * rate = ap (λ r. b.updated * r) rate_is in
    let since : made * b.rate ≡ made * rate = ap (λ r. made * r) rate_is in
    (omega (arith, v.paid, accrued, since, capacity_is), omega (arith, v.full, capacity_is))
