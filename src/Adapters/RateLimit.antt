-- ===== src/Adapters/RateLimit.antt =====
-- adapters/rate_limit.py: `TokenBucket`. Exact arithmetic stands for the floats: times are
-- milliseconds, the rate is in thousandths of a token per second, and tokens are counted in
-- millionths, so that a rate times a time is a number of tokens.
pub mod Bounds
use quant_execution_engine.Prelude.{
  ℕ, ◌+◌, ◌-◌, ◌*◌, Bool, true, false, Option, none, some, ltb, leb, if◌then◌else◌,
}

pub record TokenBucket : Type 0 where
  pub rate : ℕ
  pub capacity : ℕ
  pub tokens : ℕ
  pub updated : ℕ

abbrev pub token : ℕ
token = 1000000

-- `TokenBucket(rate_per_second)` at a clock reading: the capacity is the tokens of one second.
unfoldable pub new_bucket : ℕ → ℕ → TokenBucket
new_bucket rate now = record {
  rate = rate;
  capacity = rate * 1000;
  tokens = rate * 1000;
  updated = now;
}

abbrev pub enabled : TokenBucket → Bool
enabled b = ltb 0 b.rate

abbrev min : ℕ → ℕ → ℕ
min a b = if leb a b then a else b

-- `_refill_locked`, at a clock reading
unfoldable pub refill : TokenBucket → ℕ → TokenBucket
refill b timestamp =
    let elapsed = timestamp - b.updated in
    if ltb 0 elapsed
    then record b { updated = timestamp; tokens = min b.capacity (b.tokens + elapsed * b.rate) }
    else record b { updated = timestamp }

-- One acquire under the lock: its clock reading, and the reading after a sleep as a function of the
-- tokens that are missing, which the source divides by the rate to have the time to sleep.
pub record Turn : Type 0 where
  pub started : ℕ
  pub woken : ℕ → ℕ

abbrev pub spent : TokenBucket → TokenBucket
spent b = record b { tokens = b.tokens - token }

-- What an acquire does once it has refilled.
unfoldable pub taken : TokenBucket → Turn → TokenBucket × Option ℕ
taken filled turn =
    if leb token filled.tokens
    then (spent filled, none)
    else (let deficit = token - filled.tokens in
        (spent (refill filled (turn.woken deficit)), some deficit))

-- The bucket after the acquire, and the tokens that were slept for.
unfoldable pub acquire : TokenBucket → Turn → TokenBucket × Option ℕ
unfolding taken
acquire b turn = if enabled b then taken (refill b turn.started) turn else (b, none)
