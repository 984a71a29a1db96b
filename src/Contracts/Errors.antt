-- ===== src/Contracts/Errors.antt =====
-- contracts/errors.py, adapters/errors.py and db/errors.py: what an operation raises, without the
-- texts that are meant for a reader.
use quant_execution_engine.Prelude.{Bool, true, false}

-- Which cap refused the order: the `cap` field of `RiskRejected`.
pub data Cap : Type 0 where
  max_order_qty account_max_qty max_order_value account_max_notional rate_limit : Cap
  risk_backend_down : Cap

pub data Error : Type 0 where
  public_mode read_key_forbidden venue_orders_unavailable : Error
  kill_switch_engaged kill_switch_env_pinned kill_switch_not_engaged : Error
  stage_rejected real_routing_not_authorized capability_unsupported : Error
  risk_rejected : Cap → Error
  price_band_exceeded duplicate_burst_detected order_not_found illegal_transition : Error
  store_constraint_violated submit_in_flight amend_rejected broker_circuit_open : Error
  -- `AdapterError`, `CacheError`, `ConfigError`, `DuplicateOrderSignal`, `AssertionError`, a database error and pydantic's
  -- `ValidationError`: these are no `OrderRejectedError`.
  adapter_failed cache_failed config_refused duplicate_order validation_failed : Error
  database_failed assertion_failed : Error
  -- The fuel of a loop of the model has run out.
  out_of_fuel : Error

pub data Result {ℓ} (A : Type ℓ) : Type ℓ where
  ok : A → Result A
  err : Error → Result A

-- What a check returns that raises or does nothing.
abbrev pub Done : Type 0
Done = Unit

infixl 5 ◌>>=◌ ◌>>◌
abbrev pub ◌>>=◌ {ℓ κ} : {A : Type ℓ} {B : Type κ} → Result A → (A → Result B) → Result B
ok a >>= f = f a
err e >>= f = err e

abbrev pub ◌>>◌ {ℓ} : {B : Type ℓ} → Result Done → Result B → Result B
m >> k = m >>= λ _. k

-- `if test: raise e`
abbrev pub raise_if : Bool → Error → Result Done
raise_if true e = err e
raise_if false e = ok tt
