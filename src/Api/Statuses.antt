-- ===== src/Api/Statuses.antt =====
-- api/error_handlers.py: the status of the answer to a refused request, for the errors of
-- Contracts.Errors.
use quant_execution_engine.Prelude.{
  ℕ, ◌≡◌, ◌≤◌, Bool, true, false, Option, none, some, arith, if◌then◌else◌,
}
use quant_execution_engine.Contracts.Errors.{
  Cap, rate_limit, Error, public_mode, read_key_forbidden, venue_orders_unavailable,
  kill_switch_engaged, kill_switch_env_pinned, kill_switch_not_engaged, stage_rejected,
  real_routing_not_authorized, capability_unsupported, risk_rejected, price_band_exceeded,
  duplicate_burst_detected, order_not_found, illegal_transition, store_constraint_violated,
  submit_in_flight, amend_rejected, broker_circuit_open,
}

-- `_THROTTLE_CAPS`
abbrev is_throttle : Cap → Bool
is_throttle rate_limit = true
is_throttle _ = false

-- `_status_for`; none for an error that is no `OrderRejectedError`, which has no handler.
unfoldable pub status_for : Error → Option ℕ
status_for public_mode = some 403
status_for read_key_forbidden = some 403
status_for venue_orders_unavailable = some 501
status_for kill_switch_engaged = some 503
status_for kill_switch_env_pinned = some 409
status_for kill_switch_not_engaged = some 409
status_for stage_rejected = some 403
status_for real_routing_not_authorized = some 409
status_for capability_unsupported = some 422
status_for (risk_rejected cap) = some (if is_throttle cap then 429 else 422)
status_for price_band_exceeded = some 422
status_for duplicate_burst_detected = some 409
status_for order_not_found = some 404
status_for illegal_transition = some 409
status_for store_constraint_violated = some 422
status_for submit_in_flight = some 409
status_for amend_rejected = some 409
status_for broker_circuit_open = some 503
status_for _ = none

-- Only the cap on orders per second asks the client to slow down.
throttled_is_rate_limit : (e : Error) → status_for e ≡ some 429 → e ≡ risk_rejected rate_limit
unfolding status_for
throttled_is_rate_limit e h = ground (arith, h)

-- A refusal is answered with an error of the client or of the service.
refused_within : (e : Error) (code : ℕ) → status_for e ≡ some code → (400 ≤ code) × (code ≤ 503)
unfolding status_for
refused_within e code h = ground (arith, h)
