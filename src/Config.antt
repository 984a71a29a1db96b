-- ===== src/Config.antt =====
-- config/settings.py: the settings that the modelled parts read. The environment is read into them
-- by pydantic, outside this library.
use quant_execution_engine.Prelude.{ℕ, Bool, List, String}
use quant_execution_engine.Prelude.Decimal.{Decimal}
use quant_execution_engine.Contracts.Enums.{Stage}

pub record Settings : Type 0 where
  pub stage : Stage
  pub kill_switch_engaged : Bool
  pub risk_max_order_qty : ℕ
  pub risk_max_order_value : Decimal
  pub risk_max_orders_per_second : ℕ
  pub account_max_notional : List (String × Decimal)
  pub account_max_qty : List (String × ℕ)
  pub real_routing_accounts : List String
  pub price_band_enabled : Bool
  pub price_band_max_pct : Decimal
  pub duplicate_burst_guard_enabled : Bool
  pub duplicate_burst_window_seconds : ℕ
  pub submit_lock_ttl_seconds : ℕ
  pub submit_lock_wait_ms : ℕ
  pub sim_default_fill_price : Decimal
  pub liberator_api_key : Bool  -- `is not None`
  pub streaming_pro_api_key : Bool  -- `is not None`
  pub handle_recovery_cadence_ms : ℕ
  pub handle_recovery_min_polls : ℕ
  pub handle_recovery_deadline_ms : ℕ
