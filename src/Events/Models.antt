-- ===== src/Events/Models.antt =====
-- events/models.py: the order-update event and the status that it shows.
use quant_execution_engine.Prelude.{ℕ, String, Option}
use quant_execution_engine.Prelude.Decimal.{Decimal}
use quant_execution_engine.Contracts.Enums.{OrderState, PublicOrderStatus, to_public_status}

-- The key of a fill within its order. The source writes texts: `SIMF-{prefix}-{i}` for the sim, and
-- `{order_no}:{matched}` from the reconcilers; the two never coincide, and each determines its parts.
pub data FillId : Type 0 where
  sim_fill : String → ℕ → FillId
  venue_fill : String → ℕ → FillId

pub record FillEvent : Type 0 where
  pub broker_fill_id : FillId
  pub price : Decimal
  pub quantity : ℕ
  pub exec_ts : ℕ

pub record OrderUpdateEvent : Type 0 where
  pub seq : ℕ
  pub client_order_id : String
  pub strategy_id : Option String
  pub engine_state : OrderState
  pub status : PublicOrderStatus
  pub broker_order_id : Option String
  pub price : Option Decimal
  pub quantity : Option ℕ
  pub fill : Option FillEvent
  pub ts : ℕ

unfoldable pub derive_status : OrderState → PublicOrderStatus
unfolding to_public_status
derive_status engine_state = to_public_status engine_state 0
