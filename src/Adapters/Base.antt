-- ===== src/Adapters/Base.antt =====
-- adapters/base.py: what an adapter answers.
use quant_execution_engine.Prelude.{ℕ, Bool, List, Option, String}
use quant_execution_engine.Prelude.Decimal.{Decimal}
use quant_execution_engine.Events.Models.{FillId}

pub record FillReport : Type 0 where
  pub broker_fill_id : FillId
  pub price : Decimal
  pub quantity : ℕ
  pub exec_ts : ℕ

pub record PlaceAck : Type 0 where
  pub rejected : Bool
  pub reject_reason : Option String
  pub broker_order_id : Option String
  pub fills : List FillReport
  pub remainder_cancelled : Bool
