-- ===== src/Db/Models.antt =====
-- db/models.py: the rows of `execution.orders` and `execution.fills`.
use quant_execution_engine.Prelude.{ℕ, List, Option, String}
use quant_execution_engine.Prelude.Decimal.{Decimal}
use quant_execution_engine.Contracts.Enums.{
  Broker, Market, Side, OrderType, Tif, PositionEffect, OrderState,
}
use quant_execution_engine.Events.Models.{FillId}
use quant_execution_engine.Events.Hub.{EventHub}

pub record OrderRow : Type 0 where
  pub client_order_id : String
  pub broker : Broker
  pub broker_order_id : Option String
  pub account : String
  pub symbol : String
  pub market : Market
  pub side : Side
  pub order_type : OrderType
  pub price : Option Decimal
  pub stop_price : Option Decimal
  pub quantity : ℕ
  pub display_qty : Option ℕ
  pub tif : Tif
  pub position_effect : Option PositionEffect
  pub status : OrderState
  pub reject_reason : Option String
  pub strategy_id : Option String
  pub created_at : ℕ  -- milliseconds

pub record FillRow : Type 0 where
  pub client_order_id : String
  pub broker_fill_id : FillId
  pub price : Decimal
  pub quantity : ℕ
  pub exec_ts : ℕ

-- `OrderResultRow`: an order with the sum of its fills.
pub record OrderResultRow : Type 0 where
  pub row : OrderRow
  pub filled_qty : ℕ

-- The two tables and the hub that the repository functions publish to, which is `None` before the
-- application has started.
pub record Db : Type 0 where
  pub orders : List OrderRow  -- by `created_at`
  pub fills : List FillRow
  pub hub : Option EventHub
