-- ===== src/Tests/Examples.antt =====
-- A process with its services, and the orders of the tests.
use quant_execution_engine.Prelude.{
  ℕ, ◌+◌, ◌/◌, Bool, true, false, List, [], ◌∷◌, none, some, ◌≡◌, refl,
}
use quant_execution_engine.Prelude.Decimal.{whole}
use quant_execution_engine.Config.{Settings}
use quant_execution_engine.Contracts.Enums.{Stage, Broker, Market, Side, OrderType, Tif, OrderState}
use quant_execution_engine.Contracts.Errors.{ok, err, adapter_failed}
use quant_execution_engine.Contracts.Orders.{NormalizedOrder, absent}
use quant_execution_engine.Core.StateMachine.{is_legal}
use quant_execution_engine.Core.World.{Call, Env, Node, World}
use quant_execution_engine.Core.Router.Parts.{Router}
use quant_execution_engine.Core.Router.Settle.Calls.{IsSound}
use quant_execution_engine.Adapters.Session.{new_breaker}
use quant_execution_engine.Adapters.Liberator.Planning.{Calendar}
use quant_execution_engine.Adapters.Liberator.Loop.{Venue, resolve_order_now}
use quant_execution_engine.Adapters.StreamingPro.Loop.{Bridge}
use quant_execution_engine.Adapters.Liberator.Loop.Calls.{resolve_order_now-Safe}
use quant_execution_engine.Db.Models.{OrderRow}
use quant_execution_engine.Db.Repositories.{Schema}
use quant_execution_engine.Db.Repositories.Evolution.{Preserves-refl}

abbrev pub settings_at : Stage → Bool → Settings
settings_at stage engaged = record {
  stage = stage;
  kill_switch_engaged = engaged;
  risk_max_order_qty = 1000;
  risk_max_order_value = whole 1000000;
  risk_max_orders_per_second = 5;
  account_max_notional = [];
  account_max_qty = ("acc", 500) ∷ [];
  real_routing_accounts = " acc " ∷ [];
  price_band_enabled = true;
  price_band_max_pct = whole 10;
  duplicate_burst_guard_enabled = true;
  duplicate_burst_window_seconds = 5;
  submit_lock_ttl_seconds = 30;
  submit_lock_wait_ms = 2000;
  sim_default_fill_price = whole 100;
  liberator_api_key = true;
  streaming_pro_api_key = false;
  handle_recovery_cadence_ms = 500;
  handle_recovery_min_polls = 3;
  handle_recovery_deadline_ms = 5000;
}

-- The number of calls so far, as milliseconds.
abbrev pub tick : List Call → ℕ
tick [] = 0
tick (_ ∷ t) = tick t + 1

abbrev pub env_with : Bool → Env
env_with killed = record {
  redis_configured = true;
  kill_key = λ t. some killed;
  write_kill_key = λ t. true;
  count = λ c t. some 1;
  set_ttl = λ c t. true;
  take_lock = λ cid t. some true;
  market_data_configured = false;
  last_close = λ s m t. none;
  quote = λ o t. none;
  place = λ a o t. err adapter_failed;
  cancel = λ a cid t. ok true;
  amend = λ a cid p q t. ok true;
  clock = tick;
  digest = λ f. 0;
  others = λ t db. db;
}

abbrev pub schema : Schema
schema = record { trigger = is_legal; order_check = λ row. true; fill_check = λ rows f. true }

abbrev pub node_at : Stage → Bool → Bool → Node
node_at stage engaged killed = record {
  settings = settings_at stage engaged;
  installed = record { liberator = true; streaming_pro = false };
  schema = schema;
  env = env_with killed;
}

abbrev pub calendar : Calendar
calendar = record { average = λ amount n. amount; venue_day = λ t. t / 86400000 }

abbrev pub quiet_venue : Venue
quiet_venue account t = ok []

abbrev pub quiet_bridge : Bridge
quiet_bridge account market t = ok []

abbrev pub router_at : Stage → Bool → Bool → Router
router_at stage engaged killed = record {
  node = node_at stage engaged killed;
  deviation_pct = λ p q. whole 0;
  is_uuid4 = λ s. true;
  handle_resolver = some (resolve_order_now calendar (node_at stage engaged killed) quiet_venue);
}

pub router-IsSound :
    (stage : Stage) (engaged killed : Bool) → IsSound (router_at stage engaged killed)
router-IsSound stage engaged killed =
    let node = node_at stage engaged killed in
    record {
      fair = λ t db. Preserves-refl db.orders;
      frozen = λ a b. refl;
      resolver_reads = λ resolve e watch order.
          let same : resolve_order_now calendar node quiet_venue ≡ resolve = cc in
          rw (← same) (
            resolve_order_now-Safe calendar node quiet_venue (λ t db. Preserves-refl db.orders)
              (λ a b. refl) watch order);
    }

abbrev pub order : NormalizedOrder
order = record {
  client_order_id = "order-1";
  broker = Broker.sim;
  account = "acc";
  market = Market.set;
  symbol = "PTT";
  side = Side.buy;
  order_type = OrderType.limit;
  price = some (whole 35);
  stop_price = none;
  quantity = 100;
  display_qty = none;
  tif = Tif.day;
  position_effect = none;
  sim_reject = none;
  sim_fills = absent;
}

abbrev pub row_in : OrderState → OrderRow
row_in state = record {
  client_order_id = "order-1";
  broker = Broker.liberator;
  broker_order_id = none;
  account = "acc";
  symbol = "PTT";
  market = Market.set;
  side = Side.buy;
  order_type = OrderType.limit;
  price = some (whole 35);
  stop_price = none;
  quantity = 100;
  display_qty = none;
  tif = Tif.day;
  position_effect = none;
  status = state;
  reject_reason = none;
  strategy_id = none;
  created_at = 1000;
}

abbrev pub world_of : List OrderRow → World
world_of rows = record {
  db = record { orders = rows; fills = []; hub = none };
  trace = [];
  breaker = λ a. new_breaker 3;
}
