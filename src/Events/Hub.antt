-- ===== src/Events/Hub.antt =====
-- events/hub.py, `EventHub`: the ring of recent updates, the attribution map and the fan-out.
pub mod Ring
use quant_execution_engine.Prelude.{
  ℕ, suc, ◌+◌, ◌-◌, Bool, true, false, ◌&&◌, List, [], ◌∷◌, ◌++◌, map, Option, none, some, String,
  length, drop, keep, ltb, leb, same_text, not, if◌then◌else◌,
}
use quant_execution_engine.Prelude.Decimal.{Decimal}
use quant_execution_engine.Contracts.Enums.{OrderState}
use quant_execution_engine.Events.Models.{FillEvent, OrderUpdateEvent, derive_status}
use quant_execution_engine.Events.Subscription.{Subscription, subscription, offer}

pub record EventHub : Type 0 where
  pub ring : List OrderUpdateEvent  -- oldest first
  pub ring_buffer_size : ℕ
  pub subscriber_queue_size : ℕ
  pub next_seq : ℕ
  pub subscriptions : List Subscription
  pub strategy_by_cid : List (String × String)  -- least recently used first

-- The keyword arguments of `publish`, without the fields that it stamps.
pub record Update : Type 0 where
  pub client_order_id : String
  pub engine_state : OrderState
  pub strategy_id : Option String
  pub broker_order_id : Option String
  pub price : Option Decimal
  pub quantity : Option ℕ
  pub fill : Option FillEvent

abbrev pub strategy_map_cap : ℕ
strategy_map_cap = 4096

unfoldable pub new_hub : ℕ → ℕ → EventHub
new_hub ring queue = record {
  ring = [];
  ring_buffer_size = ring;
  subscriber_queue_size = queue;
  next_seq = 1;
  subscriptions = [];
  strategy_by_cid = [];
}

without : String → List (String × String) → List (String × String)
without cid [] = []
without cid ((k, v) ∷ m) = if same_text k cid then without cid m else (k, v) ∷ without cid m

-- `while len(m) > cap: m.popitem(last=False)`
evict : ℕ → List (String × String) → List (String × String)
evict cap [] = []
evict cap (x ∷ m) = if ltb cap (suc (length m)) then evict cap m else x ∷ m

unfoldable pub register_strategy : String → String → EventHub → EventHub
unfolding without evict
register_strategy cid strategy hub = record hub {
  strategy_by_cid =
      evict strategy_map_cap (without cid hub.strategy_by_cid ++ ((cid, strategy) ∷ []));
}

strategy_of : String → List (String × String) → Option String
strategy_of cid [] = none
strategy_of cid ((k, v) ∷ m) = if same_text k cid then some v else strategy_of cid m

unfoldable pub resolve_strategy : String → Option String → EventHub → Option String
unfolding strategy_of
resolve_strategy cid (some strategy) hub = some strategy
resolve_strategy cid none hub = strategy_of cid hub.strategy_by_cid

-- `deque(maxlen=size).append(x)`
unfoldable pub ring_append : ℕ → List OrderUpdateEvent → OrderUpdateEvent → List OrderUpdateEvent
ring_append size ring e = let longer = ring ++ (e ∷ []) in drop (length longer - size) longer

-- The event that `publish` stamps at the time `now`.
unfoldable pub stamp : ℕ → Update → EventHub → OrderUpdateEvent
stamp now u hub = record {
  seq = hub.next_seq;
  client_order_id = u.client_order_id;
  strategy_id = resolve_strategy u.client_order_id u.strategy_id hub;
  engine_state = u.engine_state;
  status = derive_status u.engine_state;
  broker_order_id = u.broker_order_id;
  price = u.price;
  quantity = u.quantity;
  fill = u.fill;
  ts = now;
}

-- Nothing in the body of `publish` raises on these values, so its broad `except` is not reached.
unfoldable pub publish : ℕ → Update → EventHub → EventHub
unfolding stamp
publish now u hub =
    let e = stamp now u hub in
    record hub {
      next_seq = suc hub.next_seq;
      ring = ring_append hub.ring_buffer_size hub.ring e;
      subscriptions = map (offer e) hub.subscriptions;
    }

abbrev first_seq : List OrderUpdateEvent → Option ℕ
first_seq [] = none
first_seq (e ∷ _) = some e.seq

-- `oldest is not None and after_seq < oldest - 1`, on integers
abbrev fell_off : Option ℕ → ℕ → Bool
fell_off none after_seq = false
fell_off (some oldest) after_seq = ltb (after_seq + 1) oldest

unfoldable pub replay : ℕ → EventHub → List OrderUpdateEvent × Bool
replay after_seq hub =
    if leb after_seq 0
    then ([], false)
    else (keep (λ e. ltb after_seq e.seq) hub.ring, fell_off (first_seq hub.ring) after_seq)

-- Entering `subscribe`.
unfoldable pub subscribe : EventHub → EventHub
subscribe hub = record hub {
  subscriptions = hub.subscriptions ++ (subscription hub.subscriber_queue_size ∷ []);
}
