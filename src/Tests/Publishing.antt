-- ===== src/Tests/Publishing.antt =====
-- The event hub, its subscribers and the circuit breaker, on concrete runs.
use quant_execution_engine.Prelude.{
  ◌+◌, ◌-◌, ◌≤◌, ◌<◌, ◌≡◌, ◌↔◌, true, false, [], ◌∷◌, none, length, arith, if◌then◌else◌,
}
use quant_execution_engine.Contracts.Enums.{OrderState}
use quant_execution_engine.Contracts.Errors.{ok, err, broker_circuit_open}
use quant_execution_engine.Events.Models.{OrderUpdateEvent}
use quant_execution_engine.Events.Hub.{EventHub, Update, new_hub, publish, replay, stamp}
use quant_execution_engine.Events.Hub.Ring.{
  new_hub-IsValid, publish-IsValid, replay_complete, Consecutive, IsValid,
}
use quant_execution_engine.Events.Subscription.{Subscription, subscription, offer, take_dropped}
use quant_execution_engine.Events.Subscription.Bounds.{
  offer-IsValid, offer_accounts, unread_gap_undercounts, offer_all, outstanding, events,
  IsValid as IsValidQueue,
}
use quant_execution_engine.Adapters.Session.{new_breaker, guard}
use quant_execution_engine.Adapters.Session.Trips.{
  success, failure, run_beats, trailing, guard_refuses_iff,
}

abbrev update : Update
update = record {
  client_order_id = "order-1";
  engine_state = OrderState.new;
  strategy_id = none;
  broker_order_id = none;
  price = none;
  quantity = none;
  fill = none;
}

-- Three events on a ring of two.
abbrev hub : EventHub
hub = publish 3 update (publish 2 update (publish 1 update (new_hub 2 1)))

publish-IsValid_example : IsValid (publish 1 update (new_hub 2 1))
publish-IsValid_example = publish-IsValid 1 update (new_hub 2 1) (new_hub-IsValid 2 1)

valid : IsValid hub
valid = publish-IsValid 3 update (publish 2 update (publish 1 update (new_hub 2 1))) (
    publish-IsValid 2 update (publish 1 update (new_hub 2 1))
      (publish-IsValid 1 update (new_hub 2 1) (new_hub-IsValid 2 1)))

sized : 0 < hub.ring_buffer_size
unfolding publish new_hub
sized = omega arith

behind : 2 < hub.next_seq
unfolding publish new_hub
behind = omega arith

replay_complete_example :
    ((replay 2 hub).1 ≡ false
      → Consecutive 3 (replay 2 hub).0 × (2 + 1 + length (replay 2 hub).0 ≡ hub.next_seq))
    × (((replay 2 hub).1 ≡ true) ↔ (2 + 1 < hub.next_seq - length hub.ring))
replay_complete_example = replay_complete 2 hub valid sized (omega arith) behind

abbrev event : OrderUpdateEvent
event = stamp 1 update (new_hub 2 1)

-- Two events on a queue of one that nobody reads.
abbrev full : Subscription
full = offer_all (event ∷ event ∷ []) (subscription 1)

full-IsValid : IsValidQueue full
full-IsValid = (unread_gap_undercounts 1 (event ∷ event ∷ [])).0

offer-IsValid_example : IsValidQueue (offer event full)
offer-IsValid_example = offer-IsValid event full full-IsValid

offer_accounts_example : outstanding (offer event full) ≡ outstanding full + 1
offer_accounts_example = offer_accounts event full full-IsValid

unread_gap_undercounts_example :
    IsValidQueue full
    × (events full.queue + (take_dropped full).0 + (if full.gap_pending then 1 else 0) ≡ 2)
unread_gap_undercounts_example = unread_gap_undercounts 1 (event ∷ event ∷ [])

guard_refuses_iff_example :
    ((guard (run_beats (success ∷ failure ∷ failure ∷ []) (new_breaker 2))
        ≡ err broker_circuit_open)
      ↔ (2 ≤ trailing 0 (success ∷ failure ∷ failure ∷ [])))
    × ((guard (run_beats (success ∷ failure ∷ failure ∷ []) (new_breaker 2)) ≡ ok tt)
        ↔ (trailing 0 (success ∷ failure ∷ failure ∷ []) < 2))
guard_refuses_iff_example = guard_refuses_iff 2 (success ∷ failure ∷ failure ∷ []) (omega arith)
