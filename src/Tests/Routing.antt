-- ===== src/Tests/Routing.antt =====
-- The router, its stage ladder, its kill switch and its caps, on concrete runs.
use quant_execution_engine.Prelude.{
  ◌≤◌, ◌≡◌, ◌≢◌, ◌↔◌, ◌⊎◌, refl, true, false, List, [], ◌∷◌, none, some, arith, same_text,
}
use quant_execution_engine.Prelude.Decimal.{Decimal, whole, ltb_dec, times}
use quant_execution_engine.Contracts.Enums.{
  Stage, Broker, OrderState, new, cancelled, HandleResolution,
}
use quant_execution_engine.Contracts.Errors.{ok, err, kill_switch_engaged, adapter_failed}
use quant_execution_engine.Core.HandleRecovery.{HandleResolver, Budget, recover_handle}
use quant_execution_engine.Core.HandleRecovery.Answers.{recover_handle_answers, IsTicking}
use quant_execution_engine.Core.HandleRecovery.Reads.{given_up_reads, Burst, unread_never_settled}
use quant_execution_engine.Core.Risk.{
  check, cap_for, basis, is_live, check_quantity, check_notional, notional_of, windowed_checks,
  incr_with_ttl, counted, count_burst, judge, throttle, fingerprint,
}
use quant_execution_engine.Core.Risk.Caps.{check_passed, IsCounted}
use quant_execution_engine.Core.RoutingAuthority.{assert_may_route_real}
use quant_execution_engine.Core.RoutingAuthority.Declared.{may_route_real_iff, IsDeclared}
use quant_execution_engine.Core.Stage.{
  Installed, sim_adapter, liberator_adapter, resolve_adapter, trade, is_real, real_adapter_for,
}
use quant_execution_engine.Core.Stage.Ladder.{trade_real_needs_micro_live}
use quant_execution_engine.Core.StateMachine.{is_legal, is_terminal}
use quant_execution_engine.Core.StateMachine.Graph.{is_legal_iff, live_can_end, ◌⟶◌, IsAccepted}
use quant_execution_engine.Core.World.{ask, get_kill_key, waited, pure, raise, ◌>>=◌}
use quant_execution_engine.Core.World.Quiet.{places}
use quant_execution_engine.Core.Router.Submit.{submit}
use quant_execution_engine.Core.Router.Amend.{Change, amend}
use quant_execution_engine.Core.Router.Halted.{pinned_refuses, keyed_refuses}
use quant_execution_engine.Core.Router.Operations.{
  Operation, submitting, cancelling, reconciling, reconciling_bridge, mass_cancelling, perform_all,
  places_once, places_no_stored, stored_orders_evolve,
}
use quant_execution_engine.Db.Models.{OrderRow}
use quant_execution_engine.Db.Repositories.{find_row, known}
use quant_execution_engine.Db.Repositories.Evolution.{Evolves}
use quant_execution_engine.Tests.Examples.{
  settings_at, env_with, node_at, router_at, router-IsSound, order, row_in, world_of, calendar,
  quiet_venue, quiet_bridge,
}

abbrev calls : List Operation
calls =
    submitting order none
    ∷ submitting order (some "momentum")
    ∷ cancelling "order-1"
    ∷ reconciling calendar quiet_venue
    ∷ reconciling_bridge quiet_bridge
    ∷ mass_cancelling
    ∷ []

places_once_example :
    places "order-1" (perform_all (router_at Stage.sim false false) calls (world_of [])).trace ≤ 1
places_once_example =
    places_once (router_at Stage.sim false false) (router-IsSound Stage.sim false false) "order-1"
      calls (world_of []) refl

held : known (find_row "order-1" (world_of (row_in new ∷ [])).db.orders) ≡ true
unfolding find_row same_text
held = refl

found : find_row "order-1" (world_of (row_in new ∷ [])).db.orders ≡ some (row_in new)
unfolding find_row same_text
found = refl

places_no_stored_example :
    places "order-1"
      (perform_all (router_at Stage.sim false false) calls (world_of (row_in new ∷ []))).trace
    ≡ 0
places_no_stored_example =
    places_no_stored (router_at Stage.sim false false) (router-IsSound Stage.sim false false)
      "order-1" calls (world_of (row_in new ∷ [])) refl held

stored_orders_evolve_example :
    (row' : OrderRow) × (find_row "order-1"
        (perform_all (router_at Stage.sim false false) calls (world_of (row_in new ∷ []))).db.orders
      ≡ some row')
    × Evolves (row_in new) row'
stored_orders_evolve_example =
    stored_orders_evolve (router_at Stage.sim false false) (router-IsSound Stage.sim false false)
      "order-1" calls (world_of (row_in new ∷ [])) (row_in new) refl found

abbrev change : Change
change = record { price = some (whole 36); quantity = none }

pinned_refuses_example :
    (submit (router_at Stage.live true false) order none (world_of [])
      ≡ (err kill_switch_engaged, world_of []))
    × (amend (router_at Stage.live true false) "order-1" none change (world_of [])
        ≡ (err kill_switch_engaged, world_of []))
pinned_refuses_example =
    pinned_refuses (router_at Stage.live true false) order none "order-1" none change (world_of [])
      refl

keyed_refuses_example :
    (submit (router_at Stage.live false true) order none (world_of [])
      ≡ (err kill_switch_engaged, waited (env_with true) get_kill_key (world_of [])))
    × (amend (router_at Stage.live false true) "order-1" none change (world_of [])
        ≡ (err kill_switch_engaged, waited (env_with true) get_kill_key (world_of [])))
keyed_refuses_example =
    keyed_refuses (router_at Stage.live false true) order none "order-1" none change (world_of [])
      refl refl refl

abbrev installed : Installed
installed = record { liberator = true; streaming_pro = false }

resolved : resolve_adapter Stage.micro_live Broker.liberator installed trade ≡ ok liberator_adapter
unfolding resolve_adapter
resolved = refl

not_sim : liberator_adapter ≢ sim_adapter
not_sim e = cc

trade_real_needs_micro_live_example :
    (Stage.micro_live ≡ Stage.micro_live)
    × (is_real Broker.liberator ≡ true)
    × (real_adapter_for Broker.liberator installed ≡ some liberator_adapter)
trade_real_needs_micro_live_example =
    trade_real_needs_micro_live Stage.micro_live Broker.liberator installed liberator_adapter
      resolved not_sim

may_route_real_iff_example :
    (assert_may_route_real
        (settings_at Stage.micro_live false)
        "acc"
        Broker.liberator
        liberator_adapter
      ≡ ok tt)
    ↔ IsDeclared "acc" (settings_at Stage.micro_live false).real_routing_accounts
may_route_real_iff_example =
    may_route_real_iff (settings_at Stage.micro_live false) "acc" Broker.liberator liberator_adapter
      refl not_sim

passed : (check (node_at Stage.micro_live false false) order (world_of [])).0 ≡ ok tt
unfolding check check_quantity check_notional notional_of windowed_checks incr_with_ttl counted
    count_burst judge throttle fingerprint cap_for ask ◌>>=◌ ltb_dec times same_text
passed = refl

check_passed_example :
    (100 ≤ cap_for "acc" (("acc", 500) ∷ []) 1000)
    × ((price : Decimal)
        → basis order ≡ some price
        → ltb_dec (cap_for "acc" [] (whole 1000000)) (times price 100) ≡ false)
    × (is_live Stage.micro_live ≡ true
        → IsCounted (node_at Stage.micro_live false false) order (world_of []))
check_passed_example =
    check_passed (node_at Stage.micro_live false false) order (world_of []) tt passed

is_legal_iff_example :
    (is_legal new cancelled ≡ true) ↔ ((OrderState.new ≡ OrderState.cancelled) ⊎ (new ⟶ cancelled))
is_legal_iff_example = is_legal_iff new cancelled

live_can_end_example :
    (is_terminal new ≡ false → (t : OrderState) × (is_terminal t ≡ true) × IsAccepted new t)
    × (is_terminal new ≡ true → (t : OrderState) → is_legal new t ≡ true → new ≡ t)
live_can_end_example = live_can_end new

abbrev budget : Budget
budget = record { cadence_ms = 500; deadline_ms = 2; min_polls = 3 }

abbrev never : HandleResolver
never cid = pure false

ticking : IsTicking (env_with false) never
ticking = record {
  forward = λ call t. omega arith;
  slept = λ t. omega arith;
  read_forward = λ cid w. omega arith;
}

recover_handle_answers_example :
    (h : HandleResolution) × ((recover_handle
        (env_with false)
        never
        budget
        "order-1"
        0
        (world_of [])).0
      ≡ ok h)
recover_handle_answers_example =
    recover_handle_answers (env_with false) never ticking budget "order-1" 0 (world_of [])

given_up_reads_example :
    let (r, w) = recover_handle (env_with false) never budget "order-1" 0 (world_of []) in
    (r ≡ ok HandleResolution.unknown → Burst (env_with false) never "order-1" false (world_of []) w)
    × (r ≡ ok HandleResolution.pending
        → Burst (env_with false) never "order-1" true (world_of []) w)
given_up_reads_example = given_up_reads (env_with false) never budget "order-1" 0 (world_of [])

abbrev failing : HandleResolver
failing cid = raise adapter_failed

unread_never_settled_example :
    ((recover_handle (env_with false) failing budget "order-1" 0 (world_of [])).0
      ≢ ok HandleResolution.confirmed)
    × ((recover_handle (env_with false) failing budget "order-1" 0 (world_of [])).0
        ≢ ok HandleResolution.pending)
unread_never_settled_example =
    unread_never_settled (env_with false) failing budget "order-1" 0 (world_of []) (λ w. refl)
