-- ===== src/Core/Router/Operations.antt =====
-- core/router.py and adapters/*/reconciler.py: any sequence of the operations that change
-- the store.
use quant_execution_engine.Prelude.{◌≤◌, ◌≡◌, true, List, [], ◌∷◌, Option, some, String, arith}
use quant_execution_engine.Contracts.Orders.{NormalizedOrder}
use quant_execution_engine.Core.World.{World}
use quant_execution_engine.Core.World.Quiet.{Watched, IsOnce, places}
use quant_execution_engine.Core.Router.Parts.{Router}
use quant_execution_engine.Core.Router.Settle.Calls.{IsSound}
use quant_execution_engine.Core.Router.Submit.{submit}
use quant_execution_engine.Core.Router.Submit.Once.{submit-Safe}
use quant_execution_engine.Core.Router.Cancel.{cancel, mass_cancel}
use quant_execution_engine.Core.Router.Cancel.Calls.{cancel-Safe, mass_cancel-Safe}
use quant_execution_engine.Core.Router.Amend.{Change, amend}
use quant_execution_engine.Core.Router.Amend.Calls.{amend-Safe}
use quant_execution_engine.Adapters.Liberator.Loop.{Venue, reconcile_once}
use quant_execution_engine.Adapters.Liberator.Loop.Calls.{reconcile_once-Safe}
use quant_execution_engine.Adapters.Liberator.Planning.{Calendar}
use quant_execution_engine.Adapters.StreamingPro.Loop.{Bridge, reconcile_once as bridge_pass}
use quant_execution_engine.Adapters.StreamingPro.Loop.Calls.{
  reconcile_once-Safe as bridge_pass-Safe,
}
use quant_execution_engine.Db.Models.{OrderRow}
use quant_execution_engine.Db.Repositories.{find_row, known}
use quant_execution_engine.Db.Repositories.Evolution.{Evolves, Preserves-refl}

-- A call of the router, with its arguments, or a pass of either reconciler.
pub data Operation : Type 0 where
  submitting : NormalizedOrder → Option String → Operation
  cancelling : String → Operation
  amending : String → Option String → Change → Operation
  mass_cancelling : Operation
  reconciling : Calendar → Venue → Operation
  reconciling_bridge : Bridge → Operation

-- The world after a call, whether it returns or raises.
abbrev perform : Router → Operation → World → World
perform r (submitting o strategy) w = (submit r o strategy w).1
perform r (cancelling cid) w = (cancel r.node cid w).1
perform r (amending order cid c) w = (amend r order cid c w).1
perform r mass_cancelling w = (mass_cancel r.node w).1
perform r (reconciling cal venue) w = (reconcile_once cal r.node venue w).1
perform r (reconciling_bridge bridge) w = (bridge_pass r.node bridge w).1

abbrev pub perform_all : Router → List Operation → World → World
perform_all r [] w = w
perform_all r (call ∷ rest) w = perform_all r rest (perform r call w)

module _ (r : Router) (sound : IsSound r) where
  perform-IsOnce :
      (watch : Watched) (call : Operation) (w : World)
      → IsOnce watch w
      → IsOnce watch (perform r call w)
  perform-IsOnce watch (submitting o strategy) w v = submit-Safe r sound watch o strategy w v
  perform-IsOnce watch (cancelling cid) w v = cancel-Safe r sound watch cid w v
  perform-IsOnce watch (amending order cid c) w v = amend-Safe r sound watch order cid c w v
  perform-IsOnce watch mass_cancelling w v = mass_cancel-Safe r sound watch w v
  perform-IsOnce watch (reconciling cal venue) w v =
      reconcile_once-Safe cal r.node venue sound.fair sound.frozen watch w v
  perform-IsOnce watch (reconciling_bridge bridge) w v =
      bridge_pass-Safe r.node bridge sound.fair watch sound.frozen w v

  all-IsOnce :
      (watch : Watched) (calls : List Operation) (w : World)
      → IsOnce watch w
      → IsOnce watch (perform_all r calls w)
  all-IsOnce watch [] w v = v
  all-IsOnce watch (call ∷ rest) w v =
      all-IsOnce watch rest (perform r call w) (perform-IsOnce watch call w v)

-- From an empty log and any store, among tasks that keep the stored orders, with the frozen
-- trigger, a resolver that keeps them too and places nothing, and any answers of the services, a
-- sequence of submits, cancels, amends, mass cancels and passes of both reconcilers calls an adapter's
-- `place` for one client order id at most once altogether.
pub places_once :
    (r : Router)
    → IsSound r
    → (order : String) (calls : List Operation) (w : World) → w.trace ≡ []
    → places order (perform_all r calls w).trace ≤ 1
places_once r sound order calls w e =
    let watch : Watched = record { order = order; before = 0; since = w.db.orders } in
    let start : IsOnce watch w = record {
      placed = ground (arith, e);
      kept = ground (arith, e);
      moved = Preserves-refl w.db.orders;
    } in
    let v = all-IsOnce r sound watch calls w start in ground (arith, v.placed, v.kept)

-- From an empty log, among tasks that keep the stored orders, with the frozen trigger, a resolver
-- that keeps them too and places nothing, and any answers of the services, a sequence of submits,
-- cancels, amends, mass cancels and passes of both reconcilers never calls an adapter's `place` for a client
-- order id that the store held at the start.
pub places_no_stored :
    (r : Router)
    → IsSound r
    → (order : String) (calls : List Operation) (w : World) → w.trace ≡ []
    → known (find_row order w.db.orders) ≡ true
    → places order (perform_all r calls w).trace ≡ 0
places_no_stored r sound order calls w e held =
    let watch : Watched = record { order = order; before = 1; since = w.db.orders } in
    let start : IsOnce watch w = record {
      placed = ground (arith, e);
      kept = ground (arith, e, held);
      moved = Preserves-refl w.db.orders;
    } in
    let v = all-IsOnce r sound watch calls w start in ground (arith, v.placed, v.kept)

-- From an empty log, among tasks that keep the stored orders, with the frozen trigger, a resolver
-- that keeps them too and places nothing, and any answers of the services, a sequence of submits,
-- cancels, amends, mass cancels and passes of both reconcilers keeps each stored order, under its id,
-- broker, account, symbol, side and creation time, and moves its status along the frozen edges
-- only.
pub stored_orders_evolve :
    (r : Router)
    → IsSound r
    → (order : String) (calls : List Operation) (w : World) (row : OrderRow) → w.trace ≡ []
    → find_row order w.db.orders ≡ some row
    → (row' : OrderRow) × (find_row order (perform_all r calls w).db.orders ≡ some row')
      × Evolves row row'
stored_orders_evolve r sound order calls w row e h =
    let watch : Watched = record { order = order; before = 0; since = w.db.orders } in
    let start : IsOnce watch w = record {
      placed = ground (arith, e);
      kept = ground (arith, e);
      moved = Preserves-refl w.db.orders;
    } in
    (all-IsOnce r sound watch calls w start).moved order row h
