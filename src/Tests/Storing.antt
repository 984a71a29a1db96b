-- ===== src/Tests/Storing.antt =====
-- The store's fills, and the sim adapter, on concrete runs.
use quant_execution_engine.Prelude.{
  ◌+◌, ◌≤◌, ◌≡◌, ◌↔◌, ◌⊎◌, refl, true, false, [], ◌∷◌, none, some, String, same_text, arith,
  if◌then◌else◌,
}
use quant_execution_engine.Prelude.Decimal.{whole}
use quant_execution_engine.Contracts.Enums.{OrderState, partially_filled}
use quant_execution_engine.Contracts.Errors.{ok}
use quant_execution_engine.Core.StateMachine.{is_legal}
use quant_execution_engine.Db.Models.{FillRow, Db}
use quant_execution_engine.Db.Repositories.{
  find_row, sum_fills, insert_fill, has_fill, fill_target, flip_allowed, apply_fill, publish,
}
use quant_execution_engine.Db.Repositories.Fills.{apply_fill_accounts}
use quant_execution_engine.Events.Models.{sim_fill, venue_fill}
use quant_execution_engine.Adapters.Base.{PlaceAck}
use quant_execution_engine.Adapters.Sim.{place, fill_plan, reference_price}
use quant_execution_engine.Adapters.Sim.Plan.{place-Accounts, Accounts, executed}
use quant_execution_engine.Tests.Examples.{schema, row_in, order}

abbrev store : OrderState → Db
store state = record { orders = row_in state ∷ []; fills = []; hub = none }

abbrev half : FillRow
half = record {
  client_order_id = "order-1";
  broker_fill_id = venue_fill "7" 60;
  price = whole 35;
  quantity = 60;
  exec_ts = 5;
}

applied : (apply_fill schema 9 half 100 (store OrderState.new)).0 ≡ ok partially_filled
unfolding apply_fill insert_fill has_fill sum_fills fill_target flip_allowed find_row publish
    is_legal same_text
applied = refl

apply_fill_accounts_example :
    let db' = (apply_fill schema 9 half 100 (store OrderState.new)).1 in
    ((cid : String)
      → sum_fills cid db'.fills
        ≡ sum_fills cid []
          + (if has_fill half [] then 0 else if same_text cid "order-1" then 60 else 0))
    × ((OrderState.partially_filled ≡ OrderState.filled) ↔ (100 ≤ sum_fills "order-1" db'.fills))
    × ((OrderState.partially_filled ≡ OrderState.filled)
        ⊎ (OrderState.partially_filled ≡ OrderState.partially_filled))
    × (find_row "order-1" db'.orders ≡ some (row_in OrderState.partially_filled))
unfolding find_row same_text
apply_fill_accounts_example = apply_fill_accounts schema 9 half 100 (store OrderState.new) applied

-- The fill is stored, and an amend has put the order back to `new`.
abbrev amended : Db
amended = record (store OrderState.new) { fills = half ∷ [] }

-- The ack of the order, filled at its limit.
abbrev ack : PlaceAck
ack = record {
  rejected = false;
  reject_reason = none;
  broker_order_id = some "SIM-order-1";
  fills =
      record {
        broker_fill_id = sim_fill "order-1" 1;
        price = whole 35;
        quantity = 100;
        exec_ts = 5;
      }
      ∷ [];
  remainder_cancelled = false;
}

answered : place (whole 100) none 5 order ≡ ok ack
unfolding place fill_plan reference_price
answered = refl

place-Accounts_example :
    ((false ≡ true) × (executed ack.fills ≡ 0)) ⊎ ((false ≡ false) × Accounts order ack)
place-Accounts_example = place-Accounts (whole 100) none 5 order ack (omega arith) answered
