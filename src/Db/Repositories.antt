-- ===== src/Db/Repositories.antt =====
-- db/repositories.py: the statements on the two tables, and the updates that they publish.
pub mod Reads
pub mod Evolution
pub mod Writes
pub mod Fills
use quant_execution_engine.Prelude.{
  ℕ, ◌+◌, Bool, true, false, ◌&&◌, ◌||◌, not, List, [], ◌∷◌, ◌++◌, Option, none, some, String, any,
  find, keep, leb, same_text, if◌then◌else◌, ◌==◌,
}
use quant_execution_engine.Prelude.Decimal.{Decimal}
use quant_execution_engine.Contracts.Enums.{
  Broker, OrderState, pending_new, new, partially_filled, filled, pending_cancel, pending_replace,
  same_state, same_broker,
}
use quant_execution_engine.Contracts.Errors.{
  Result, Done, ok, err, illegal_transition, store_constraint_violated, duplicate_order,
  database_failed, ◌>>=◌,
}
use quant_execution_engine.Contracts.Orders.{NormalizedOrder}
use quant_execution_engine.Core.StateMachine.{is_legal}
use quant_execution_engine.Events.Models.{FillId, sim_fill, venue_fill, FillEvent}
use quant_execution_engine.Events.Hub.{EventHub, Update, publish as hub_publish, register_strategy}
use quant_execution_engine.Db.Models.{OrderRow, FillRow, OrderResultRow, Db}

-- What the schema adds, which another repository holds: the trigger on a change of status, the
-- column checks on a new order, and the checks and the foreign key on a new fill.
pub record Schema : Type 0 where
  pub trigger : OrderState → OrderState → Bool
  pub order_check : OrderRow → Bool
  pub fill_check : List OrderRow → FillRow → Bool

-- A call: the result, and the tables after it. What was written before a raise stays written.
abbrev pub Call : Type 0 → Type 0
Call A = Result A × Db

-- `hub = get_event_hub(); if hub is not None: hub.publish(...)`
abbrev publish_to : ℕ → Update → Option EventHub → Option EventHub
publish_to now u none = none
publish_to now u (some hub) = some (hub_publish now u hub)

unfoldable pub publish : ℕ → Update → Db → Db
publish now u db = record db { hub = publish_to now u db.hub }

abbrev attribute_to : String → Option String → Option EventHub → Option EventHub
attribute_to cid none hub = hub
attribute_to cid (some strategy) none = none
attribute_to cid (some strategy) (some hub) = some (register_strategy cid strategy hub)

abbrev pub status_update : String → OrderState → Update
status_update cid state = record {
  client_order_id = cid;
  engine_state = state;
  strategy_id = none;
  broker_order_id = none;
  price = none;
  quantity = none;
  fill = none;
}

abbrev pub has_id : String → OrderRow → Bool
has_id cid row = same_text cid row.client_order_id

-- `UPDATE execution.orders SET … WHERE client_order_id = $1`
unfoldable pub update_row : String → (OrderRow → OrderRow) → List OrderRow → List OrderRow
update_row cid f [] = []
update_row cid f (row ∷ rest) = if has_id cid row then f row ∷ rest else row ∷ update_row cid f rest

unfoldable pub find_row : String → List OrderRow → Option OrderRow
find_row cid [] = none
find_row cid (row ∷ rest) = if has_id cid row then some row else find_row cid rest

unfoldable pub fetch_order : Db → String → Option OrderRow
unfolding find_row
fetch_order db cid = find_row cid db.orders

-- `COALESCE(SUM(quantity), 0)`
unfoldable pub sum_fills : String → List FillRow → ℕ
sum_fills cid [] = 0
sum_fills cid (f ∷ rest) =
    if same_text cid f.client_order_id then f.quantity + sum_fills cid rest else sum_fills cid rest

abbrev with_fills : List FillRow → Option OrderRow → Option OrderResultRow
with_fills fills none = none
with_fills fills (some row) =
    some (record { row = row; filled_qty = sum_fills row.client_order_id fills })

unfoldable pub fetch_order_result : Db → String → Option OrderResultRow
unfolding fetch_order sum_fills
fetch_order_result db cid = with_fills db.fills (fetch_order db cid)

-- The row that `_INSERT_ORDER` writes, with the column defaults.
unfoldable pub new_row : ℕ → NormalizedOrder → Option String → OrderRow
new_row now o strategy = record {
  client_order_id = o.client_order_id;
  broker = o.broker;
  broker_order_id = none;
  account = o.account;
  symbol = o.symbol;
  market = o.market;
  side = o.side;
  order_type = o.order_type;
  price = o.price;
  stop_price = o.stop_price;
  quantity = o.quantity;
  display_qty = o.display_qty;
  tif = o.tif;
  position_effect = o.position_effect;
  status = pending_new;
  reject_reason = none;
  strategy_id = strategy;
  created_at = now;
}

abbrev pub known : Option OrderRow → Bool
known none = false
known (some _) = true

-- PostgreSQL checks a row's columns before its key.
unfoldable pub insert_order : Schema → ℕ → NormalizedOrder → Option String → Db → Call Done
insert_order schema now o strategy db =
    let row = new_row now o strategy in
    if not (schema.order_check row)
    then (err store_constraint_violated, db)
    else if known (find_row o.client_order_id db.orders)
    then (err duplicate_order, db)
    else (
      ok tt,
      publish now (record (status_update o.client_order_id pending_new) { strategy_id = strategy })
          (record db {
            orders = db.orders ++ (row ∷ []);
            hub = attribute_to o.client_order_id strategy db.hub;
          }),
    )

-- A change of status that the trigger lets through, with other columns set in the same statement.
-- `needed` is the status that the statement's `WHERE` asks for. The trigger lets a legal one through
-- by the schema's law.
abbrev in_status : OrderState → Option OrderRow → Bool
in_status needed none = false
in_status needed (some row) = same_state needed row.status

abbrev pub set_status : OrderState → OrderRow → OrderRow
set_status state row = record row { status = state }

abbrev acked : String → OrderRow → OrderRow
acked handle row = record row { status = new; broker_order_id = some handle }

-- The trigger refuses with a check violation, which `ack_order` and `replace_order` do not catch.
unfoldable pub ack_order : Schema → ℕ → String → String → Db → Call Done
ack_order schema now cid handle db =
    if not (in_status pending_new (find_row cid db.orders))
    then (err illegal_transition, db)
    else if not (schema.trigger pending_new new)
    then (err database_failed, db)
    else (
      ok tt,
      publish now (record (status_update cid new) { broker_order_id = some handle })
          (record db { orders = update_row cid (acked handle) db.orders }),
    )

-- `COALESCE($2, column)`
abbrev pub or_else {ℓ} : {A : Type ℓ} → Option A → Option A → Option A
or_else none old = old
or_else (some x) old = some x

abbrev pub value_or {ℓ} : {A : Type ℓ} → Option A → A → A
value_or none old = old
value_or (some x) old = x

abbrev replaced : Option Decimal → Option ℕ → OrderRow → OrderRow
replaced price qty row = record row {
  status = new;
  price = or_else price row.price;
  quantity = value_or qty row.quantity;
}

unfoldable pub replace_order : Schema → ℕ → String → Option Decimal → Option ℕ → Db → Call Done
replace_order schema now cid price qty db =
    if not (in_status pending_replace (find_row cid db.orders))
    then (err illegal_transition, db)
    else if not (schema.trigger pending_replace new)
    then (err database_failed, db)
    else (
      ok tt,
      publish now (record (status_update cid new) { price = price; quantity = qty })
          (record db { orders = update_row cid (replaced price qty) db.orders }),
    )

update_status_of : Schema → ℕ → String → OrderState → Option OrderRow → Db → Call Done
update_status_of schema now cid state none db = (err illegal_transition, db)
update_status_of schema now cid state (some row) db =
    if same_state row.status state
    then (ok tt, db)
    else if not (is_legal row.status state)
    then (err illegal_transition, db)
    else if not (schema.trigger row.status state)
    then (err illegal_transition, db)
    else (
      ok tt,
      publish now
          (record (status_update cid state) {
            strategy_id = row.strategy_id;
            broker_order_id = row.broker_order_id;
          })
          (record db { orders = update_row cid (set_status state) db.orders }),
    )

unfoldable pub update_status : Schema → ℕ → String → OrderState → Db → Call Done
unfolding update_status_of
update_status schema now cid state db =
    update_status_of schema now cid state (find_row cid db.orders) db

unfoldable pub set_reject_reason : String → String → Db → Db
unfolding update_row
set_reject_reason cid reason db = record db {
  orders = update_row cid (λ row. record row { reject_reason = some reason }) db.orders;
}

abbrev pub same_fill_id : FillId → FillId → Bool
same_fill_id (sim_fill p i) (sim_fill q j) = same_text p q && i == j
same_fill_id (venue_fill p i) (venue_fill q j) = same_text p q && i == j
same_fill_id _ _ = false

abbrev same_fill : FillRow → FillRow → Bool
same_fill f g =
    same_text f.client_order_id g.client_order_id && same_fill_id f.broker_fill_id g.broker_fill_id

unfoldable pub has_fill : FillRow → List FillRow → Bool
has_fill f [] = false
has_fill f (g ∷ rest) = same_fill f g || has_fill f rest

-- `INSERT … ON CONFLICT (client_order_id, broker_fill_id) DO NOTHING`
unfoldable pub insert_fill : FillRow → List FillRow → List FillRow
unfolding has_fill
insert_fill f fills = if has_fill f fills then fills else fills ++ (f ∷ [])

-- `FILLED if int(filled) >= total_quantity else PARTIALLY_FILLED`
unfoldable pub fill_target : ℕ → ℕ → OrderState
fill_target filled_qty total = if leb total filled_qty then filled else partially_filled

-- The status flip inside the transaction: whether the trigger lets it through.
unfoldable pub flip_allowed : Schema → OrderState → Option OrderRow → Bool
flip_allowed schema target none = true
flip_allowed schema target (some row) =
    same_state row.status target || schema.trigger row.status target

fill_update : FillRow → OrderState → Update
fill_update f target = record (status_update f.client_order_id target) {
  fill = some (record {
    broker_fill_id = f.broker_fill_id;
    price = f.price;
    quantity = f.quantity;
    exec_ts = f.exec_ts;
  });
}

-- The transaction commits the fill and the flip together, or neither.
unfoldable pub apply_fill : Schema → ℕ → FillRow → ℕ → Db → Call OrderState
unfolding fill_update
apply_fill schema now f total db =
    if not (schema.fill_check db.orders f)
    then (err database_failed, db)
    else let fills = insert_fill f db.fills in
      let target = fill_target (sum_fills f.client_order_id fills) total in
      if not (flip_allowed schema target (find_row f.client_order_id db.orders))
      then (err illegal_transition, db)
      else let written = record db {
        orders = update_row f.client_order_id (set_status target) db.orders;
        fills = fills;
      } in
        (
          ok target,
          if has_fill f db.fills then written else publish now (fill_update f target) written,
        )

abbrev is_open : OrderState → Bool
is_open new = true
is_open partially_filled = true
is_open _ = false

unfoldable pub fetch_open_orders : Db → List OrderRow
fetch_open_orders db = keep (λ row. is_open row.status) db.orders

abbrev is_reconciled : Bool → OrderState → Bool
is_reconciled replace pending_new = true
is_reconciled replace new = true
is_reconciled replace partially_filled = true
is_reconciled replace pending_cancel = true
is_reconciled replace pending_replace = replace
is_reconciled replace _ = false

unfoldable pub fetch_orders_for_reconcile : Db → Broker → Bool → List OrderRow
fetch_orders_for_reconcile db broker include_pending_replace =
    keep (λ row. same_broker row.broker broker && is_reconciled include_pending_replace row.status)
      db.orders
