-- ===== src/Db/Repositories/Writes.antt =====
-- Every write of db/repositories.py moves every stored order along the frozen machine.
use quant_execution_engine.Prelude.{
  ℕ, ◌≡◌, refl, true, [], ◌∷◌, ◌++◌, Option, none, some, String, arith, inl, inr, ◌⊎◌, Bool-cases,
}
use quant_execution_engine.Prelude.Decimal.{Decimal}
use quant_execution_engine.Contracts.Enums.{
  OrderState, pending_new, new, pending_replace, same_state,
}
use quant_execution_engine.Contracts.Orders.{NormalizedOrder}
use quant_execution_engine.Core.StateMachine.{is_legal}
use quant_execution_engine.Core.StateMachine.Graph.{here, next, ack, replace, eq_of_same_state}
use quant_execution_engine.Db.Models.{OrderRow, FillRow, Db}
use quant_execution_engine.Db.Repositories.{
  Schema, in_status, acked, replaced, set_status, new_row, update_status_of, flip_allowed,
  fill_target, find_row, update_row, sum_fills, insert_fill, has_fill, insert_order, ack_order,
  replace_order, update_status, set_reject_reason, apply_fill, publish,
}
use quant_execution_engine.Db.Repositories.Evolution.{
  IsFrozen, Evolves, Preserves, Preserves-refl, update_row-Preserves, append-Preserves, Evolves-by,
  path_of_is_legal, Wrote, Wrote-Preserves,
}

-- What each statement does to the table of orders.
insert_order_rows :
    (schema : Schema) (now : ℕ) (o : NormalizedOrder) (strategy : Option String) (db : Db)
    → ((insert_order schema now o strategy db).1.orders ≡ db.orders)
      ⊎ ((insert_order schema now o strategy db).1.orders
          ≡ db.orders ++ (new_row now o strategy ∷ []))
unfolding insert_order publish
insert_order_rows schema now o strategy db = ground arith

in_status_of :
    (needed : OrderState) (found : Option OrderRow)
    → in_status needed found ≡ true
    → (row : OrderRow) → found ≡ some row
    → row.status ≡ needed
in_status_of needed none h row e = cc
in_status_of needed (some x) h row e = ground (arith, eq_of_same_state needed x.status)

ack_order_rows :
    (schema : Schema) (now : ℕ) (cid handle : String) (db : Db)
    → Wrote cid
        (acked handle)
        (λ row. row.status ≡ pending_new)
        db.orders
        (ack_order schema now cid handle db).1.orders
unfolding ack_order publish
ack_order_rows schema now cid handle db =
    elim (Bool-cases (in_status pending_new (find_row cid db.orders))) [
      | inl e ↦ elim (Bool-cases (schema.trigger pending_new new)) [
        | inl t ↦ inr (in_status_of pending_new (find_row cid db.orders) e, rw (e, t))
        | inr t ↦ inl (rw (e, t))
      ]
      | inr e ↦ inl (rw e)
    ]

replace_order_rows :
    (schema : Schema) (now : ℕ) (cid : String) (price : Option Decimal) (qty : Option ℕ) (db : Db)
    → Wrote cid
        (replaced price qty)
        (λ row. row.status ≡ pending_replace)
        db.orders
        (replace_order schema now cid price qty db).1.orders
unfolding replace_order publish
replace_order_rows schema now cid price qty db =
    elim (Bool-cases (in_status pending_replace (find_row cid db.orders))) [
      | inl e ↦ elim (Bool-cases (schema.trigger pending_replace new)) [
        | inl t ↦ inr (in_status_of pending_replace (find_row cid db.orders) e, rw (e, t))
        | inr t ↦ inl (rw (e, t))
      ]
      | inr e ↦ inl (rw e)
    ]

update_found_rows :
    (schema : Schema) (now : ℕ) (cid : String) (state : OrderState) (db : Db)
    (found : Option OrderRow)
    → ((update_status_of schema now cid state found db).1.orders ≡ db.orders)
      ⊎ (((row : OrderRow) → found ≡ some row → is_legal row.status state ≡ true)
          × ((update_status_of schema now cid state found db).1.orders
              ≡ update_row cid (set_status state) db.orders))
unfolding update_status_of publish
update_found_rows schema now cid state db none = inl refl
update_found_rows schema now cid state db (some row) =
    elim (Bool-cases (same_state row.status state)) [
      | inl s ↦ inl (rw s)
      | inr s ↦ elim (Bool-cases (is_legal row.status state)) [
        | inr l ↦ inl (rw (s, l))
        | inl l ↦ elim (Bool-cases (schema.trigger row.status state)) [
          | inl t ↦ inr ((λ row' e. ground arith), rw (s, l, t))
          | inr t ↦ inl (rw (s, l, t))
        ]
      ]
    ]

update_status_rows :
    (schema : Schema) (now : ℕ) (cid : String) (state : OrderState) (db : Db)
    → Wrote cid
        (set_status state)
        (λ row. is_legal row.status state ≡ true)
        db.orders
        (update_status schema now cid state db).1.orders
unfolding update_status
update_status_rows schema now cid state db =
    update_found_rows schema now cid state db (find_row cid db.orders)

flip_of_frozen :
    (schema : Schema) (target : OrderState) (found : Option OrderRow)
    → IsFrozen schema
    → flip_allowed schema target found ≡ true
    → (row : OrderRow) → found ≡ some row
    → is_legal row.status target ≡ true
unfolding flip_allowed is_legal
flip_of_frozen schema target none frozen h row e = cc
flip_of_frozen schema target (some x) frozen h row e = ground (arith, frozen x.status target)

apply_fill_rows :
    (schema : Schema) (now : ℕ) (f : FillRow) (total : ℕ) (db : Db)
    → IsFrozen schema
    → let target = fill_target (sum_fills f.client_order_id (insert_fill f db.fills)) total in
      Wrote f.client_order_id
        (set_status target)
        (λ row. is_legal row.status target ≡ true)
        db.orders
        (apply_fill schema now f total db).1.orders
unfolding apply_fill publish
apply_fill_rows schema now f total db frozen =
    let target = fill_target (sum_fills f.client_order_id (insert_fill f db.fills)) total in
    let found = find_row f.client_order_id db.orders in
    elim (Bool-cases (schema.fill_check db.orders f)) [
      | inr c ↦ inl (rw c)
      | inl c ↦ elim (Bool-cases (flip_allowed schema target found)) [
        | inr a ↦ inl (rw (c, a))
        | inl a ↦ inr (
          flip_of_frozen schema target found frozen a,
          elim (Bool-cases (has_fill f db.fills)) [ inl h ↦ rw (c, a, h) | inr h ↦ rw (c, a, h) ],
        )
      ]
    ]

pub insert_order-Preserves :
    (schema : Schema) (now : ℕ) (o : NormalizedOrder) (strategy : Option String) (db : Db)
    → Preserves db.orders (insert_order schema now o strategy db).1.orders
insert_order-Preserves schema now o strategy db =
    elim (insert_order_rows schema now o strategy db) [
      | inl e ↦ rw e (Preserves-refl db.orders)
      | inr e ↦ rw e (append-Preserves db.orders (new_row now o strategy))
    ]

acked_moves :
    (handle : String) (row : OrderRow) → row.status ≡ pending_new → Evolves row (acked handle row)
acked_moves handle row e = record {
  path = rw e (next ack here);
  same_id = refl;
  same_broker = refl;
  same_account = refl;
  same_symbol = refl;
  same_side = refl;
  same_created = refl;
}

pub ack_order-Preserves :
    (schema : Schema) (now : ℕ) (cid handle : String) (db : Db)
    → Preserves db.orders (ack_order schema now cid handle db).1.orders
ack_order-Preserves schema now cid handle db =
    Wrote-Preserves cid (acked handle) (λ row. row.status ≡ pending_new) db.orders
      (ack_order schema now cid handle db).1.orders (λ row. refl) (acked_moves handle)
      (ack_order_rows schema now cid handle db)

replaced_moves :
    (price : Option Decimal) (qty : Option ℕ) (row : OrderRow)
    → row.status ≡ pending_replace
    → Evolves row (replaced price qty row)
replaced_moves price qty row e = record {
  path = rw e (next replace here);
  same_id = refl;
  same_broker = refl;
  same_account = refl;
  same_symbol = refl;
  same_side = refl;
  same_created = refl;
}

pub replace_order-Preserves :
    (schema : Schema) (now : ℕ) (cid : String) (price : Option Decimal) (qty : Option ℕ) (db : Db)
    → Preserves db.orders (replace_order schema now cid price qty db).1.orders
replace_order-Preserves schema now cid price qty db =
    Wrote-Preserves cid (replaced price qty) (λ row. row.status ≡ pending_replace) db.orders
      (replace_order schema now cid price qty db).1.orders (λ row. refl) (replaced_moves price qty)
      (replace_order_rows schema now cid price qty db)

pub update_status-Preserves :
    (schema : Schema) (now : ℕ) (cid : String) (state : OrderState) (db : Db)
    → Preserves db.orders (update_status schema now cid state db).1.orders
update_status-Preserves schema now cid state db =
    Wrote-Preserves cid (set_status state) (λ row. is_legal row.status state ≡ true) db.orders
      (update_status schema now cid state db).1.orders (λ row. refl)
      (λ row h. Evolves-by row state (path_of_is_legal row.status state h))
      (update_status_rows schema now cid state db)

pub set_reject_reason-Preserves :
    (cid reason : String) (db : Db) → Preserves db.orders (set_reject_reason cid reason db).orders
unfolding set_reject_reason
set_reject_reason-Preserves cid reason db =
    update_row-Preserves cid (λ row. record row { reject_reason = some reason }) db.orders
      (λ row. refl)
      (λ row h. record {
        path = here;
        same_id = refl;
        same_broker = refl;
        same_account = refl;
        same_symbol = refl;
        same_side = refl;
        same_created = refl;
      })

-- The flip of `apply_fill` is guarded by the schema's trigger alone.
pub apply_fill-Preserves :
    (schema : Schema) (now : ℕ) (f : FillRow) (total : ℕ) (db : Db)
    → IsFrozen schema
    → Preserves db.orders (apply_fill schema now f total db).1.orders
apply_fill-Preserves schema now f total db frozen =
    let target = fill_target (sum_fills f.client_order_id (insert_fill f db.fills)) total in
    Wrote-Preserves f.client_order_id (set_status target) (λ row. is_legal row.status target ≡ true)
      db.orders (apply_fill schema now f total db).1.orders (λ row. refl)
      (λ row h. Evolves-by row target (path_of_is_legal row.status target h))
      (apply_fill_rows schema now f total db frozen)
