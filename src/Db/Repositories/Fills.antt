-- ===== src/Db/Repositories/Fills.antt =====
-- The fills of db/repositories.py: what `apply_fill` counts, and what a fill does that is delivered
-- again.
use quant_execution_engine.Prelude.{
  ℕ, ◌+◌, ◌≤◌, ◌≡◌, ◌↔◌, refl, true, List, [], ◌∷◌, Option, none, some, String, same_text, arith,
  if◌then◌else◌, same_text_refl, ◌⊎◌,
}
use quant_execution_engine.Contracts.Enums.{OrderState, filled, partially_filled}
use quant_execution_engine.Contracts.Errors.{ok}
use quant_execution_engine.Core.StateMachine.Graph.{same_state_refl}
use quant_execution_engine.Db.Models.{OrderRow, FillRow, Db}
use quant_execution_engine.Db.Repositories.{
  Schema, find_row, update_row, sum_fills, insert_fill, has_fill, apply_fill, publish, flip_allowed,
  fill_target, set_status,
}
use quant_execution_engine.Db.Repositories.Reads.{
  changed, find_row-update_row, sum_fills-insert_fill,
}

update_row_twice :
    (cid : String) (t : OrderState) (rows : List OrderRow)
    → update_row cid (set_status t) (update_row cid (set_status t) rows)
      ≡ update_row cid (set_status t) rows
unfolding update_row
update_row_twice cid t [] = refl
update_row_twice cid t (row ∷ rest) = ground (arith, update_row_twice cid t rest)

abbrev target_of : FillRow → ℕ → Db → OrderState
target_of f total db = fill_target (sum_fills f.client_order_id (insert_fill f db.fills)) total

abbrev written : FillRow → ℕ → Db → Db
written f total db = record db {
  orders = update_row f.client_order_id (set_status (target_of f total db)) db.orders;
  fills = insert_fill f db.fills;
}

-- The tables after a call that succeeds, whatever it publishes.
apply_fill_ok :
    (schema : Schema) (now : ℕ) (f : FillRow) (total : ℕ) (db : Db) {t : OrderState}
    → (apply_fill schema now f total db).0 ≡ ok t
    → (t ≡ target_of f total db)
      × ((apply_fill schema now f total db).1.orders ≡ (written f total db).orders)
      × ((apply_fill schema now f total db).1.fills ≡ (written f total db).fills)
unfolding apply_fill publish
apply_fill_ok schema now f total db h = ground arith

-- A fill that is stored adds its quantity to its order's sum once, and to no other's; the order's
-- status becomes `filled` exactly if the sum has reached the total, and `partially_filled` if not.
pub apply_fill_accounts :
    (schema : Schema) (now : ℕ) (f : FillRow) (total : ℕ) (db : Db) {t : OrderState}
    → (apply_fill schema now f total db).0 ≡ ok t
    → let db' = (apply_fill schema now f total db).1 in
      ((cid : String)
        → sum_fills cid db'.fills
          ≡ sum_fills cid db.fills
            + (if has_fill f db.fills
                then 0
                else if same_text cid f.client_order_id
                then f.quantity
                else 0))
      × ((t ≡ filled) ↔ (total ≤ sum_fills f.client_order_id db'.fills))
      × ((t ≡ filled) ⊎ (t ≡ partially_filled))
      × (find_row f.client_order_id db'.orders
          ≡ changed (set_status t) (find_row f.client_order_id db.orders))
unfolding fill_target
apply_fill_accounts schema now f total db h =
    let (e, o, s) = apply_fill_ok schema now f total db h in
    (
      (λ cid. rw s (sum_fills-insert_fill cid f db.fills)),
      ((λ p. ground (arith, e, s)), (λ p. ground (arith, e, s))),
      ground (arith, e),
      rw (
        o,
        e,
        find_row-update_row f.client_order_id f.client_order_id (set_status (target_of f total db))
            db.orders (λ row. refl),
        same_text_refl f.client_order_id,
      ),
    )

settled :
    (schema : Schema) (cid : String) (t : OrderState) (found : Option OrderRow)
    → flip_allowed schema t (changed (set_status t) found) ≡ true
unfolding flip_allowed
settled schema cid t none = refl
settled schema cid t (some row) = rw (same_state_refl t)

-- The answers to a fill that is stored already.
module _ (schema : Schema) (now : ℕ) (f : FillRow) (total : ℕ) (db : Db)
    (stored : has_fill f db.fills ≡ true) where
  target : OrderState
  target = fill_target (sum_fills f.client_order_id db.fills) total
