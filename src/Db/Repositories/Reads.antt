-- ===== src/Db/Repositories/Reads.antt =====
-- How the reads of db/repositories.py see a write, and what a write leaves alone.
use quant_execution_engine.Prelude.{
  ◌≡◌, refl, true, List, [], ◌∷◌, ◌++◌, Option, none, some, String, same_text, arith, if◌then◌else◌,
  same_text_refl, eq_of_same_text, ◌+◌,
}
use quant_execution_engine.Events.Models.{FillId, sim_fill, venue_fill}
use quant_execution_engine.Db.Models.{OrderRow, FillRow}
use quant_execution_engine.Db.Repositories.{
  find_row, update_row, has_id, sum_fills, insert_fill, has_fill, or_else, same_fill,
}

abbrev pub changed : (OrderRow → OrderRow) → Option OrderRow → Option OrderRow
changed f none = none
changed f (some row) = some (f row)

-- A write under an id is seen by a read of that id and by no other.
pub find_row-update_row :
    (cid key : String) (f : OrderRow → OrderRow) (rows : List OrderRow)
    → ((row : OrderRow) → (f row).client_order_id ≡ row.client_order_id)
    → find_row key (update_row cid f rows)
      ≡ (if same_text key cid then changed f (find_row key rows) else find_row key rows)
unfolding find_row update_row
find_row-update_row cid key f [] keeps = ground arith
find_row-update_row cid key f (row ∷ rest) keeps = ground (
  arith,
  keeps row,
  find_row-update_row cid key f rest keeps,
  eq_of_same_text key cid,
  eq_of_same_text cid row.client_order_id,
  eq_of_same_text key row.client_order_id,
  same_text_refl cid,
)

pub find_row-append :
    (key : String) (rows : List OrderRow) (row : OrderRow)
    → find_row key (rows ++ (row ∷ []))
      ≡ or_else (find_row key rows) (if has_id key row then some row else none)
unfolding find_row
find_row-append key [] row = refl
find_row-append key (x ∷ rows) row = ground (arith, find_row-append key rows row)

pub find_row_id :
    (key : String) (rows : List OrderRow) (row : OrderRow)
    → find_row key rows ≡ some row
    → same_text key row.client_order_id ≡ true
unfolding find_row
find_row_id key [] row h = cc
find_row_id key (x ∷ rows) row h = ground (arith, find_row_id key rows row)

pub sum_fills-append :
    (cid : String) (fills : List FillRow) (f : FillRow)
    → sum_fills cid (fills ++ (f ∷ []))
      ≡ sum_fills cid fills + (if same_text cid f.client_order_id then f.quantity else 0)
unfolding sum_fills
sum_fills-append cid [] f = ground arith
sum_fills-append cid (x ∷ fills) f = ground (arith, sum_fills-append cid fills f)

-- What a fill adds to the sum of an order: its quantity, unless it is already stored or another's.
pub sum_fills-insert_fill :
    (cid : String) (f : FillRow) (fills : List FillRow)
    → sum_fills cid (insert_fill f fills)
      ≡ sum_fills cid fills
        + (if has_fill f fills
            then 0
            else if same_text cid f.client_order_id
            then f.quantity
            else 0)
unfolding insert_fill
sum_fills-insert_fill cid f fills = ground (arith, sum_fills-append cid fills f)

same_fill_at : (f : FillRow) (i : FillId) → f.broker_fill_id ≡ i → same_fill f f ≡ true
same_fill_at f (sim_fill p n) e = ground (arith, same_text_refl f.client_order_id, same_text_refl p)
same_fill_at f (venue_fill p n) e =
    ground (arith, same_text_refl f.client_order_id, same_text_refl p)

same_fill_refl : (f : FillRow) → same_fill f f ≡ true
same_fill_refl f = same_fill_at f f.broker_fill_id refl

has_fill-append : (f : FillRow) (fills : List FillRow) → has_fill f (fills ++ (f ∷ [])) ≡ true
unfolding has_fill
has_fill-append f [] = ground (arith, same_fill_refl f)
has_fill-append f (x ∷ fills) = ground (arith, has_fill-append f fills)

pub has_fill-insert_fill :
    (f : FillRow) (fills : List FillRow) → has_fill f (insert_fill f fills) ≡ true
unfolding insert_fill
has_fill-insert_fill f fills = ground (arith, has_fill-append f fills)

pub insert_fill_twice :
    (f : FillRow) (fills : List FillRow) → insert_fill f (insert_fill f fills) ≡ insert_fill f fills
unfolding insert_fill
insert_fill_twice f fills = ground (arith, has_fill-append f fills)
