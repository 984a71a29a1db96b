-- ===== src/Events/Subscription.antt =====
-- events/hub.py, `Subscription`: a bounded queue for each subscriber, and what it counts as lost.
pub mod Bounds
use quant_execution_engine.Prelude.{
  ℕ, suc, ◌+◌, Bool, true, false, List, [], ◌∷◌, ◌++◌, length, ltb, leb, if◌then◌else◌, not, ◌&&◌,
}
use quant_execution_engine.Events.Models.{OrderUpdateEvent}

pub data Item : Type 0 where
  event : OrderUpdateEvent → Item
  gap_marker : Item

pub record Subscription : Type 0 where
  pub queue : List Item
  pub maxsize : ℕ
  pub dropped : ℕ
  pub gap_pending : Bool

-- `asyncio.Queue.full`: a queue of size 0 is unbounded.
abbrev is_full : Subscription → Bool
is_full s = ltb 0 s.maxsize && leb s.maxsize (length s.queue)

-- `put_nowait` under `suppress(QueueFull)`
abbrev put : Item → Subscription → Subscription
put item s = if is_full s then s else record s { queue = s.queue ++ (item ∷ []) }

abbrev after_get : Item → List Item → Subscription → Subscription
after_get gap_marker rest s = record s { queue = rest; gap_pending = false }
after_get (event e) rest s = record s { queue = rest }

abbrev get_from : List Item → Subscription → Subscription
get_from [] s = s
get_from (item ∷ rest) s = after_get item rest s

-- `_drop_oldest`
unfoldable pub drop_oldest : Subscription → Subscription
drop_oldest s = get_from s.queue s

-- `_ensure_gap_marker`
unfoldable pub ensure_gap_marker : Subscription → Subscription
ensure_gap_marker s = if s.gap_pending then s else put gap_marker (record s { gap_pending = true })

abbrev count_drop : Subscription → Subscription
count_drop s = record s { dropped = s.dropped + 1 }

unfoldable pub offer : OrderUpdateEvent → Subscription → Subscription
unfolding drop_oldest ensure_gap_marker
offer e s =
    if is_full s
    then put (event e) (ensure_gap_marker (count_drop (drop_oldest s)))
    else record s { queue = s.queue ++ (event e ∷ []) }

unfoldable pub take_dropped : Subscription → ℕ × Subscription
take_dropped s = (s.dropped, record s { dropped = 0; gap_pending = false })

unfoldable pub subscription : ℕ → Subscription
subscription maxsize = record { queue = []; maxsize = maxsize; dropped = 0; gap_pending = false }
