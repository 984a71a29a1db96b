-- ===== src/Events/Subscription/Bounds.antt =====
-- What holds of a subscriber's queue in events/hub.py.
use quant_execution_engine.Prelude.{
  ℕ, suc, ◌+◌, ◌≤◌, ◌<◌, ◌≡◌, true, List, [], ◌∷◌, ◌++◌, length, length-append, if◌then◌else◌,
  arith, refl,
}
use quant_execution_engine.Events.Models.{OrderUpdateEvent}
use quant_execution_engine.Events.Subscription.{
  Item, event, gap_marker, Subscription, offer, take_dropped, subscription,
}

-- How many gap markers wait in the queue.
abbrev pub markers : List Item → ℕ
markers [] = 0
markers (gap_marker ∷ rest) = suc (markers rest)
markers (event e ∷ rest) = markers rest

-- How many events wait in the queue.
abbrev pub events : List Item → ℕ
events [] = 0
events (gap_marker ∷ rest) = events rest
events (event e ∷ rest) = suc (events rest)

pub record IsValid (s : Subscription) : Type 0 where
  pub bounded : 0 < s.maxsize → length s.queue ≤ s.maxsize
  pub one_marker : markers s.queue ≡ (if s.gap_pending then 1 else 0)
  pub counted : 0 < s.dropped → s.gap_pending ≡ true

markers-append : (xs ys : List Item) → markers (xs ++ ys) ≡ markers xs + markers ys
markers-append [] ys = omega arith
markers-append (gap_marker ∷ xs) ys = omega (arith, markers-append xs ys)
markers-append (event e ∷ xs) ys = markers-append xs ys

events-append : (xs ys : List Item) → events (xs ++ ys) ≡ events xs + events ys
events-append [] ys = omega arith
events-append (gap_marker ∷ xs) ys = events-append xs ys
events-append (event e ∷ xs) ys = omega (arith, events-append xs ys)

-- `offer` on a queue written out.
offer_at-IsValid :
    (e : OrderUpdateEvent) (s : Subscription) (q : List Item)
    → s.queue ≡ q
    → IsValid s
    → IsValid (offer e s)
unfolding offer
offer_at-IsValid e s [] eq v =
    ground (arith, length-append {0} s.queue (event e ∷ []), markers-append s.queue (event e ∷ []))
offer_at-IsValid e s (gap_marker ∷ r) eq v = ground (
  arith,
  length-append {0} s.queue (event e ∷ []),
  markers-append s.queue (event e ∷ []),
  length-append {0} r (gap_marker ∷ []),
  markers-append r (gap_marker ∷ []),
  length-append {0} r (event e ∷ []),
  markers-append r (event e ∷ []),
  length-append {0} (r ++ gap_marker ∷ []) (event e ∷ []),
  markers-append (r ++ gap_marker ∷ []) (event e ∷ []),
)
offer_at-IsValid e s (event x ∷ r) eq v = ground (
  arith,
  length-append {0} s.queue (event e ∷ []),
  markers-append s.queue (event e ∷ []),
  length-append {0} r (gap_marker ∷ []),
  markers-append r (gap_marker ∷ []),
  length-append {0} r (event e ∷ []),
  markers-append r (event e ∷ []),
  length-append {0} (r ++ gap_marker ∷ []) (event e ∷ []),
  markers-append (r ++ gap_marker ∷ []) (event e ∷ []),
)

-- Every call of `offer` keeps the queue within its size, with one gap marker in it exactly while a
-- gap is pending, and a gap pending whenever drops are counted.
pub offer-IsValid : (e : OrderUpdateEvent) (s : Subscription) → IsValid s → IsValid (offer e s)
offer-IsValid e s v = offer_at-IsValid e s s.queue refl v

-- The events that a subscriber was offered and has not read: those that wait, those that are
-- counted as dropped, and one more while a gap is pending.
abbrev pub outstanding : Subscription → ℕ
outstanding s = events s.queue + s.dropped + (if s.gap_pending then 1 else 0)

offer_at_accounts :
    (e : OrderUpdateEvent) (s : Subscription) (q : List Item)
    → s.queue ≡ q
    → IsValid s
    → outstanding (offer e s) ≡ outstanding s + 1
unfolding offer
offer_at_accounts e s [] eq v = ground (arith, events-append s.queue (event e ∷ []))
offer_at_accounts e s (gap_marker ∷ r) eq v = ground (
  arith,
  events-append s.queue (event e ∷ []),
  length-append {0} r (gap_marker ∷ []),
  events-append r (gap_marker ∷ []),
  length-append {0} r (event e ∷ []),
  events-append r (event e ∷ []),
  length-append {0} (r ++ gap_marker ∷ []) (event e ∷ []),
  events-append (r ++ gap_marker ∷ []) (event e ∷ []),
)
offer_at_accounts e s (event x ∷ r) eq v = ground (
  arith,
  events-append s.queue (event e ∷ []),
  length-append {0} r (gap_marker ∷ []),
  events-append r (gap_marker ∷ []),
  length-append {0} r (event e ∷ []),
  events-append r (event e ∷ []),
  length-append {0} (r ++ gap_marker ∷ []) (event e ∷ []),
  events-append (r ++ gap_marker ∷ []) (event e ∷ []),
)

-- Every event offered to a valid subscription is accounted for: it waits, or it is counted, or it is
-- the one loss that a pending gap does not count.
pub offer_accounts :
    (e : OrderUpdateEvent) (s : Subscription)
    → IsValid s
    → outstanding (offer e s) ≡ outstanding s + 1
offer_accounts e s v = offer_at_accounts e s s.queue refl v

-- A chain of offers to a new subscription.
abbrev pub offer_all : List OrderUpdateEvent → Subscription → Subscription
offer_all [] s = s
offer_all (e ∷ es) s = offer_all es (offer e s)

offer_all_accounts :
    (es : List OrderUpdateEvent) (s : Subscription)
    → IsValid s
    → IsValid (offer_all es s) × (outstanding (offer_all es s) ≡ outstanding s + length es)
offer_all_accounts [] s v = (v, omega arith)
offer_all_accounts (e ∷ es) s v =
    let (v', eq) = offer_all_accounts es (offer e s) (offer-IsValid e s v) in
    (v', omega (arith, eq, offer_accounts e s v))

-- After any events offered to a new subscriber that has read nothing, the queue keeps within its
-- size, and a pending gap has lost exactly one event more than its marker will report.
pub unread_gap_undercounts :
    (maxsize : ℕ) (es : List OrderUpdateEvent)
    → let s = offer_all es (subscription maxsize) in
      IsValid s
      × (events s.queue + (take_dropped s).0 + (if s.gap_pending then 1 else 0) ≡ length es)
unfolding subscription take_dropped
unread_gap_undercounts maxsize es =
    let s = subscription maxsize in
    let (v, eq) = offer_all_accounts es s (ground arith) in (v, omega (arith, eq))
