-- ===== src/Events/Hub/Ring.antt =====
-- The ring of events/hub.py: numbering, and what a reconnecting client is replayed.
use quant_execution_engine.Prelude.{
  ℕ, zero, suc, ◌+◌, ◌-◌, ◌≤◌, ◌<◌, ◌≡◌, ◌∙◌, true, false, List, [], ◌∷◌, ◌++◌, length, drop, keep,
  length-append, length-drop, arith, refl, ltb, ◌↔◌,
}
use Prim.Native.Nat.{min}
use quant_execution_engine.Events.Models.{OrderUpdateEvent}
use quant_execution_engine.Events.Hub.{
  fell_off, first_seq, stamp, EventHub, Update, new_hub, ring_append, publish, replay,
}

-- The events are numbered upwards from `n` without a break.
abbrev pub Consecutive : ℕ → List OrderUpdateEvent → Type 0
Consecutive n [] = Unit
Consecutive n (e ∷ es) = (e.seq ≡ n) × Consecutive (suc n) es

pub record IsValid (hub : EventHub) : Type 0 where
  pub started : 0 < hub.next_seq
  pub filled : length hub.ring ≡ min hub.ring_buffer_size (hub.next_seq - 1)
  pub numbered : Consecutive (hub.next_seq - length hub.ring) hub.ring

Consecutive-append :
    (n : ℕ) (es : List OrderUpdateEvent) (e : OrderUpdateEvent)
    → Consecutive n es
    → e.seq ≡ n + length es
    → Consecutive n (es ++ (e ∷ []))
Consecutive-append n [] e c h = (omega arith, tt)
Consecutive-append n (x ∷ es) e c h = (c.0, Consecutive-append (suc n) es e c.1 (omega arith))

Consecutive-drop :
    (k n m : ℕ) (es : List OrderUpdateEvent)
    → Consecutive n es
    → k ≤ length es
    → m ≡ n + k
    → Consecutive m (drop k es)
Consecutive-drop zero n m es c h e = rw (let p : m ≡ n = omega arith in p) c
Consecutive-drop (suc k) n m [] c h e = tt
Consecutive-drop (suc k) n m (x ∷ es) c h e =
    Consecutive-drop k (suc n) m es c.1 (omega arith) (omega arith)

pub new_hub-IsValid : (ring queue : ℕ) → IsValid (new_hub ring queue)
unfolding new_hub
new_hub-IsValid ring queue = ground arith

length-ring_append :
    (size : ℕ) (es : List OrderUpdateEvent) (e : OrderUpdateEvent)
    → length (ring_append size es e) ≡ min size (length es + 1)
unfolding ring_append
length-ring_append size es e = omega (
  arith,
  length-drop (length (es ++ (e ∷ [])) - size) (es ++ (e ∷ [])),
  length-append es (e ∷ []),
)

ring_append-Consecutive :
    (size n m : ℕ) (es : List OrderUpdateEvent) (e : OrderUpdateEvent)
    → Consecutive n es
    → e.seq ≡ n + length es
    → m + length (ring_append size es e) ≡ n + length es + 1
    → Consecutive m (ring_append size es e)
unfolding ring_append
ring_append-Consecutive size n m es e c h k =
    let longer = es ++ (e ∷ []) in
    Consecutive-drop (length longer - size) n m longer (Consecutive-append n es e c h)
      (omega (arith, length-append es (e ∷ [])))
      (omega (arith, k, length-append es (e ∷ []), length-drop (length longer - size) longer))

-- Publishing keeps the ring full up to its size, and its numbers without a break up to the last.
pub publish-IsValid :
    (now : ℕ) (u : Update) (hub : EventHub) → IsValid hub → IsValid (publish now u hub)
unfolding publish
publish-IsValid now u hub v =
    let e = stamp now u hub in
    let l = length-ring_append hub.ring_buffer_size hub.ring e in
    record {
      started = omega arith;
      filled = omega (arith, l, v.filled, v.started);
      numbered =
          ring_append-Consecutive hub.ring_buffer_size (hub.next_seq - length hub.ring)
            (suc hub.next_seq - length (ring_append hub.ring_buffer_size hub.ring e)) hub.ring e
            v.numbered (omega (arith, v.filled, v.started)) (omega (arith, l, v.filled, v.started));
    }

abbrev newer : ℕ → List OrderUpdateEvent → List OrderUpdateEvent
newer after_seq = keep (λ e. ltb after_seq e.seq)

newer_all :
    (after_seq n : ℕ) (es : List OrderUpdateEvent)
    → Consecutive n es
    → after_seq < n
    → newer after_seq es ≡ es
newer_all after_seq n [] c h = refl
newer_all after_seq n (e ∷ es) c h = ground (arith, newer_all after_seq (suc n) es)

newer-drop :
    (after_seq n k : ℕ) (es : List OrderUpdateEvent)
    → Consecutive n es
    → n + k ≡ after_seq + 1
    → newer after_seq es ≡ drop k es
newer-drop after_seq n zero es c h = newer_all after_seq n es c (omega arith)
newer-drop after_seq n (suc k) [] c h = refl
newer-drop after_seq n (suc k) (e ∷ es) c h = ground (arith, newer-drop after_seq (suc n) k es)

fell_off-Consecutive :
    (after_seq n : ℕ) (es : List OrderUpdateEvent)
    → Consecutive n es
    → 0 < length es
    → fell_off (first_seq es) after_seq ≡ ltb (after_seq + 1) n
fell_off-Consecutive after_seq n [] c h = absurd (omega arith)
fell_off-Consecutive after_seq n (e ∷ es) c h = rw (c.0)

-- The replay of a cursor inside the numbering, computed from where the ring begins.
replay_at :
    (after_seq : ℕ) (hub : EventHub)
    → IsValid hub
    → 0 < hub.ring_buffer_size
    → 0 < after_seq
    → after_seq < hub.next_seq
    → ((replay after_seq hub).1 ≡ ltb (after_seq + 1) (hub.next_seq - length hub.ring))
      × ((replay after_seq hub).0 ≡ newer after_seq hub.ring)
unfolding replay
replay_at after_seq hub v size pos behind =
    ground (arith, fell_off-Consecutive after_seq (hub.next_seq - length hub.ring) hub.ring)

-- What a reconnecting client is replayed, when its cursor stands in the hub's numbering: exactly the
-- events after the cursor in their order if no gap is reported; and a gap is reported exactly if an
-- event after the cursor has left the ring.
pub replay_complete :
    (after_seq : ℕ) (hub : EventHub)
    → IsValid hub
    → 0 < hub.ring_buffer_size
    → 0 < after_seq
    → after_seq < hub.next_seq
    → ((replay after_seq hub).1 ≡ false
        → Consecutive (after_seq + 1) (replay after_seq hub).0
          × (after_seq + 1 + length (replay after_seq hub).0 ≡ hub.next_seq))
      × (((replay after_seq hub).1 ≡ true) ↔ (after_seq + 1 < hub.next_seq - length hub.ring))
replay_complete after_seq hub v size pos behind =
    let n = hub.next_seq - length hub.ring in
    let k = after_seq + 1 - n in
    let (flag, list) = replay_at after_seq hub v size pos behind in
    (
      λ quiet.
          let room : n ≤ after_seq + 1 = ground (arith, flag, quiet) in
          let eq = list ∙ newer-drop after_seq n k hub.ring v.numbered (omega arith) in
          rw eq (
            Consecutive-drop k n (after_seq + 1) hub.ring v.numbered (omega (arith, v.filled))
                (omega arith),
            omega (arith, length-drop k hub.ring, v.filled),
          ),
      ((λ t. ground (arith, flag, t)), (λ l. ground (arith, flag, l))),
    )
