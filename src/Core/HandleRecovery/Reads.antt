-- ===== src/Core/HandleRecovery/Reads.antt =====
-- core/handle_recovery.py: what the answer of the burst tells of its reads.
use quant_execution_engine.Prelude.{
  ℕ, zero, suc, ◌+◌, ◌≡◌, ◌≢◌, refl, subst, ◌∙◌, ◌⊎◌, inl, inr, Bool, true, false, String,
  if◌then◌else◌,
}
use quant_execution_engine.Contracts.Enums.{HandleResolution, confirmed, pending, unknown}
use quant_execution_engine.Contracts.Errors.{Error, Result, ok, err}
use quant_execution_engine.Core.HandleRecovery.{
  HandleResolver, Budget, poll, recover_handle, is_spent, elapsed_ms, is_read, is_resolved, enough,
  given_up,
}
use quant_execution_engine.Core.World.{Env, World, Action, ask, sleep, read_clock, waited, ◌>>=◌}

abbrev Outcome : Type 1
Outcome = Result HandleResolution → Type 0

either_of :
    (P : Outcome) (b : Bool) (m n : Action HandleResolution) (w : World)
    → (b ≡ true → P (m w).0)
    → P (n w).0
    → P ((if b then m else n) w).0
either_of P true m n w a c = a refl
either_of P false m n w a c = c

spent_of :
    (P : Outcome) (b : Bool) (m n : Action HandleResolution) (w : World)
    → P (m w).0
    → P (n w).0
    → let next : Action HandleResolution = elim b [ true ↦ m | false ↦ n ] in P (next w).0
spent_of P true m n w a c = a
spent_of P false m n w a c = c

module _ (env : Env) (resolve : HandleResolver) (b : Budget) (order : String) (P : Outcome)
    (seen : Bool) where
  -- Reads that all succeed, or all raise, leave one answer for giving up.
  poll_of :
      (fuel submitted_at attempts : ℕ) (read_ok : Bool) (w : World)
      → ((e : Error) → P (err e))
      → P (ok (given_up seen))
      → ((w : World) → is_resolved (resolve order w).0 ≡ true → P (ok confirmed))
      → ((w : World) (before : Bool)
          → (before ≡ seen) ⊎ (before ≡ read_ok)
          → (if is_read (resolve order w).0 then true else before) ≡ seen)
      → P (poll fuel env resolve b order submitted_at attempts read_ok w).0
  unfolding poll ask ◌>>=◌
  poll_of zero submitted_at attempts read_ok w raised over done reads = raised _
  poll_of (suc fuel) submitted_at attempts read_ok w raised over done reads =
      let answer = (resolve order w).0 in
      let w' = (resolve order w).1 in
      let now_at = waited env read_clock w' in
      let read = if is_read answer then true else read_ok in
      let same : read ≡ seen = reads w read_ok (inr refl) in
      either_of P (is_resolved answer) _ _ w' (done w) (
        spent_of P (is_spent b (attempts + 1) (elapsed_ms (env.clock now_at.trace) submitted_at)) _
          _ now_at (rw same over)
          (poll_of fuel submitted_at (attempts + 1) read (waited env sleep now_at) raised over done
            (λ w before c. reads w before (elim c [ inl e ↦ inl e | inr e ↦ inl (cc) ]))))

resolved_is_read : (answer : Result Bool) → is_resolved answer ≡ true → is_read answer ≡ true
resolved_is_read (ok x) h = refl
resolved_is_read (err e) h = cc

one_of : (x : Bool) → (x ≡ false) ⊎ (x ≡ false) → x ≡ false
one_of x (inl e) = e
one_of x (inr e) = e

-- A burst of reads from one world to another, none of which has resolved the order: `true` if one of
-- them at least has read the venue, `false` if all have raised. Between two reads the process looks at
-- the clock and sleeps; it looks at the clock after the last one too.
pub data Burst (env : Env) (resolve : HandleResolver) (order : String)
    : Bool → World → World → Type 0 where
  last :
      {w : World} {seen : Bool}
      → is_resolved (resolve order w).0 ≡ false
      → is_read (resolve order w).0 ≡ seen
      → Burst env resolve order seen w (waited env read_clock (resolve order w).1)
  again :
      {w w' : World} {seen rest : Bool}
      → is_resolved (resolve order w).0 ≡ false
      → (if is_read (resolve order w).0 then true else rest) ≡ seen
      → Burst env resolve order rest
          (waited env sleep (waited env read_clock (resolve order w).1))
          w'
      → Burst env resolve order seen w w'

abbrev Ending : Type 1
Ending = Result HandleResolution × World → Type 0

tested :
    (P : Ending) (b : Bool) (m n : Action HandleResolution) (w : World)
    → (b ≡ true → P (m w))
    → (b ≡ false → P (n w))
    → P ((if b then m else n) w)
tested P true m n w a c = a refl
tested P false m n w a c = c refl

stopped_or_slept :
    (P : Ending) (b : Bool) (m n : Action HandleResolution) (w : World)
    → P (m w)
    → P (n w)
    → let next : Action HandleResolution = elim b [ true ↦ m | false ↦ n ] in P (next w)
stopped_or_slept P true m n w a c = a
stopped_or_slept P false m n w a c = c

confirmed_is_no_end : (seen : Bool) → ok confirmed ≢ ok (given_up seen)
confirmed_is_no_end true h = cc
confirmed_is_no_end false h = cc

given_up_inj : (a b : Bool) → ok (given_up a) ≡ ok (given_up b) → a ≡ b
given_up_inj true true h = refl
given_up_inj true false h = cc
given_up_inj false true h = cc
given_up_inj false false h = refl

or_false : (b : Bool) → b ≡ (if b then true else false)
or_false true = refl
or_false false = refl

read_before :
    (read rest read_ok : Bool)
    → (if (if read then true else rest) then true else read_ok)
      ≡ (if rest then true else if read then true else read_ok)
read_before true true read_ok = refl
read_before true false read_ok = refl
read_before false rest read_ok = refl

-- A loop that gives up, after reads of which some have read the venue if `read_ok`.
poll_Burst :
    (fuel : ℕ) (env : Env) (resolve : HandleResolver) (b : Budget) (order : String)
    (submitted_at attempts : ℕ) (read_ok seen : Bool) (w : World)
    → let (r, w') = poll fuel env resolve b order submitted_at attempts read_ok w in
      r ≡ ok (given_up seen)
      → (rest : Bool) × ((if rest then true else read_ok) ≡ seen)
        × Burst env resolve order rest w w'
unfolding poll ask ◌>>=◌
poll_Burst zero env resolve b order submitted_at attempts read_ok seen w = λ h. cc
poll_Burst (suc fuel) env resolve b order submitted_at attempts read_ok seen w =
    let answer = (resolve order w).0 in
    let w' = (resolve order w).1 in
    let now_at = waited env read_clock w' in
    let read = if is_read answer then true else read_ok in
    let P : Ending = λ x.
      x.0 ≡ ok (given_up seen)
      → (rest : Bool) × ((if rest then true else read_ok) ≡ seen)
        × Burst env resolve order rest w x.1 in
    tested P (is_resolved answer) _ _ w' (λ e h. absurd (confirmed_is_no_end seen h))
      (λ no.
        stopped_or_slept P
          (is_spent b (attempts + 1) (elapsed_ms (env.clock now_at.trace) submitted_at)) _ _ now_at
          (λ h. (is_read answer, given_up_inj read seen h, last no refl))
          (λ h.
            let (rest, e, burst) =
              poll_Burst fuel env resolve b order submitted_at (attempts + 1) read seen
                (waited env sleep now_at) h in
            (
              if is_read answer then true else rest,
              read_before (is_read answer) rest read_ok ∙ e,
              again no refl burst,
            )))

-- Giving up tells what the reads of the burst were. `unknown` is answered only after reads that have
-- all raised, so one read of the venue is enough to rule it out; `pending` only after reads of which
-- one at least has read the venue, and none has resolved the order.
pub given_up_reads :
    (env : Env) (resolve : HandleResolver) (b : Budget) (order : String) (submitted_at : ℕ)
    (w : World)
    → let (r, w') = recover_handle env resolve b order submitted_at w in
      (r ≡ ok unknown → Burst env resolve order false w w')
      × (r ≡ ok pending → Burst env resolve order true w w')
unfolding recover_handle
given_up_reads env resolve b order submitted_at w = (given_up_Burst false, given_up_Burst true)
  where
    given_up_Burst :
        (seen : Bool)
        → (recover_handle env resolve b order submitted_at w).0 ≡ ok (given_up seen)
        → Burst env resolve order seen w (recover_handle env resolve b order submitted_at w).1
    given_up_Burst seen h =
        let (rest, e, burst) =
          poll_Burst (enough b submitted_at) env resolve b order submitted_at 0 false seen w h in
        subst
          (λ s. Burst env resolve order s w (recover_handle env resolve b order submitted_at w).1)
          (or_false rest ∙ e) burst

-- Where every read of the venue raises, the burst answers neither that the order is confirmed nor that
-- it is pending.
pub unread_never_settled :
    (env : Env) (resolve : HandleResolver) (b : Budget) (order : String) (submitted_at : ℕ)
    (w : World)
    → ((w : World) → is_read (resolve order w).0 ≡ false)
    → ((recover_handle env resolve b order submitted_at w).0 ≢ ok confirmed)
      × ((recover_handle env resolve b order submitted_at w).0 ≢ ok pending)
unfolding recover_handle
unread_never_settled env resolve b order submitted_at w none_read = (
  poll_of env resolve b order (λ r. r ≢ ok confirmed) false (enough b submitted_at) submitted_at 0
      false w (λ e h. cc) (λ h. cc)
      (λ w h k. cc (resolved_is_read (resolve order w).0 h, none_read w))
      (λ w before c. rw (none_read w) (one_of before c)),
  poll_of env resolve b order (λ r. r ≢ ok pending) false (enough b submitted_at) submitted_at 0
      false w (λ e h. cc) (λ h. cc) (λ w h k. cc)
      (λ w before c. rw (none_read w) (one_of before c)),
)
