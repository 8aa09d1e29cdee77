-- ===== src/Simulator/Source/Clock.antt =====
-- input_simulator/model_clock.py: the observed step of the model never goes back within a session.
use hil_simulation.Common.{
  ℕ, ◌≤◌, ◌≡◌, sym, ◌∙◌, subst, Bool, not, Option, some, none, List, max, arith, if◌then◌else◌,
  if-both,
}
use hil_simulation.Common.Result.{ok, state}
use hil_simulation.Common.Exec.{Keeps, Keeps-check, Keeps-bind, bind-eq-ok, check_fixed, check}
use hil_simulation.Runtime.Contract.{
  Message, Payload, session_open, session_opened, ack, resource_chunk, resource_ack, lifecycle,
  control_owner, session_close, status, measurement, other, Status, Ack, OwnerCommand,
}
use hil_simulation.Simulator.Source.State.{Profile, Source, Snapshot, clock, operation}
use hil_simulation.Simulator.Source.Attempts.{claimed}
use hil_simulation.Simulator.Source.Feedback.{
  remember_feedback, remember_reply, remember_status, remember_epoch,
}
use hil_simulation.Simulator.Source.LeaseFeedback.{
  remember_control_feedback, remember_control_reply, remember_input, check_source_status, drives,
  loses_lease, revoke_lease, remember_owner, grant_lease, grant_under, renew_lease,
}
use hil_simulation.Simulator.Source.StatusView.{read_status_lem}
use hil_simulation.Simulator.Source.Observed.{observed, snapshot}
use hil_simulation.Simulator.Source.Operations.{Op, run}
use hil_simulation.Simulator.Source.Inner.{Inner, clock-Keeps}
use hil_simulation.Simulator.Source.Keeps.{Free, Free-Outer, run-Keeps}

abbrev Within : Option Snapshot → ℕ → Type 0
Within none floor = Unit
Within (some seen) floor = seen.model_step ≤ floor

-- The observed step is not above the floor, which is at least `n`.
abbrev pub FloorHolds : ℕ → Source → Type 0
FloorHolds n s = (n ≤ s.model_step_floor) × Within s.model_status s.model_step_floor

Within-le : (o : Option Snapshot) (a b : ℕ) → a ≤ b → Within o a → Within o b
Within-le none a b le h = tt
Within-le (some seen) a b le h = omega arith

module _ (u : Profile) (n : ℕ) where
  remember_status-Keeps :
      (sent reply : Message) (p : Status) (started completed : ℕ)
      → Keeps (FloorHolds n) (remember_status u sent reply p started completed)
  unfolding remember_status
  remember_status-Keeps sent reply p started completed s h =
      let raised =
        Within-le s.model_status s.model_step_floor (max s.model_step_floor p.status_step)
          (omega arith) h.1 in
      ground (arith, h, raised)

  remember_epoch-Keeps :
      (sent reply : Message) (a : Ack) (started completed : ℕ)
      → Keeps (FloorHolds n) (remember_epoch u sent reply a started completed)
  unfolding remember_epoch
  remember_epoch-Keeps sent reply a started completed s h = ground (arith, h)

  remember_reply-Keeps :
      (sent reply : Message) (p : Payload) (started completed : ℕ)
      → Keeps (FloorHolds n) (remember_reply u sent reply p started completed)
  unfolding remember_reply
  remember_reply-Keeps sent reply (status p) a b s h =
      ground (arith, h, remember_status-Keeps sent reply p a b s h)
  remember_reply-Keeps sent reply (ack p) a b s h =
      ground (arith, h, remember_epoch-Keeps sent reply p a b s h)
  remember_reply-Keeps sent reply (session_open _ _ _ _) a b s h = h
  remember_reply-Keeps sent reply (session_opened _) a b s h = h
  remember_reply-Keeps sent reply (resource_chunk _) a b s h = h
  remember_reply-Keeps sent reply (resource_ack _) a b s h = h
  remember_reply-Keeps sent reply (lifecycle _) a b s h = h
  remember_reply-Keeps sent reply (control_owner _) a b s h = h
  remember_reply-Keeps sent reply (session_close _) a b s h = h
  remember_reply-Keeps sent reply (measurement _) a b s h = h
  remember_reply-Keeps sent reply (other _) a b s h = h

  remember_feedback-Keeps :
      (sent reply : Message) (a b : ℕ) (is_fresh : Bool)
      → Keeps (FloorHolds n) (remember_feedback u sent reply a b is_fresh)
  unfolding remember_feedback
  remember_feedback-Keeps sent reply a b is_fresh s h =
      ground (arith, h, remember_reply-Keeps sent reply reply.payload a b s h)

  claimed-FloorHolds : (m : Message) (s : Source) → FloorHolds n s → FloorHolds n (claimed m s)
  claimed-FloorHolds m s h = ground (arith, h)

  grant_under-FloorHolds :
      (sent reply : Message) (a : Ack) (c : OwnerCommand) (i j : ℕ) (o : Option Snapshot)
      (s : Source)
      → FloorHolds n s
      → FloorHolds n (grant_under u sent reply a c i j o s)
  unfolding grant_under
  grant_under-FloorHolds sent reply a c i j none s h = h
  grant_under-FloorHolds sent reply a c i j (some seen) s h = ground (arith, h)

  renew_lease-FloorHolds :
      (sent reply : Message) (a : Ack) (i j : ℕ) (s : Source)
      → FloorHolds n s
      → FloorHolds n (renew_lease u sent reply a i j s)
  unfolding renew_lease
  renew_lease-FloorHolds sent reply a i j s h = ground (arith, h)

  remember_owner-FloorHolds :
      (sent reply : Message) (a : Ack) (p : Payload) (i j : ℕ) (s : Source)
      → FloorHolds n s
      → FloorHolds n (remember_owner u sent reply a p i j s)
  unfolding remember_owner grant_lease
  remember_owner-FloorHolds sent reply a (control_owner c) i j s h =
      ground (arith, h, grant_under-FloorHolds sent reply a c i j s.model_status s h)
  remember_owner-FloorHolds sent reply a (session_open _ _ _ _) i j s h = h
  remember_owner-FloorHolds sent reply a (session_opened _) i j s h = h
  remember_owner-FloorHolds sent reply a (ack _) i j s h = h
  remember_owner-FloorHolds sent reply a (resource_chunk _) i j s h = h
  remember_owner-FloorHolds sent reply a (resource_ack _) i j s h = h
  remember_owner-FloorHolds sent reply a (lifecycle _) i j s h = h
  remember_owner-FloorHolds sent reply a (session_close _) i j s h = h
  remember_owner-FloorHolds sent reply a (status _) i j s h = h
  remember_owner-FloorHolds sent reply a (measurement _) i j s h = h
  remember_owner-FloorHolds sent reply a (other _) i j s h = h

  remember_input-FloorHolds :
      (sent reply : Message) (a : Ack) (i j : ℕ) (s : Source)
      → FloorHolds n s
      → FloorHolds n (remember_input u sent reply a i j s)
  unfolding remember_input
  remember_input-FloorHolds sent reply a i j s h =
      let renewed = renew_lease u sent reply a i j s in
      let owned = remember_owner u sent reply a sent.payload i j s in
      let rest =
        if-both (FloorHolds n) (drives sent) renewed owned
          (renew_lease-FloorHolds sent reply a i j s h)
          (remember_owner-FloorHolds sent reply a sent.payload i j s h) in
      if-both (FloorHolds n) (loses_lease sent a) (revoke_lease sent.header.sequence s)
        (if drives sent then renewed else owned) h rest

  remember_control_reply-FloorHolds :
      (sent reply : Message) (p : Payload) (i j : ℕ) (s : Source)
      → FloorHolds n s
      → FloorHolds n (remember_control_reply u sent reply p i j s)
  unfolding remember_control_reply check_source_status
  remember_control_reply-FloorHolds sent reply (status p) i j s h = ground (arith, h)
  remember_control_reply-FloorHolds sent reply (ack a) i j s h =
      ground (arith, h, remember_input-FloorHolds sent reply a i j s h)
  remember_control_reply-FloorHolds sent reply (session_open _ _ _ _) i j s h = h
  remember_control_reply-FloorHolds sent reply (session_opened _) i j s h = h
  remember_control_reply-FloorHolds sent reply (resource_chunk _) i j s h = h
  remember_control_reply-FloorHolds sent reply (resource_ack _) i j s h = h
  remember_control_reply-FloorHolds sent reply (lifecycle _) i j s h = h
  remember_control_reply-FloorHolds sent reply (control_owner _) i j s h = h
  remember_control_reply-FloorHolds sent reply (session_close _) i j s h = h
  remember_control_reply-FloorHolds sent reply (measurement _) i j s h = h
  remember_control_reply-FloorHolds sent reply (other _) i j s h = h

  remember_control_feedback-FloorHolds :
      (sent reply : Message) (i j : ℕ) (is_fresh : Bool) (s : Source)
      → FloorHolds n s
      → FloorHolds n (remember_control_feedback u sent reply i j is_fresh s)
  unfolding remember_control_feedback
  remember_control_feedback-FloorHolds sent reply i j is_fresh s h =
      ground (arith, h, remember_control_reply-FloorHolds sent reply reply.payload i j s h)

  floor_inner : Inner u (FloorHolds n)
  floor_inner = record {
    timed = λ now s h. h;
    claims = claimed-FloorHolds;
    beat = λ last s h. h;
    told = remember_feedback-Keeps;
    controlled = remember_control_feedback-FloorHolds;
    heard = λ m s h. h;
  }

  pub floor_free : Free u (FloorHolds n)
  floor_free = record {
    inner = floor_inner;
    commits = λ header mid s h. h;
    recorded = λ m reply started completed s h. h;
    extended = λ deadline s h. h;
    stored = λ d m s h. h;
    drained = λ s h. h;
    can_claimed = λ a b s h. h;
  }

module _ (u : Profile) (now : ℕ) where
  snapshot-Keeps : (n : ℕ) → Keeps (FloorHolds n) (snapshot u now)
  unfolding snapshot observed operation
  snapshot-Keeps n s h =
      Keeps-check (FloorHolds n) (not s.closed) state (observed u now)
        (Keeps-bind {B = Snapshot} (FloorHolds n) (clock now) _
          (clock-Keeps u (FloorHolds n) (floor_inner u n) now) (λ _ s h. h))
        s h

  clock-fixed :
      (s : Source)
      → ((clock now s).1.model_step_floor ≡ s.model_step_floor)
        × ((clock now s).1.model_status ≡ s.model_status)
  unfolding clock
  clock-fixed s = ground arith

  -- A snapshot shows the step that is the floor.
  snapshot-floor :
      (s : Source) (seen : Snapshot)
      → FloorHolds 0 s
      → (snapshot u now s).0 ≡ ok seen
      → seen.model_step ≡ s.model_step_floor
  unfolding snapshot observed operation
  snapshot-floor s seen h done =
      let (u1, h1, k1, e1) =
        bind-eq-ok (λ s. check (not s.closed) state s) (λ _. observed u now) s done in
      let same : (check (not s.closed) state s).1 ≡ s = check_fixed (not s.closed) state s in
      let k2 : (observed u now s).0 ≡ ok seen =
        subst (λ s. (observed u now s).0 ≡ ok seen) same k1 in
      let (u2, h2, k3, e2) = bind-eq-ok (clock now) _ s k2 in
      let (found, low) = read_status_lem u now (clock now s).1 seen k3 in
      let (floor, kept) = clock-fixed s in
      let high : seen.model_step ≤ s.model_step_floor =
        subst (λ o. Within o s.model_step_floor) (sym kept ∙ found) h.1 in
      omega (arith, subst (λ n. n ≤ seen.model_step) floor low)

-- From a state whose observed step is not above its floor, a model step that a snapshot returns is
-- not below the step that an earlier snapshot returned, whatever operations of the session stand
-- between.
pub snapshot-run-snapshot :
    (u : Profile) (ops : List Op) (now later : ℕ) (s : Source) (first second : Snapshot)
    → FloorHolds 0 s
    → (snapshot u now s).0 ≡ ok first
    → (snapshot u later (run u ops (snapshot u now s).1)).0 ≡ ok second
    → first.model_step ≤ second.model_step
snapshot-run-snapshot u ops now later s first second h one two =
    let step = snapshot-floor u now s first h one in
    let held : FloorHolds s.model_step_floor s = (omega arith, h.1) in
    let kept =
      run-Keeps u (FloorHolds s.model_step_floor)
        (Free-Outer u (FloorHolds s.model_step_floor) (floor_free u s.model_step_floor)) ops
        (snapshot u now s).1 (snapshot-Keeps u now s.model_step_floor s held) in
    let reached =
      snapshot-floor u later (run u ops (snapshot u now s).1) second (omega arith, kept.1) two in
    omega (arith, step, reached, kept.0)
