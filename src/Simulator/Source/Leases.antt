-- ===== src/Simulator/Source/Leases.antt =====
-- input_simulator/model_clock.py: a control lease is that of the last control command, for the source that it
-- asked for.
use hil_simulation.Common.{
  ℕ, ◌≡◌, refl, sym, ap, Bool, true, false, ◌&&◌, Option, some, none, List, arith, Option-cases,
  inl, inr, if◌then◌else◌, if-both, if-cases,
}
use hil_simulation.Common.Exec.{Keeps}
use hil_simulation.Runtime.Contract.{
  Message, Payload, session_open, session_opened, ack, resource_chunk, resource_ack, lifecycle,
  control_owner, session_close, status, measurement, other, Ack, OwnerCommand, ControlSource,
}
use hil_simulation.Gateway.Guards.Lifecycle.{source_eq_lem}
use hil_simulation.Simulator.Source.State.{Profile, Source, Snapshot, Lease}
use hil_simulation.Simulator.Source.Attempts.{claimed}
use hil_simulation.Simulator.Source.Feedback.{
  remember_feedback, remember_reply, remember_status, remember_epoch,
}
use hil_simulation.Simulator.Source.LeaseFeedback.{
  is_source, owner_matches, new_lease, remember_control_feedback, remember_control_reply,
  remember_input, check_source_status, drives, loses_lease, revoke_lease, remember_owner,
  grant_lease, grant_under, renew_lease, applied_consumer,
}
use hil_simulation.Simulator.Source.Operations.{Op, run}
use hil_simulation.Simulator.Source.Keeps.{Free, Free-Outer, run-Keeps}

abbrev pub LeaseOf : Option Lease → Option ControlSource → ℕ → Type 0
LeaseOf none wanted boundary = Unit
LeaseOf (some lease) wanted boundary =
    (wanted ≡ some lease.source) × (lease.owner_request.header.sequence ≡ boundary)

-- The lease is that of the last control command, and for the source that is waited for.
abbrev pub LeaseHolds : Source → Type 0
LeaseHolds s = LeaseOf s.control_lease s.control_requested_source s.control_boundary_sequence

&&-true : (a b : Bool) → (a && b) ≡ true → (a ≡ true) × (b ≡ true)
&&-true true b h = (refl, h)
&&-true false b h = cc

is_source_lem : (a : ControlSource) (o : Option ControlSource) → is_source a o ≡ true → o ≡ some a
is_source_lem a none h = cc
is_source_lem a (some b) h = ap (λ x. some x) (sym (source_eq_lem a b h))

module _ (u : Profile) where
  owner_matches_lem :
      (sent : Message) (a : Ack) (c : OwnerCommand) (seen : Snapshot) (i j : ℕ) (s : Source)
      → owner_matches u sent a c seen i j s ≡ true
      → (sent.header.sequence ≡ s.control_boundary_sequence)
        × (s.control_requested_source ≡ some c.source)
  owner_matches_lem sent a c seen i j s h =
      (ground (arith, h), is_source_lem c.source s.control_requested_source (ground (arith, h)))

  remember_reply-Keeps :
      (sent reply : Message) (p : Payload) (a b : ℕ)
      → Keeps LeaseHolds (remember_reply u sent reply p a b)
  unfolding remember_reply remember_status remember_epoch
  remember_reply-Keeps sent reply (status p) a b s h = ground (arith, h)
  remember_reply-Keeps sent reply (ack p) a b s h = ground (arith, h)
  remember_reply-Keeps sent reply (session_open _ _ _ _) a b s h = h
  remember_reply-Keeps sent reply (session_opened _) a b s h = h
  remember_reply-Keeps sent reply (resource_chunk _) a b s h = h
  remember_reply-Keeps sent reply (resource_ack _) a b s h = h
  remember_reply-Keeps sent reply (lifecycle _) a b s h = h
  remember_reply-Keeps sent reply (control_owner _) a b s h = h
  remember_reply-Keeps sent reply (session_close _) a b s h = h
  remember_reply-Keeps sent reply (measurement _) a b s h = h
  remember_reply-Keeps sent reply (other _) a b s h = h

  remember_feedback-Keeps :
      (sent reply : Message) (a b : ℕ) (is_fresh : Bool)
      → Keeps LeaseHolds (remember_feedback u sent reply a b is_fresh)
  unfolding remember_feedback
  remember_feedback-Keeps sent reply a b is_fresh s h =
      ground (arith, h, remember_reply-Keeps sent reply reply.payload a b s h)

  claimed-LeaseHolds : (m : Message) (s : Source) → LeaseHolds s → LeaseHolds (claimed m s)
  claimed-LeaseHolds m s h = ground (arith, h)

  grant_under-LeaseHolds :
      (sent reply : Message) (a : Ack) (c : OwnerCommand) (i j : ℕ) (o : Option Snapshot)
      (s : Source)
      → LeaseHolds s
      → LeaseHolds (grant_under u sent reply a c i j o s)
  unfolding grant_under
  grant_under-LeaseHolds sent reply a c i j none s h = h
  grant_under-LeaseHolds sent reply a c i j (some seen) s h =
      if-cases LeaseHolds (applied_consumer u 6 a s && owner_matches u sent a c seen i j s)
        (record s { control_lease = some (new_lease u sent reply c seen i j) }) s
        (λ granted.
          let (same, wanted) = owner_matches_lem sent a c seen i j s (&&-true _ _ granted).1 in
          (wanted, same))
        (λ refused. h)

  renew_lease-LeaseHolds :
      (sent reply : Message) (a : Ack) (i j : ℕ) (s : Source)
      → LeaseHolds s
      → LeaseHolds (renew_lease u sent reply a i j s)
  unfolding renew_lease
  renew_lease-LeaseHolds sent reply a i j s h = elim (Option-cases s.control_lease) [
    | inl e ↦ rw e tt
    | inr (lease, e) ↦ ground (arith, h, e)
  ]

  remember_owner-LeaseHolds :
      (sent reply : Message) (a : Ack) (p : Payload) (i j : ℕ) (s : Source)
      → LeaseHolds s
      → LeaseHolds (remember_owner u sent reply a p i j s)
  unfolding remember_owner grant_lease
  remember_owner-LeaseHolds sent reply a (control_owner c) i j s h =
      ground (arith, h, grant_under-LeaseHolds sent reply a c i j s.model_status s h)
  remember_owner-LeaseHolds sent reply a (session_open _ _ _ _) i j s h = h
  remember_owner-LeaseHolds sent reply a (session_opened _) i j s h = h
  remember_owner-LeaseHolds sent reply a (ack _) i j s h = h
  remember_owner-LeaseHolds sent reply a (resource_chunk _) i j s h = h
  remember_owner-LeaseHolds sent reply a (resource_ack _) i j s h = h
  remember_owner-LeaseHolds sent reply a (lifecycle _) i j s h = h
  remember_owner-LeaseHolds sent reply a (session_close _) i j s h = h
  remember_owner-LeaseHolds sent reply a (status _) i j s h = h
  remember_owner-LeaseHolds sent reply a (measurement _) i j s h = h
  remember_owner-LeaseHolds sent reply a (other _) i j s h = h

  remember_input-LeaseHolds :
      (sent reply : Message) (a : Ack) (i j : ℕ) (s : Source)
      → LeaseHolds s
      → LeaseHolds (remember_input u sent reply a i j s)
  unfolding remember_input
  remember_input-LeaseHolds sent reply a i j s h =
      let renewed = renew_lease u sent reply a i j s in
      let owned = remember_owner u sent reply a sent.payload i j s in
      let rest =
        if-both LeaseHolds (drives sent) renewed owned (renew_lease-LeaseHolds sent reply a i j s h)
          (remember_owner-LeaseHolds sent reply a sent.payload i j s h) in
      if-both LeaseHolds (loses_lease sent a) (revoke_lease sent.header.sequence s)
        (if drives sent then renewed else owned) tt rest

  remember_control_reply-LeaseHolds :
      (sent reply : Message) (p : Payload) (i j : ℕ) (s : Source)
      → LeaseHolds s
      → LeaseHolds (remember_control_reply u sent reply p i j s)
  unfolding remember_control_reply check_source_status
  remember_control_reply-LeaseHolds sent reply (status p) i j s h = ground (arith, h)
  remember_control_reply-LeaseHolds sent reply (ack a) i j s h =
      ground (arith, h, remember_input-LeaseHolds sent reply a i j s h)
  remember_control_reply-LeaseHolds sent reply (session_open _ _ _ _) i j s h = h
  remember_control_reply-LeaseHolds sent reply (session_opened _) i j s h = h
  remember_control_reply-LeaseHolds sent reply (resource_chunk _) i j s h = h
  remember_control_reply-LeaseHolds sent reply (resource_ack _) i j s h = h
  remember_control_reply-LeaseHolds sent reply (lifecycle _) i j s h = h
  remember_control_reply-LeaseHolds sent reply (control_owner _) i j s h = h
  remember_control_reply-LeaseHolds sent reply (session_close _) i j s h = h
  remember_control_reply-LeaseHolds sent reply (measurement _) i j s h = h
  remember_control_reply-LeaseHolds sent reply (other _) i j s h = h

  remember_control_feedback-LeaseHolds :
      (sent reply : Message) (i j : ℕ) (is_fresh : Bool) (s : Source)
      → LeaseHolds s
      → LeaseHolds (remember_control_feedback u sent reply i j is_fresh s)
  unfolding remember_control_feedback
  remember_control_feedback-LeaseHolds sent reply i j is_fresh s h =
      ground (arith, h, remember_control_reply-LeaseHolds sent reply reply.payload i j s h)

  lease_free : Free u LeaseHolds
  lease_free = record {
    inner = record {
      timed = λ now s h. h;
      claims = claimed-LeaseHolds;
      beat = λ last s h. h;
      told = remember_feedback-Keeps;
      controlled = remember_control_feedback-LeaseHolds;
      heard = λ m s h. h;
    };
    commits = λ header mid s h. h;
    recorded = λ m reply started completed s h. h;
    extended = λ deadline s h. h;
    stored = λ d m s h. h;
    drained = λ s h. h;
    can_claimed = λ a b s h. h;
  }

  pub run-LeaseHolds : (ops : List Op) (s : Source) → LeaseHolds s → LeaseHolds (run u ops s)
  run-LeaseHolds ops s h = run-Keeps u LeaseHolds (Free-Outer u LeaseHolds lease_free) ops s h
