-- ===== src/Simulator/Source/HeldLease.antt =====
-- input_simulator/model_clock.py: `ObservedControlLease.snapshot` after any operations of a session.
use hil_simulation.Common.{
  ℕ, Bool, true, false, ◌&&◌, not, ◌≡◌, refl, subst, Option, some, none, List, arith, ◌<◌, leb, ltb,
  ◌==◌,
}
use hil_simulation.Common.Result.{
  Code, ok, ok-injective, stale_session, clock_unsync, schema, state, authorization,
}
use hil_simulation.Common.Exec.{
  Exec, ◌>>=◌, ◌>>◌, pure, gets, check, modify, some_or, Keeps, Keeps-bind, Keeps-check,
  Keeps-some_or, bind-eq-ok,
}
use hil_simulation.Runtime.Contract.{ControlSource, contains_id, is_value}
use hil_simulation.Simulator.Source.State.{
  Profile, Source, Snapshot, Lease, clock, operation, max_counter,
}
use hil_simulation.Simulator.Source.Attempts.{holds_grant}
use hil_simulation.Simulator.Source.Observed.{
  observed, snapshot, require_step, lease_holds, lease_snapshot,
}
use hil_simulation.Simulator.Source.Operations.{Op, run}
use hil_simulation.Simulator.Source.Leases.{LeaseOf, LeaseHolds, run-LeaseHolds}

-- What holds of the value that an action returns.
abbrev Yields : {S A : Type 0} → (S → Type 0) → (A → Type 0) → Exec S A → Type 0
Yields {S} {A} P Q m = (s : S) → P s → (a : A) → (m s).0 ≡ ok a → Q a

module _ {S A : Type 0} (P : S → Type 0) (Q : A → Type 0) where
  Yields-check :
      (b : Bool) (code : Code) (m : Exec S A)
      → (b ≡ true → Yields P Q m)
      → Yields P Q (check b code >> m)
  Yields-check true code m y s h a done = y refl s h a done
  Yields-check false code m y s h a done = cc

  Yields-bind :
      {B : Type 0} (first : Exec S B) (next : B → Exec S A)
      → Keeps P first
      → ((b : B) → Yields P Q (next b))
      → Yields P Q (first >>= next)
  Yields-bind first next kept y s h a done =
      let (b, _, rest, _) = bind-eq-ok first next s done in y b (first s).1 (kept s h) a rest

some_or_lem :
    {S A : Type 0} (code : Code) (o : Option A) (s : S) {a : A}
    → (some_or code o s).0 ≡ ok a
    → o ≡ some a
some_or_lem code none s h = cc
some_or_lem code (some a) s h = cc

module _ (u : Profile) (wanted : Option ControlSource) (boundary : ℕ) where
  abbrev Held : Source → Type 0
  Held s = LeaseOf s.control_lease wanted boundary

  abbrev Granted : ℕ → Lease → Type 0
  Granted later lease = LeaseOf (some lease) wanted boundary × (later < lease.deadline_ns)

  clock-Held : (now : ℕ) → Keeps Held (clock now)
  unfolding clock
  clock-Held now s h =
      Keeps-check Held (leb now 0xffffffffffffffff && leb s.last_now now) schema
        (modify (λ s. record s { last_now = now })) (λ s h. h) s h

  snapshot-Held : (now : ℕ) → Keeps Held (snapshot u now)
  unfolding snapshot observed operation
  snapshot-Held now s h =
      Keeps-check Held (not s.closed) state (observed u now)
        (Keeps-bind {B = Snapshot} Held (clock now) _ (clock-Held now) (λ _ s h. h)) s h

  require_step-Held : (now step : ℕ) → Keeps Held (require_step u now step none)
  unfolding require_step
  require_step-Held now step = Keeps-check Held (leb step max_counter) schema _ (
      Keeps-bind Held (snapshot u now) _ (snapshot-Held now)
        (λ seen. Keeps-check Held (seen.model_step == step) clock_unsync _ (λ s h. h)))

  abbrev returned : ℕ → ℕ → Snapshot → Lease → Exec Source Lease
  returned controller later seen lease = do
    holds ← gets (lease_holds u later seen lease)
    check holds Code.control_owner
    permitted ← gets (λ s. contains_id controller s.roles)
    check permitted authorization
    pure lease

  later_lt :
      (later : ℕ) (seen : Snapshot) (l : Lease) (s : Source)
      → lease_holds u later seen l s ≡ true
      → later < l.deadline_ns
  later_lt later seen l s passed = ground (arith, passed)

  returned-eq :
      (controller later : ℕ) (seen : Snapshot) (l : Lease)
      → LeaseOf (some l) wanted boundary
      → Yields Held (Granted later) (returned controller later seen l)
  returned-eq controller later seen l g t h a done =
      Yields-check Held (Granted later) (lease_holds u later seen l t) Code.control_owner _
        (λ passed s h.
          Yields-check Held (Granted later) (contains_id controller s.roles) authorization (pure l)
            (λ _ s h a done.
              subst (Granted later) (ok-injective done) (g, later_lt later seen l t passed))
            s h)
        t h a done

  some_or-Granted :
      (controller later : ℕ) (seen : Snapshot) (s : Source) (lease : Lease)
      → Held s
      → ((some_or Code.control_owner s.control_lease >>= returned controller later seen) s).0
        ≡ ok lease
      → Granted later lease
  some_or-Granted controller later seen s lease h done =
      let (l, found, rest, _) =
        bind-eq-ok (some_or Code.control_owner s.control_lease) (returned controller later seen) s
          done in
      let g : LeaseOf (some l) wanted boundary =
        subst (λ o. LeaseOf o wanted boundary)
          (some_or_lem Code.control_owner s.control_lease s found) h in
      returned-eq controller later seen l g (some_or Code.control_owner s.control_lease s).1
        (Keeps-some_or Held Code.control_owner s.control_lease s h) lease rest

  lease_snapshot-Granted :
      (controller now later step : ℕ)
      → Yields Held (Granted later) (lease_snapshot u controller now later step)
  unfolding lease_snapshot operation
  lease_snapshot-Granted controller now later step =
      Yields-bind Held (Granted later) (require_step u now step none) _ (require_step-Held now step)
        (λ seen s h.
          Yields-check Held (Granted later) (not s.closed) state _
            (λ _. Yields-bind Held (Granted later) (clock later) _ (clock-Held later) (λ _ s h.
              Yields-check Held (Granted later)
                (holds_grant later s && is_value seen.session_id s.sid && not s.model_clock_retired)
                stale_session _
                (λ _.
                  Yields-check Held (Granted later) (ltb later seen.deadline_ns) clock_unsync _
                    (λ _ s h lease done. some_or-Granted controller later seen s lease h done))
                s h))
            s h)

pub lease_snapshot-run :
    (u : Profile) (ops : List Op) (controller now later step : ℕ) (s : Source) (lease : Lease)
    → LeaseHolds s
    → (lease_snapshot u controller now later step (run u ops s)).0 ≡ ok lease
    → ((run u ops s).control_requested_source ≡ some lease.source)
      × (lease.owner_request.header.sequence ≡ (run u ops s).control_boundary_sequence)
      × (later < lease.deadline_ns)
lease_snapshot-run u ops controller now later step s lease h done =
    let (held, live) =
      lease_snapshot-Granted u (run u ops s).control_requested_source
        (run u ops s).control_boundary_sequence controller now later step (run u ops s)
        (run-LeaseHolds u ops s h) lease done in
    (held.0, held.1, live)
