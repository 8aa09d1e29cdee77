-- ===== src/Simulator/Source/Observed.antt =====
-- input_simulator/model_clock.py: `ObservedModelClock` and `ObservedControlLease`.
use hil_simulation.Common.{ℕ, Bool, true, ◌&&◌, not, Option, some, none, leb, ltb, ◌==◌}
use hil_simulation.Common.Result.{stale_session, clock_unsync, schema, state, authorization, Code}
use hil_simulation.Common.Exec.{Exec, ◌>>=◌, ◌>>◌, pure, gets, check, some_or}
use hil_simulation.Runtime.Contract.{
  ModelState, ControlSource, no_source, ControlLane, contains_id, is_value,
}
use hil_simulation.Gateway.Guards.{state_eq, source_eq}
use hil_simulation.Simulator.Source.State.{
  Profile, Source, Snapshot, Lease, clock, operation, max_counter,
}
use hil_simulation.Simulator.Source.Attempts.{holds_grant}
use hil_simulation.Simulator.Source.StatusView.{read_status}
use hil_simulation.Simulator.Source.LeaseFeedback.{lane_eq, is_driven}

abbrev pub expects_state : Option ModelState → ModelState → Bool
expects_state none now = true
expects_state (some wanted) now = state_eq now wanted

module _ (u : Profile) where
  unfoldable pub observed : ℕ → Exec Source Snapshot
  unfolding clock read_status
  observed now = do clock now; (λ s. (read_status u now s, s))

  -- `ObservedModelClock.snapshot`
  unfoldable pub snapshot : ℕ → Exec Source Snapshot
  unfolding operation observed
  snapshot now = operation (observed now)

  -- `ObservedModelClock.require_step`
  unfoldable pub require_step : ℕ → ℕ → Option ModelState → Exec Source Snapshot
  unfolding snapshot
  require_step now step required_state = do
    check (leb step max_counter) schema
    seen ← snapshot now
    check (seen.model_step == step) clock_unsync
    check (expects_state required_state seen.model_state) state
    pure seen

  -- The lease is that of this session and this Status, and nothing of the Status is against it.
  abbrev pub lease_holds : ℕ → Snapshot → Lease → Source → Bool
  lease_holds now seen lease s =
      is_value lease.session_id s.sid
      && lease.model_id == seen.model_id
      && ltb now lease.deadline_ns
      && is_driven seen.model_state
      && source_eq seen.status.status_source lease.source
      && not seen.status.safety_active

  -- `ObservedControlLease.snapshot`, which reads the clock twice. One owner calls it, so the Status is still
  -- the one that `require_step` returned. `controller` is the role "CONTROLLER".
  unfoldable pub lease_snapshot : ℕ → ℕ → ℕ → ℕ → Exec Source Lease
  unfolding require_step operation clock
  lease_snapshot controller now later step = do
    seen ← require_step now step none
    operation do
      clock later
      current ←
          gets (λ s.
            holds_grant later s && is_value seen.session_id s.sid && not s.model_clock_retired)
      check current stale_session
      check (ltb later seen.deadline_ns) clock_unsync
      found ← gets (λ s. s.control_lease)
      lease ← some_or Code.control_owner found
      holds ← gets (lease_holds later seen lease)
      check holds Code.control_owner
      permitted ← gets (λ s. contains_id controller s.roles)
      check permitted authorization
      pure lease

  -- `ObservedControlLease.require`
  pub require_lease : ℕ → ℕ → ℕ → ℕ → ControlSource → ControlLane → Exec Source Lease
  unfolding lease_snapshot
  require_lease controller now later step source lane = do
    check (not (source_eq source no_source)) schema
    lease ← lease_snapshot controller now later step
    check (source_eq lease.source source && lane_eq lease.input_lane lane) Code.control_owner
    pure lease
