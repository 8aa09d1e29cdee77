-- ===== src/Simulator/Source/StatusView.antt =====
-- input_simulator/model_clock.py: the tests of `ObservedModelClock.snapshot`.
use hil_simulation.Common.{
  ℕ, ◌≤◌, ◌≡◌, ap, subst, ◌∙◌, ◌&&◌, not, Option, some, none, leb, ltb, leb→le, ◌==◌,
}
use hil_simulation.Common.Result.{
  Result, ok, err, ◌>>=◌, ◌>>◌, require, require-eq-ok, >>=-eq-ok, ok-injective, stale_session,
  target_missing, expired, clock_unsync,
}
use hil_simulation.Runtime.Contract.{is_value}
use hil_simulation.Simulator.Source.State.{Profile, Source, Snapshot}
use hil_simulation.Simulator.Source.Attempts.{holds_grant}

abbrev pub known_status : Option Snapshot → Result Snapshot
known_status none = err target_missing
known_status (some seen) = ok seen

known_status_lem :
    (o : Option Snapshot) {seen : Snapshot} → known_status o ≡ ok seen → o ≡ some seen
known_status_lem none h = cc
known_status_lem (some seen) h = cc

module _ (u : Profile) (now : ℕ) where
  abbrev check_status : Source → Snapshot → Result Snapshot
  check_status s seen = do
    require (is_value seen.session_id s.sid && seen.model_id == u.identity.model_id) stale_session
    require (ltb now seen.deadline_ns) expired
    require (leb s.model_step_floor seen.model_step) clock_unsync
    ok seen

  -- What is read at a time, from the state.
  unfoldable pub read_status : Source → Result Snapshot
  read_status s = do
    require (holds_grant now s && not s.model_clock_retired) stale_session
    seen ← known_status s.model_status
    check_status s seen

  -- A Status that is read is the remembered one, and is not below the floor.
  pub read_status_lem :
      (s : Source) (seen : Snapshot)
      → read_status s ≡ ok seen
      → (s.model_status ≡ some seen) × (s.model_step_floor ≤ seen.model_step)
  unfolding read_status
  read_status_lem s seen done =
      let (a, h1) =
        require-eq-ok (holds_grant now s && not s.model_clock_retired) stale_session _ done in
      let (x, found, h2) = >>=-eq-ok (known_status s.model_status) (check_status s) h1 in
      let (b, h3) =
        require-eq-ok (is_value x.session_id s.sid && x.model_id == u.identity.model_id)
          stale_session _ h2 in
      let (c, h4) = require-eq-ok (ltb now x.deadline_ns) expired _ h3 in
      let (d, h5) = require-eq-ok (leb s.model_step_floor x.model_step) clock_unsync _ h4 in
      let same : x ≡ seen = ok-injective h5 in
      (
        known_status_lem s.model_status found ∙ ap (λ y. some y) same,
        subst (λ y. s.model_step_floor ≤ y.model_step) same (leb→le _ _ d),
      )
