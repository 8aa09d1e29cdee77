-- ===== src/Gateway/Guards/Ownership.antt =====
-- icd_gateway/semantic_guards.py: what `control_owner` grants.
use hil_simulation.Common.{
  ◌≡◌, refl, subst, Bool, true, false, ◌&&◌, ◌||◌, not, ◌==◌, Bool-cases, inl, inr, if◌then◌else◌,
}
use hil_simulation.Common.Result.{
  Code, ok, require, >>=-eq-ok, require-eq-ok, ok-injective, state, unsupported, target_missing,
  authorization,
}
use hil_simulation.Runtime.Contract.{
  Message, OwnerCommand, paused, model_failed, ControlSource, no_source, demo_mission, ControlRole,
  controller_role, stimulus_role,
}
use hil_simulation.Gateway.Guards.{
  Gate, ModelView, OwnerDecision, state_eq, source_eq, is_controller, is_internal, owner_of,
  check_message, check_grant, target, decide_owner,
}
use hil_simulation.Gateway.Guards.Lifecycle.{state_eq_lem, source_eq_lem}

-- A decision releases control, or grants it to the declared source, as a controller, of a paused model,
-- over a lane that has its consumer or its session.
pub data Owned (g : Gate) (view : ModelView) (declared : ControlSource)
    (has_controller ready : Bool) : OwnerDecision → Type 0 where
  released :
      {d : OwnerDecision}
      → d.source ≡ no_source
      → d.lease_ms ≡ 0
      → Owned g view declared has_controller ready d
  granted :
      {d : OwnerDecision}
      → view.state ≡ paused
      → d.source ≡ declared
      → d.role ≡ controller_role
      → (if is_internal g d.input_lane then ready else has_controller) ≡ true
      → d.lease_ms ≡ g.control_timeout_ms
      → Owned g view declared has_controller ready d

is_controller_lem : (g : Gate) (r : ControlRole) → is_controller g r ≡ true → r ≡ controller_role
is_controller_lem g controller_role h = refl
is_controller_lem g stimulus_role h = cc

&&-true : (a b : Bool) → (a && b) ≡ true → (a ≡ true) × (b ≡ true)
&&-true true b h = (refl, h)
&&-true false b h = cc

lane-ok :
    (b ready has_controller : Bool)
    → (if b then require ready target_missing else require has_controller authorization) ≡ ok tt
    → (if b then ready else has_controller) ≡ true
lane-ok true true has_controller h = refl
lane-ok true false has_controller h = cc
lane-ok false ready true h = refl
lane-ok false ready false h = cc

module _ (g : Gate) (view : ModelView) (declared : ControlSource)
    (has_controller ready : Bool) where
  check_grant_lem :
      (c : OwnerCommand)
      → check_grant g c view declared has_controller ready ≡ ok tt
      → (view.state ≡ paused)
        × (c.source ≡ declared)
        × (c.role ≡ controller_role)
        × ((if is_internal g c.input_lane then ready else has_controller) ≡ true)
  unfolding check_grant
  check_grant_lem c done =
      let (stopped_now, h1) = require-eq-ok (state_eq view.state paused) state _ done in
      let (defined, h2) =
        require-eq-ok (not (source_eq c.source demo_mission) || view.model_id == g.quadrotor)
          unsupported _ h1 in
      let (both, h3) =
        require-eq-ok (source_eq c.source declared && is_controller g c.role) Code.control_owner _
          h2 in
      let (same, role) = &&-true _ _ both in
      (
        state_eq_lem _ _ stopped_now,
        source_eq_lem _ _ same,
        is_controller_lem g c.role role,
        lane-ok _ _ _ h3,
      )

  -- A control decision releases control, or grants it with the lease of the policy to the declared
  -- source, as a controller, of a paused model, over a lane whose internal controller is ready or
  -- whose producer has a controller session.
  pub decide_owner-Owned :
      (m : Message) (d : OwnerDecision)
      → decide_owner g m view declared has_controller ready ≡ ok d
      → Owned g view declared has_controller ready d
  unfolding decide_owner
  decide_owner-Owned m d done =
      let (a, checked, h1) = >>=-eq-ok (check_message g m view 6) _ done in
      let (c, carried, h2) = >>=-eq-ok (owner_of g m.payload) _ h1 in
      let (alive, h3) = require-eq-ok (not (state_eq view.state model_failed)) state _ h2 in
      let none_now = source_eq c.source no_source in
      let (b, allowed, h4) =
        >>=-eq-ok (if none_now then ok tt else check_grant g c view declared has_controller ready) _
          h3 in
      let (at, aimed, h5) = >>=-eq-ok (target g m view) _ h4 in
      subst (Owned g view declared has_controller ready) (ok-injective h5)
        (elim (Bool-cases none_now) [
          | inl p ↦ released (source_eq_lem _ _ p) (rw p refl)
          | inr p ↦
              let facts = check_grant_lem c (rw p at allowed) in
              granted facts.0 facts.1 facts.2 facts.3 (rw p refl)
        ])
