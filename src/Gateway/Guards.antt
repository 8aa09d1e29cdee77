-- ===== src/Gateway/Guards.antt =====
-- icd_gateway/semantic_guards.py: the decisions on lifecycle commands, control ownership and cleanup.
pub mod Lifecycle
pub mod Decision
pub mod Ownership
pub mod External
mod Tests
use hil_simulation.Common.{
  ℕ, zero, suc, ◌+◌, ◌-◌, Bool, true, false, ◌&&◌, ◌||◌, not, Option, some, none, List, [], ◌∷◌,
  leb, ltb, ◌==◌, if◌then◌else◌,
}
use hil_simulation.Common.Result.{
  Code, Result, ok, err, ◌>>=◌, ◌>>◌, require, schema, unsupported, authorization, model, state,
  late, range, target_missing, hash, key_error,
}
use hil_simulation.Runtime.Contract.{
  Contract, Identity, Message, Payload, lifecycle, control_owner, session_close, to_36,
  LifecycleCommand, OwnerCommand, ModelState, configured, running, paused, stopped, model_failed,
  Action, start, pause, resume, stop, reset, step, ControlSource, no_source, demo_mission, px4_sitl,
  physical_uut, ControlRole, stimulus_role, controller_role, ControlMode, ControlLane,
  internal_controller, flight_control, actuator, contains_id, validate_message,
}

-- `ModelView`; a model's identity is a number.
pub record ModelView : Type 0 where
  pub model_id : ℕ
  pub state : ModelState
  pub model_step : ℕ
  pub max_duration_steps : ℕ
  pub control_source : ControlSource
  pub physical_closed_loop : Bool
  pub configured_once : Bool

pub record LifecycleDecision : Type 0 where
  pub next_state : ModelState
  pub target_step : ℕ
  pub steps : List ℕ
  pub clear_queues : Bool
  pub safe_outputs : Bool
  pub revoke_control : Bool
  pub new_session : Bool
  pub restore_initial : Bool

pub record OwnerDecision : Type 0 where
  pub source : ControlSource
  pub role : ControlRole
  pub mode : ControlMode
  pub input_lane : ControlLane
  pub lease_ms : ℕ
  pub clear_queues : Bool
  pub safe_outputs : Bool
  pub revoke_control : Bool

-- `CLEANUP_OPERATIONS`, in the order in which a consumer must do them.
pub data Cleanup : Type 0 where
  stop_periodic_senders stop_replay stop_video safe_actuators release_control : Cleanup
  flush_receive_queues clear_model_faults clear_bus_faults close_session : Cleanup

abbrev pub cleanup_operations : List Cleanup
cleanup_operations =
    stop_periodic_senders ∷ stop_replay ∷ stop_video ∷ safe_actuators ∷ release_control
    ∷ flush_receive_queues ∷ clear_model_faults ∷ clear_bus_faults ∷ close_session ∷ []

pub record CleanupDecision : Type 0 where
  pub session_id : ℕ
  pub target_step : ℕ
  pub reason : Option ℕ
  pub operations : List Cleanup

abbrev pub state_code : ModelState → ℕ
state_code configured = 0
state_code running = 1
state_code paused = 2
state_code stopped = 3
state_code model_failed = 4

abbrev pub state_eq : ModelState → ModelState → Bool
state_eq a b = state_code a == state_code b

abbrev pub source_code : ControlSource → ℕ
source_code no_source = 0
source_code demo_mission = 1
source_code px4_sitl = 2
source_code physical_uut = 3

abbrev pub source_eq : ControlSource → ControlSource → Bool
source_eq a b = source_code a == source_code b

-- `transitions[action][state]`
pub transition : Action → ModelState → Option ModelState
transition start configured = some running
transition pause running = some paused
transition resume paused = some running
transition stop configured = some stopped
transition stop running = some stopped
transition stop paused = some stopped
transition reset paused = some configured
transition reset stopped = some configured
transition step paused = some paused
transition _ _ = none

-- `action in ("START", "RESUME", "RESET", "STEP")`
abbrev pub needs_configuration : Action → Bool
needs_configuration start = true
needs_configuration resume = true
needs_configuration reset = true
needs_configuration step = true
needs_configuration _ = false

abbrev pub is_start : Action → Bool
is_start start = true
is_start _ = false

abbrev pub is_step : Action → Bool
is_step step = true
is_step _ = false

abbrev pub is_reset : Action → Bool
is_reset reset = true
is_reset _ = false

abbrev pub is_resume : Action → Bool
is_resume resume = true
is_resume _ = false

-- The state after an action, where the table has one.
abbrev pub next_state_of : Action → ModelState → Result ModelState
next_state_of action now = elim (transition action now) [ none ↦ err state | some s ↦ ok s ]

-- The decision at the end of `lifecycle`.
abbrev pub decision_of : Action → ModelState → ℕ → List ℕ → LifecycleDecision
decision_of action next at planned = record {
  next_state = next;
  target_step = at;
  steps = planned;
  clear_queues = not (is_start action);
  safe_outputs = not (is_start action);
  revoke_control = not (is_start action);
  new_session = is_reset action || is_resume action;
  restore_initial = is_reset action;
}

-- `range(first, first + count)`
pub steps_from : ℕ → ℕ → List ℕ
steps_from first zero = []
steps_from first (suc count) = first ∷ steps_from (first + 1) count

-- What the guards are built with: the contract, `contract.entry(3)["model_ids"]`, two limits of the
-- policy, and the number of the model "quadrotor_hil".
pub record Gate : Type 0 where
  pub contract : Contract
  pub models : List ℕ
  pub max_ahead_steps : ℕ
  pub control_timeout_ms : ℕ
  pub quadrotor : ℕ

module _ (g : Gate) where
  -- `ModelView.__post_init__`, past the types.
  abbrev pub view_ok : ModelView → Bool
  view_ok view =
      leb 1 view.max_duration_steps
      && leb view.max_duration_steps 86_400_000
      && leb view.model_step view.max_duration_steps

  -- `_message`
  pub check_message : Message → ModelView → ℕ → Result (Unit {0})
  check_message m view mid = do
    require (contains_id view.model_id g.models) model
    validate_message g.contract (some to_36) (some view.model_id) m
    require (m.message_id == mid) unsupported

  -- `_target`
  pub target : Message → ModelView → Result ℕ
  target m view = do
    let at = m.header.target_step
    require (leb at view.max_duration_steps) range
    if state_eq view.state running
        then (require (ltb view.model_step at) late
            >> require (leb (at - view.model_step) g.max_ahead_steps) range)
        else require (at == view.model_step) state
    ok at

  abbrev pub command_of : Payload → Result LifecycleCommand
  command_of (lifecycle c) = ok c
  command_of _ = err key_error

  -- The steps of a STEP action.
  pub plan_steps : Action → ModelView → ℕ → Result (List ℕ)
  plan_steps action view count =
      if is_step action
      then (require (not view.physical_closed_loop) unsupported
          >> (require (source_eq view.control_source no_source) Code.control_owner
              >> (require (leb (view.model_step + count) view.max_duration_steps) range
                  >> ok (steps_from (view.model_step + 1) count))))
      else ok []

  pub decide_lifecycle : Message → ModelView → Result LifecycleDecision
  decide_lifecycle m view = do
    check_message m view 4
    c ← command_of m.payload
    require (state_eq c.expected_state view.state) state
    next ← next_state_of c.action view.state
    require (not (needs_configuration c.action) || view.configured_once) state
    at ← target m view
    steps ← plan_steps c.action view c.step_count
    ok (decision_of c.action next at steps)

  abbrev pub owner_of : Payload → Result OwnerCommand
  owner_of (control_owner c) = ok c
  owner_of _ = err key_error

  abbrev pub is_controller : ControlRole → Bool
  is_controller controller_role = true
  is_controller stimulus_role = false

  abbrev pub is_internal : ControlLane → Bool
  is_internal internal_controller = true
  is_internal _ = false

  -- The tests of a command that grants or switches control. `has_controller` is
  -- `"CONTROLLER" in controller_session_roles`.
  unfoldable pub check_grant :
      OwnerCommand → ModelView → ControlSource → Bool → Bool → Result (Unit {0})
  check_grant c view declared has_controller internal_ready = do
    require (state_eq view.state paused) state
    require (not (source_eq c.source demo_mission) || view.model_id == g.quadrotor) unsupported
    require (source_eq c.source declared && is_controller c.role) Code.control_owner
    if is_internal c.input_lane
        then require internal_ready target_missing
        else require has_controller authorization

  pub decide_owner : Message → ModelView → ControlSource → Bool → Bool → Result OwnerDecision
  decide_owner m view declared has_controller internal_ready = do
    check_message m view 6
    c ← owner_of m.payload
    require (not (state_eq view.state model_failed)) state
    if source_eq c.source no_source
        then ok tt
        else check_grant c view declared has_controller internal_ready
    at ← target m view
    ok (record {
      source = c.source;
      role = c.role;
      mode = c.mode;
      input_lane = c.input_lane;
      lease_ms = if source_eq c.source no_source then 0 else g.control_timeout_ms;
      clear_queues = true;
      safe_outputs = true;
      revoke_control = true;
    })

  abbrev pub reason_of : Payload → Option ℕ
  reason_of (session_close reason) = some reason
  reason_of _ = none

  pub decide_cleanup : Message → ModelView → Result CleanupDecision
  decide_cleanup m view = do
    check_message m view m.message_id
    require (m.message_id == 37 || m.message_id == 38) unsupported
    at ← (if m.message_id == 37 then target m view else ok view.model_step)
    ok (record {
      session_id = m.header.session_id;
      target_step = at;
      reason = if m.message_id == 38 then reason_of m.payload else none;
      operations = cleanup_operations;
    })
