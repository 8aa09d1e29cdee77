-- ===== src/Gateway/Guards/Tests.antt =====
-- icd_gateway/semantic_guards.py: a paused model that makes two steps, and one that is stopped.
use hil_simulation.Common.{◌≡◌, ◌↔◌, refl, true, false, some, [], ◌∷◌, ℕ_discrete, arith}
use hil_simulation.Common.Result.{ok}
use hil_simulation.Gateway.Guards.Ownership.{Owned, decide_owner-Owned}
use hil_simulation.Runtime.Contract.{
  OwnerCommand, control_owner, px4_sitl, controller_role, manual, flight_control, Message, to_36,
  LifecycleCommand, Action, lifecycle, step, stop, paused, stopped, no_source, validate_message,
  entry, find_entry, validate_header, validate_payload, session_rule, contains_id, has_transport,
}
use hil_simulation.Runtime.Wire.Tests.{command, catalogue, header}
use hil_simulation.Gateway.Guards.{
  OwnerDecision, decide_owner, check_grant, Gate, ModelView, LifecycleDecision, check_message,
  decide_lifecycle, target, plan_steps, transition, steps_from,
}
use hil_simulation.Gateway.Guards.Lifecycle.{present}
use hil_simulation.Gateway.Guards.Decision.{
  IsLegal, decide_lifecycle-iff-IsLegal, decide_lifecycle-stop,
}

abbrev gate : Gate
gate = record {
  contract = record catalogue { messages = record command { id = 4 } ∷ [] };
  models = 1 ∷ [];
  max_ahead_steps = 1000;
  control_timeout_ms = 100;
  quadrotor = 2;
}

abbrev view : ModelView
view = record {
  model_id = 1;
  state = paused;
  model_step = 100;
  max_duration_steps = 6000;
  control_source = no_source;
  physical_closed_loop = false;
  configured_once = true;
}

abbrev order : Action → LifecycleCommand
order action = record { action = action; expected_state = paused; step_count = 2 }

abbrev ordered : Action → Message
ordered action = record { message_id = 4; header = header; payload = lifecycle (order action) }

abbrev two_steps : LifecycleDecision
two_steps = record {
  next_state = paused;
  target_step = 100;
  steps = 101 ∷ 102 ∷ [];
  clear_queues = true;
  safe_outputs = true;
  revoke_control = true;
  new_session = false;
  restore_initial = false;
}

abbrev halt : LifecycleDecision
halt = record two_steps { next_state = stopped; steps = [] }

-- STEP at step 100 runs the steps 101 and 102.
decides_steps : decide_lifecycle gate (ordered step) view ≡ ok two_steps
unfolding decide_lifecycle check_message target plan_steps transition steps_from validate_message
    entry find_entry validate_header validate_payload session_rule contains_id has_transport
    ℕ_discrete
decides_steps = refl

stop_valid : validate_message gate.contract (some to_36) (some view.model_id) (ordered stop) ≡ ok tt
unfolding validate_message entry find_entry validate_header validate_payload session_rule
    contains_id has_transport ℕ_discrete
stop_valid = refl

stop_known : contains_id view.model_id gate.models ≡ true
unfolding contains_id
stop_known = refl

decide_lifecycle-iff-IsLegal_example :
    (decide_lifecycle gate (ordered step) view ≡ ok two_steps)
    ↔ IsLegal gate (ordered step) view two_steps
decide_lifecycle-iff-IsLegal_example =
    decide_lifecycle-iff-IsLegal gate (ordered step) view two_steps

decide_lifecycle-stop_example : decide_lifecycle gate (ordered stop) view ≡ ok halt
decide_lifecycle-stop_example =
    decide_lifecycle-stop gate (ordered stop) view (order stop)
      (record { known = stop_known; valid = stop_valid; kind = refl }) refl refl refl (cc) (cc)
      (present (λ e. cc) refl (omega arith))

abbrev owner_gate : Gate
owner_gate = record gate {
  contract = record catalogue { messages = record command { id = 6 } ∷ [] };
}

abbrev take_over : OwnerCommand
take_over = record {
  source = px4_sitl;
  role = controller_role;
  mode = manual;
  input_lane = flight_control;
}

abbrev taking : Message
taking = record { message_id = 6; header = header; payload = control_owner take_over }

abbrev owned : OwnerDecision
owned = record {
  source = px4_sitl;
  role = controller_role;
  mode = manual;
  input_lane = flight_control;
  lease_ms = 100;
  clear_queues = true;
  safe_outputs = true;
  revoke_control = true;
}

decides_owner : decide_owner owner_gate taking view px4_sitl true false ≡ ok owned
unfolding decide_owner check_message check_grant target validate_message entry find_entry
    validate_header validate_payload session_rule contains_id has_transport ℕ_discrete
decides_owner = refl

decide_owner-Owned_example : Owned owner_gate view px4_sitl true false owned
decide_owner-Owned_example =
    decide_owner-Owned owner_gate view px4_sitl true false taking owned decides_owner
