-- ===== src/Simulator/Source/LeaseFeedback.antt =====
-- input_simulator/model_clock.py: `_remember_control_feedback`, which grants, renews and revokes the observed
-- control lease.
use hil_simulation.Common.{
  ℕ, ◌+◌, ◌*◌, Bool, true, false, ◌&&◌, ◌||◌, not, Option, some, none, leb, ltb, ◌==◌, max,
  if◌then◌else◌,
}
use hil_simulation.Common.Result.{ok, err}
use hil_simulation.Runtime.Contract.{
  Message, Payload, Ack, Status, OwnerCommand, ack, status, control_owner, ControlSource,
  ControlLane, ControlRole, controller_role, stimulus_role, no_source, demo_mission,
  internal_controller, flight_control, actuator, ModelState, paused, running, is_failed,
}
use hil_simulation.Gateway.Guards.{state_eq, source_eq}
use hil_simulation.Simulator.Source.State.{Profile, Probe, Source, Snapshot, Lease}
use hil_simulation.Simulator.Source.Attempts.{implements}
use hil_simulation.Simulator.Source.Feedback.{
  is_applied, is_validated, find_probe, publishes, concerns,
}

abbrev pub is_source : ControlSource → Option ControlSource → Bool
is_source a none = false
is_source a (some b) = source_eq a b

abbrev pub lane_code : ControlLane → ℕ
lane_code internal_controller = 0
lane_code flight_control = 1
lane_code actuator = 2

abbrev pub lane_eq : ControlLane → ControlLane → Bool
lane_eq a b = lane_code a == lane_code b

-- `state in ('PAUSED', 'RUNNING')`
abbrev pub is_driven : ModelState → Bool
is_driven now = state_eq now paused || state_eq now running

-- The messages that drive the flight control, and those that drive the actuators.
abbrev pub to_flight_control : ℕ → Bool
to_flight_control mid = mid == 7 || mid == 8 || mid == 9

abbrev pub to_actuator : ℕ → Bool
to_actuator mid = mid == 14 || mid == 15 || mid == 16

abbrev pub lane_of_input : ℕ → ControlLane
lane_of_input mid = if to_flight_control mid then flight_control else actuator

abbrev pub is_control_input : ℕ → Bool
is_control_input mid = mid == 6 || to_flight_control mid || to_actuator mid

abbrev pub consumes_message : ℕ → Probe → Bool
consumes_message mid p = elim p.consumes [ none ↦ false | some n ↦ n == mid ]

-- `_applied_consumer`; the catalogue has a probe for every message that is asked for.
pub applied_consumer : Profile → ℕ → Ack → Source → Bool
unfolding find_probe
applied_consumer u mid a s = elim (find_probe (consumes_message mid) u.probe_catalog) [
  | err code ↦ false
  | ok probe ↦
      is_applied a.stage
      && a.ok_error
      && a.probe_id == probe.id
      && publishes s.capabilities probe.name
]

-- The lease is lost, and no source is waited for.
abbrev pub revoke_lease : ℕ → Source → Source
revoke_lease sequence s = record s {
  control_lease = none;
  control_requested_source = none;
  control_boundary_sequence = max s.control_boundary_sequence sequence;
}

-- A Status that contradicts the requested source.
abbrev pub contradicts : Status → Source → Bool
contradicts p s = elim s.control_requested_source [
  | none ↦ false
  | some wanted ↦
      not (source_eq p.status_source wanted) || p.safety_active || not (is_driven p.status_state)
]

unfoldable pub check_source_status : Message → Status → Source → Source
check_source_status request p s =
    if contradicts p s then revoke_lease request.header.sequence s else s

abbrev pub is_controller_role : ControlRole → Bool
is_controller_role controller_role = true
is_controller_role stimulus_role = false

-- The tests of a ControlOwner acknowledgement, of the session and of the observed Status.
abbrev pub owner_matches : Profile → Message → Ack → OwnerCommand → Snapshot → ℕ → ℕ → Source → Bool
owner_matches u request a c seen started completed s =
    request.header.sequence == s.control_boundary_sequence
    && is_source c.source s.control_requested_source
    && a.applied_step == request.header.target_step
    && ltb completed (started + u.control_timeout_ms * 1_000_000)
    && state_eq seen.model_state paused
    && ltb completed seen.deadline_ns
    && not seen.status.safety_active
    && seen.model_step == request.header.target_step
    && not (source_eq c.source no_source)
    && is_controller_role c.role
    && not (source_eq c.source demo_mission && not (seen.model_id == u.quadrotor))

abbrev pub new_lease : Profile → Message → Message → OwnerCommand → Snapshot → ℕ → ℕ → Lease
new_lease u request reply c seen started completed = record {
  session_id = request.header.session_id;
  model_id = seen.model_id;
  source = c.source;
  role = c.role;
  input_lane = c.input_lane;
  mode = c.mode;
  owner_started_ns = started;
  owner_completed_ns = completed;
  deadline_ns = started + u.control_timeout_ms * 1_000_000;
  owner_request = request;
  owner_reply = reply;
  lease_started_ns = started;
  lease_completed_ns = completed;
  lease_request = request;
  lease_reply = reply;
}

-- What the acknowledgement of message 6 does under the observed Status.
unfoldable pub grant_under :
    Profile → Message → Message → Ack → OwnerCommand → ℕ → ℕ → Option Snapshot → Source → Source
unfolding applied_consumer
grant_under u request reply a c started completed none s = s
grant_under u request reply a c started completed (some seen) s =
    if applied_consumer u 6 a s && owner_matches u request a c seen started completed s
    then record s { control_lease = some (new_lease u request reply c seen started completed) }
    else s

-- The acknowledgement of message 6.
unfoldable pub grant_lease :
    Profile → Message → Message → Ack → OwnerCommand → ℕ → ℕ → Source → Source
unfolding grant_under
grant_lease u request reply a c started completed s =
    grant_under u request reply a c started completed s.model_status s

-- The tests of the acknowledgement of an input under a lease.
abbrev pub renews : Message → Ack → Lease → Bool → ℕ → ℕ → Bool
renews request a lease is_applied started completed =
    lane_eq (lane_of_input request.message_id) lease.input_lane
    && ltb completed lease.deadline_ns
    && leb lease.lease_started_ns started
    && ltb lease.lease_request.header.sequence request.header.sequence
    && a.ok_error
    && (is_validated a.stage || is_applied)
    && (is_validated a.stage || a.applied_step == request.header.target_step)

-- The lease, as an input at this time renews it.
abbrev pub renewed_lease : Profile → Message → Message → ℕ → ℕ → Lease → Lease
renewed_lease u request reply started completed lease = record lease {
  deadline_ns = started + u.control_timeout_ms * 1_000_000;
  lease_started_ns = started;
  lease_completed_ns = completed;
  lease_request = request;
  lease_reply = reply;
}

unfoldable pub renew_lease : Profile → Message → Message → Ack → ℕ → ℕ → Source → Source
unfolding applied_consumer
renew_lease u request reply a started completed s = elim s.control_lease [
  | none ↦ s
  | some lease ↦
      if renews request a lease (applied_consumer u request.message_id a s) started completed
      then record s { control_lease = some (renewed_lease u request reply started completed lease) }
      else s
]

-- The acknowledgement of an input that is neither refused nor under a lease: that of message 6.
unfoldable pub remember_owner :
    Profile → Message → Message → Ack → Payload → ℕ → ℕ → Source → Source
unfolding grant_lease
remember_owner u request reply a (control_owner c) started completed s =
    if request.message_id == 6 then grant_lease u request reply a c started completed s else s
remember_owner u request reply a _ started completed s = s

-- An input that failed with an error that costs the lease.
abbrev pub loses_lease : Message → Ack → Bool
loses_lease request a = is_control_input request.message_id && is_failed a.stage && a.revokes

abbrev pub drives : Message → Bool
drives request = to_flight_control request.message_id || to_actuator request.message_id

unfoldable pub remember_input : Profile → Message → Message → Ack → ℕ → ℕ → Source → Source
unfolding remember_owner renew_lease
remember_input u request reply a started completed s =
    if loses_lease request a
    then revoke_lease request.header.sequence s
    else if drives request
    then renew_lease u request reply a started completed s
    else remember_owner u request reply a request.payload started completed s

unfoldable pub remember_control_reply :
    Profile → Message → Message → Payload → ℕ → ℕ → Source → Source
unfolding check_source_status remember_input
remember_control_reply u request reply (status p) started completed s =
    if reply.message_id == 131 && request.message_id == 2
    then check_source_status request p s
    else s
remember_control_reply u request reply (ack a) started completed s =
    if reply.message_id == 130 && implements s.capabilities request.message_id
    then remember_input u request reply a started completed s
    else s
remember_control_reply u request reply _ started completed s = s

-- `_remember_control_feedback`
unfoldable pub remember_control_feedback :
    Profile → Message → Message → ℕ → ℕ → Bool → Source → Source
unfolding remember_control_reply
remember_control_feedback u request reply started completed fresh s =
    if concerns request reply started completed fresh s && not s.model_clock_retired
    then remember_control_reply u request reply reply.payload started completed s
    else s
