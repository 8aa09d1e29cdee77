-- ===== src/Simulator/Source/State.antt =====
-- input_simulator/session.py and model_clock.py: the data of `SourceSession`, its clock, its bounds and its end.
use hil_simulation.Common.{
  ℕ, ◌+◌, ◌-◌, Bool, true, false, ◌&&◌, not, Option, none, List, [], leb, ltb, length, ℕ_discrete,
}
use hil_simulation.Common.Bytes.{Bytes}
use hil_simulation.Common.Dict.{Dict, lookup, remove}
use hil_simulation.Common.Result.{Result, schema, state, buffer_full}
use hil_simulation.Common.Exec.{Exec, ◌>>=◌, ◌>>◌, pure, gets, modify, check, some_or}
use hil_simulation.Runtime.Contract.{
  Contract, Header, Identity, Message, Payload, Status, Capabilities, Transport, ModelState,
  ControlSource, ControlRole, ControlMode, ControlLane,
}
use hil_simulation.Runtime.Wire.Layout.{Checksums}
use hil_simulation.Runtime.Wire.{Frame}

-- `_state`
pub data Phase : Type 0 where
  fresh opening live broken abandoned : Phase

abbrev pub is_live : Phase → Bool
is_live live = true
is_live _ = false

-- One entry of `catalogue["probe_catalog"]`; names are numbers.
pub record Probe : Type 0 where
  pub id : ℕ
  pub name : ℕ
  pub consumes : Option ℕ

-- What the constructor fixes, the limits of the policy, and the encodings: `json_bytes` is the length of the
-- canonical JSON of a message and `snapshot_bytes` that of its snapshot. `lifecycle_name` is
-- "consumer.Lifecycle" and `quadrotor` is "quadrotor_hil".
pub record Profile : Type 0 where
  pub contract : Contract
  pub checksums : Checksums
  pub payload_encode : ℕ → Payload → Result Bytes
  pub identity : Identity
  pub roles_requested : List ℕ
  pub requested_lease_ms : ℕ
  pub control_timeout_ms : ℕ
  pub max_records : ℕ
  pub max_record_bytes : ℕ
  pub probe_catalog : List Probe
  pub lifecycle_name : ℕ
  pub quadrotor : ℕ
  pub json_bytes : Message → ℕ
  pub snapshot_bytes : Message → ℕ

-- `SourceExchange`, without the text of its error.
pub record Exchange : Type 0 where
  pub request : Message
  pub reply : Option Message
  pub started_ns : ℕ
  pub completed_ns : Option ℕ

-- `PreparedSourceInput`
pub record Prepared : Type 0 where
  pub message : Message
  pub transport : Transport
  pub frames : List Frame
  pub allocated_ns : ℕ

-- `ModelClockSnapshot`
pub record Snapshot : Type 0 where
  pub session_id : ℕ
  pub model_id : ℕ
  pub model_step : ℕ
  pub model_state : ModelState
  pub started_ns : ℕ
  pub completed_ns : ℕ
  pub deadline_ns : ℕ
  pub request : Message
  pub status : Status

-- `ModelEpochRetirement`
pub record Retirement : Type 0 where
  pub session_id : ℕ
  pub model_id : ℕ
  pub request : Message
  pub reply : Message
  pub started_ns : ℕ
  pub completed_ns : ℕ

-- `ControlLeaseSnapshot`
pub record Lease : Type 0 where
  pub session_id : ℕ
  pub model_id : ℕ
  pub source : ControlSource
  pub role : ControlRole
  pub input_lane : ControlLane
  pub mode : ControlMode
  pub owner_started_ns : ℕ
  pub owner_completed_ns : ℕ
  pub deadline_ns : ℕ
  pub owner_request : Message
  pub owner_reply : Message
  pub lease_started_ns : ℕ
  pub lease_completed_ns : ℕ
  pub lease_request : Message
  pub lease_reply : Message

-- `SourceSession`. `last_now` and `model_step_floor` start at -1, which no time and no step is below: here 0.
-- `model_status_transaction` holds one more than the source's, which starts at -1. A pair of an attempt is
-- its SID with its sequence or transaction. An input's key stands for its object.
pub record Source : Type 0 where
  pub last_now : ℕ
  pub closed : Bool
  pub closed_sid : Option ℕ
  pub phase : Phase
  pub sid : Option ℕ
  pub roles : List ℕ
  pub capabilities : Option Capabilities
  pub deadline_ns : ℕ
  pub seen_sessions : List ℕ
  pub next_sequence : ℕ
  pub last_allocation : Option (ℕ × Header)
  pub next_transaction : ℕ
  pub last_rx_sequence : ℕ
  pub model_status : Option Snapshot
  pub model_step_floor : ℕ
  pub model_status_request_sequence : ℕ
  pub model_status_transaction : ℕ
  pub model_clock_retired : Bool
  pub model_epoch_retirement : Option Retirement
  pub control_lease : Option Lease
  pub control_boundary_sequence : ℕ
  pub control_requested_source : Option ControlSource
  pub can_attempt : Option (ℕ × ℕ)
  pub can_heartbeat : Option (ℕ × ℕ)
  pub heartbeat_attempt : Option (ℕ × ℕ)
  pub first_attempt : Option (ℕ × ℕ)
  pub records : List Exchange
  pub record_bytes : ℕ
  pub inputs : Dict ℕ (Prepared × ℕ)
  pub input_bytes : ℕ

-- The constructor, whose transport keeps the floor of its transactions.
abbrev pub initial : ℕ → Source
initial transaction_floor = record {
  last_now = 0;
  closed = false;
  closed_sid = none;
  phase = fresh;
  sid = none;
  roles = [];
  capabilities = none;
  deadline_ns = 0;
  seen_sessions = [];
  next_sequence = 2;
  last_allocation = none;
  next_transaction = transaction_floor;
  last_rx_sequence = 0;
  model_status = none;
  model_step_floor = 0;
  model_status_request_sequence = 0;
  model_status_transaction = 0;
  model_clock_retired = false;
  model_epoch_retirement = none;
  control_lease = none;
  control_boundary_sequence = 0;
  control_requested_source = none;
  can_attempt = none;
  can_heartbeat = none;
  heartbeat_attempt = none;
  first_attempt = none;
  records = [];
  record_bytes = 0;
  inputs = [];
  input_bytes = 0;
}

abbrev pub max_counter : ℕ
max_counter = 0xffffffff

abbrev pub max_reply_bytes : ℕ
max_reply_bytes = 65536 + 1024

-- `_operation`, of the session's owner.
unfoldable pub operation : {A : Type 0} → Exec Source A → Exec Source A
operation body s = (check (not s.closed) state >> body) s

-- `_now`, at a reading of the clock.
unfoldable pub clock : ℕ → Exec Source (Unit {0})
clock now s =
    (check (leb now 0xffffffffffffffff && leb s.last_now now) schema
        >> modify (λ s. record s { last_now = now }))
      s

-- `_record_capacity`, of a message of this many bytes.
unfoldable pub record_capacity : Profile → ℕ → Exec Source (Unit {0})
record_capacity u raw s =
    check
      (ltb (length s.records + length s.inputs) u.max_records
        && leb (s.record_bytes + s.input_bytes + raw + max_reply_bytes) u.max_record_bytes)
      buffer_full s

-- `_abandon`
abbrev pub abandon_now : Source → Source
abandon_now s = record s {
  sid = none;
  roles = [];
  capabilities = none;
  deadline_ns = 0;
  last_rx_sequence = 0;
  model_status = none;
  model_step_floor = 0;
  model_status_request_sequence = 0;
  model_status_transaction = 0;
  model_clock_retired = false;
  model_epoch_retirement = none;
  control_lease = none;
  control_boundary_sequence = 0;
  control_requested_source = none;
  phase = abandoned;
  inputs = [];
  input_bytes = 0;
}

pub abandon : Exec Source (Unit {0})
unfolding operation
abandon = operation (modify abandon_now)

unfoldable pub close : Source → Source
close s = elim s.closed [
  | true ↦ s
  | false ↦ record (abandon_now s) { closed_sid = s.sid; closed = true }
]

-- `drain_records`, of a session with no recorder.
unfoldable pub drain_records : Exec Source (List Exchange)
unfolding operation
drain_records = operation do
  drained ← gets (λ s. s.records)
  modify (λ s. record s { records = []; record_bytes = 0 })
  pure drained

-- `_discard_input`
unfoldable pub discard_input : ℕ → Exec Source (Unit {0})
unfolding operation
discard_input key = operation do
  found ← gets (λ s. lookup ℕ_discrete key s.inputs)
  item ← some_or state found
  modify (λ s. record s {
    inputs = remove ℕ_discrete key s.inputs;
    input_bytes = s.input_bytes - item.1;
  })
