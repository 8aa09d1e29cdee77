-- ===== src/Runtime/Contract/Data.antt =====
-- icd_runtime/contract.py and the catalogue: the messages, their headers and payloads, and the contract.
use hil_simulation.Common.{ℕ, Bool, true, false, ◌&&◌, not, Option, none, some, List, ◌==◌}

pub data Transport : Type 0 where
  canfd udp video : Transport

pub data Direction : Type 0 where
  to_36 from_36 : Direction

pub data Encoding : Type 0 where
  packed_le rfc8785_json : Encoding

abbrev pub transport_eq : Transport → Transport → Bool
transport_eq canfd canfd = true
transport_eq udp udp = true
transport_eq video video = true
transport_eq _ _ = false

abbrev pub direction_eq : Direction → Direction → Bool
direction_eq to_36 to_36 = true
direction_eq from_36 from_36 = true
direction_eq _ _ = false

-- wire.py's `Header`.
pub record Header : Type 0 where
  pub session_id : ℕ
  pub sequence : ℕ
  pub target_step : ℕ
  pub transaction_id : ℕ
  pub valid_for_ms : ℕ

-- One message of the catalogue; `role` (`none` is ANY_SESSION_ROLE) and `model_ids`
-- are names, numbered.
pub record Entry : Type 0 where
  pub id : ℕ
  pub direction : Direction
  pub transports : List Transport
  pub encoding : Encoding
  pub payload_bytes : ℕ
  pub max_logical_payload_bytes : ℕ
  pub can_id : Option ℕ
  pub valid_for : ℕ
  pub role : Option ℕ
  pub model_ids : List ℕ

-- One business transport of `catalogue["codecs"]`.
pub record Rules : Type 0 where
  pub chunk_bytes : ℕ
  pub max_fragments : ℕ
  pub reassembly_timeout_ms : ℕ

-- `identity` of a session; names are numbers, since they are only compared.
pub record Identity : Type 0 where
  pub run_id : ℕ
  pub vehicle_id : ℕ
  pub scenario_id : ℕ
  pub model_id : ℕ
  pub definition_version : ℕ
  pub source_id : ℕ

pub data Stage : Type 0 where
  received validated applied consumed failed : Stage

-- The states of a model.
pub data ModelState : Type 0 where
  configured running paused stopped model_failed : ModelState

-- The actions of message 4.
pub data Action : Type 0 where
  start pause resume stop reset step : Action

-- The sources, the roles, the modes and the lanes of control.
pub data ControlSource : Type 0 where
  no_source demo_mission px4_sitl physical_uut : ControlSource

pub data ControlRole : Type 0 where
  stimulus_role controller_role : ControlRole

pub data ControlMode : Type 0 where
  manual auto : ControlMode

pub data ControlLane : Type 0 where
  internal_controller flight_control actuator : ControlLane

-- Payload of message 130; `ok_error` is `error == "OK"`, and `revokes` is
-- `error in ("CONTROL_OWNER", "AUTHORIZATION", "STALE_SESSION", "SAFETY")`.
pub record Ack : Type 0 where
  pub stage : Stage
  pub ok_error : Bool
  pub revokes : Bool
  pub probe_id : ℕ
  pub request_sequence : ℕ
  pub request_message_id : ℕ
  pub applied_step : ℕ
  pub model_revision : ℕ

-- Payload of message 34, a chunk of a resource. Kinds, hashes and base64 text are numbers.
pub record ResourceChunk : Type 0 where
  pub resource_sha256 : ℕ
  pub size_bytes : ℕ
  pub offset_bytes : ℕ
  pub chunk_length : ℕ
  pub final : Bool
  pub resource_kind : ℕ
  pub data_base64 : ℕ
  pub chunk_sha256 : ℕ

-- Payload of message 141; `succeeded` is `error == "OK"`.
pub record ResourceAck : Type 0 where
  pub resource_sha256 : ℕ
  pub stored_bytes : ℕ
  pub next_offset : ℕ
  pub complete : Bool
  pub succeeded : Bool

-- Payload of message 4.
pub record LifecycleCommand : Type 0 where
  pub action : Action
  pub expected_state : ModelState
  pub step_count : ℕ

-- Payload of message 6.
pub record OwnerCommand : Type 0 where
  pub source : ControlSource
  pub role : ControlRole
  pub mode : ControlMode
  pub input_lane : ControlLane

-- `capabilities` of message 129: the implemented messages and the published probes.
pub record Capabilities : Type 0 where
  pub capability_baseline : ℕ
  pub capability_models : List ℕ
  pub implemented : List ℕ
  pub probes : List ℕ

-- Payload of message 129.
pub record Opened : Type 0 where
  pub baseline : ℕ
  pub lease_ms : ℕ
  pub granted_id : ℕ
  pub accepted_roles : List ℕ
  pub capabilities : Capabilities

-- Payload of message 131.
pub record Status : Type 0 where
  pub status_step : ℕ
  pub status_state : ModelState
  pub status_source : ControlSource
  pub safety_active : Bool

-- The payloads that the runtime looks into. `measurement` is that of messages 33 and 142, by its nonce. `other` is any other content, by a number for it.
pub data Payload : Type 0 where
  session_open : Identity → List ℕ → ℕ → ℕ → Payload
  session_opened : Opened → Payload
  ack : Ack → Payload
  resource_chunk : ResourceChunk → Payload
  resource_ack : ResourceAck → Payload
  lifecycle : LifecycleCommand → Payload
  control_owner : OwnerCommand → Payload
  session_close : ℕ → Payload
  status : Status → Payload
  measurement : ℕ → Payload
  other : ℕ → Payload

pub record Message : Type 0 where
  pub message_id : ℕ
  pub header : Header
  pub payload : Payload

-- `payload["baseline_sha256"]` of messages 1 and 129, which the schema requires.
abbrev pub baseline_of : Payload → Option ℕ
baseline_of (session_open identity roles baseline nonce) = some baseline
baseline_of (session_opened grant) = some grant.baseline
baseline_of _ = none

-- `payload["lease_ms"]` of message 129.
abbrev pub lease_of : Payload → Option ℕ
lease_of (session_opened grant) = some grant.lease_ms
lease_of _ = none

abbrev pub is_value : ℕ → Option ℕ → Bool
is_value n none = false
is_value n (some m) = n == m

abbrev pub is_failed : Stage → Bool
is_failed failed = true
is_failed _ = false

-- An acknowledgement that can only reject a SessionOpen.
abbrev pub rejects_open : Payload → Bool
rejects_open (ack a) = a.request_message_id == 1 && is_failed a.stage && not a.ok_error
rejects_open _ = false

-- The catalogue and the compiled schemas.
pub record Contract : Type 0 where
  pub messages : List Entry
  pub rules : Transport → Rules
  pub baseline_sha256 : ℕ
  pub header_schema : Header → Bool
  pub payload_schema : ℕ → Payload → Bool
  pub message_schema : Message → Bool
