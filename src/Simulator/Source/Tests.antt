-- ===== src/Simulator/Source/Tests.antt =====
-- input_simulator/session.py: a session that allocates a header, and what it observes before and after.
use hil_simulation.Common.{
  ℕ, ◌+◌, ◌≤◌, ◌<◌, ◌≢◌, true, ◌≡◌, refl, false, none, some, List, [], ◌∷◌, arith, length,
}
use hil_simulation.Common.Result.{ok, err, state}
use hil_simulation.Common.Dict.{total}
use hil_simulation.Runtime.Contract.{
  udp, Header, Identity, Message, Status, other, paused, px4_sitl, controller_role, flight_control,
  manual, entry, find_entry, validate_header, session_rule, contains_id,
}
use hil_simulation.Runtime.Wire.Tests.{catalogue, checksums, header}
use hil_simulation.Simulator.Source.State.{
  Profile, Source, Snapshot, Lease, initial, live, clock, operation, drain_records,
}
use hil_simulation.Simulator.Source.Attempts.{allocate_header, allocate, preview_header}
use hil_simulation.Simulator.Source.StatusView.{read_status}
use hil_simulation.Simulator.Source.Observed.{observed, snapshot, require_step, lease_snapshot}
use hil_simulation.Simulator.Source.Operations.{
  Op, allocates, drains, beats, prepares, discards, run,
}
use hil_simulation.Simulator.Source.Clock.{snapshot-run-snapshot}
use hil_simulation.Simulator.Source.Sequences.{allocate_header-run-allocate_header}
use hil_simulation.Simulator.Source.Retired.{snapshot-run-retired}
use hil_simulation.Simulator.Source.Kept.{records_total, inputs_total}
use hil_simulation.Simulator.Source.Bounds.{InLimits, run-InLimits}
use hil_simulation.Simulator.Source.Leases.{LeaseHolds, run-LeaseHolds}
use hil_simulation.Simulator.Source.HeldLease.{lease_snapshot-run}

abbrev identity : Identity
identity = record {
  run_id = 1;
  vehicle_id = 1;
  scenario_id = 1;
  model_id = 1;
  definition_version = 1;
  source_id = 1;
}

abbrev profile : Profile
profile = record {
  contract = catalogue;
  checksums = checksums;
  payload_encode = λ mid p. ok [];
  identity = identity;
  roles_requested = [];
  requested_lease_ms = 1000;
  control_timeout_ms = 100;
  max_records = 64;
  max_record_bytes = 4_194_304;
  probe_catalog = [];
  lifecycle_name = 0;
  quadrotor = 2;
  json_bytes = λ m. 100;
  snapshot_bytes = λ m. 100;
}

abbrev sent : Message
sent = record { message_id = 2; header = header; payload = other 0 }

abbrev reported : Status
reported = record {
  status_step = 40;
  status_state = paused;
  status_source = px4_sitl;
  safety_active = false;
}

abbrev seen : Snapshot
seen = record {
  session_id = 5;
  model_id = 1;
  model_step = 40;
  model_state = paused;
  started_ns = 10;
  completed_ns = 20;
  deadline_ns = 500_000_000;
  request = sent;
  status = reported;
}

abbrev held : Lease
held = record {
  session_id = 5;
  model_id = 1;
  source = px4_sitl;
  role = controller_role;
  input_lane = flight_control;
  mode = manual;
  owner_started_ns = 10;
  owner_completed_ns = 20;
  deadline_ns = 100_000_010;
  owner_request = sent;
  owner_reply = sent;
  lease_started_ns = 10;
  lease_completed_ns = 20;
  lease_request = sent;
  lease_reply = sent;
}

abbrev started : Source
started = record (initial 1) {
  last_now = 20;
  phase = live;
  sid = some 5;
  capabilities = some (record {
    capability_baseline = 0;
    capability_models = 1 ∷ [];
    implemented = 17 ∷ [];
    probes = [];
  });
  deadline_ns = 1_000_000_000;
  model_status = some seen;
  model_step_floor = 40;
  control_lease = some held;
  control_boundary_sequence = 9;
  control_requested_source = some px4_sitl;
}

abbrev ops : List Op
ops = allocates 40 17 100 none ∷ drains ∷ []

seen_before : (snapshot profile 30 started).0 ≡ ok seen
unfolding snapshot operation observed clock read_status
seen_before = refl

seen_after : (snapshot profile 50 (run profile ops (snapshot profile 30 started).1)).0 ≡ ok seen
unfolding snapshot operation observed clock read_status allocate_header allocate preview_header
    entry find_entry validate_header session_rule contains_id drain_records
seen_after = refl

snapshot-run-snapshot_example : seen.model_step ≤ seen.model_step
snapshot-run-snapshot_example =
    snapshot-run-snapshot profile ops 30 50 started seen seen (omega arith, omega arith) seen_before
      seen_after

run-LeaseHolds_example : LeaseHolds (run profile ops started)
run-LeaseHolds_example = run-LeaseHolds profile ops started (refl, refl)

abbrev controlling : Source
controlling = record started { roles = 1 ∷ [] }

held_after : (lease_snapshot profile 1 50 60 40 (run profile ops controlling)).0 ≡ ok held
unfolding lease_snapshot require_step snapshot operation observed clock read_status allocate_header
    allocate preview_header entry find_entry validate_header session_rule contains_id drain_records
held_after = refl

lease_snapshot-run_example :
    ((run profile ops controlling).control_requested_source ≡ some px4_sitl)
    × (9 ≡ (run profile ops controlling).control_boundary_sequence)
    × (60 < 100_000_010)
lease_snapshot-run_example =
    lease_snapshot-run profile ops 1 50 60 40 controlling held (refl, refl) held_after

abbrev allocated : ℕ → ℕ → Header
allocated sequence transaction = record {
  session_id = 5;
  sequence = sequence;
  target_step = 100;
  transaction_id = transaction;
  valid_for_ms = 20;
}

first_header : (allocate_header profile 30 17 100 none started).0 ≡ ok (allocated 2 1)
unfolding operation clock allocate_header allocate preview_header entry find_entry validate_header
    session_rule contains_id
first_header = refl

second_header :
    (allocate_header profile 60 17 100 none
      (run profile ops (allocate_header profile 30 17 100 none started).1)).0
    ≡ ok (allocated 4 3)
unfolding operation clock allocate_header allocate preview_header entry find_entry validate_header
    session_rule contains_id drain_records
second_header = refl

allocate_header-run-allocate_header_example : 2 < 4
allocate_header-run-allocate_header_example =
    allocate_header-run-allocate_header profile ops 30 60 17 17 100 100 none none started
      (allocated 2 1) (allocated 4 3) first_header second_header

-- A source that keeps one exchange, sends a heartbeat that is not answered, and prepares an input.
abbrev recording : Source
recording = record started {
  records =
      record { request = sent; reply = some sent; started_ns = 10; completed_ns = some 20 } ∷ [];
  record_bytes = 200;
}

abbrev evidence : List Op
evidence =
    beats 30 (other 0) 0 (record { at_start = 31; at_reply = 32; at_end = 33 }) (err state)
    ∷ prepares 7 40 41 sent udp 100 none
    ∷ discards 7
    ∷ []

run-InLimits_example :
    InLimits profile (run profile evidence recording)
    × (length (run profile evidence recording).records
          + length (run profile evidence recording).inputs
        ≤ 64)
    × (records_total profile (run profile evidence recording).records
          + inputs_total profile (run profile evidence recording).inputs
        ≤ 4_194_304)
unfolding inputs_total total
run-InLimits_example =
    run-InLimits profile evidence recording
      (omega arith, omega arith, record { recorded = refl; sized = tt; stored = omega arith })

snapshot-run-retired_example :
    (snapshot profile 50 (run profile ops (record started { model_clock_retired = true }))).0
    ≢ ok seen
snapshot-run-retired_example =
    snapshot-run-retired profile ops 50 (record started { model_clock_retired = true }) seen refl
