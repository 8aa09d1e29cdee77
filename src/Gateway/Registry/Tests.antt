-- ===== src/Gateway/Registry/Tests.antt =====
-- icd_gateway/session.py: a session that admits a message, is given its response, and answers it again.
use hil_simulation.Common.{
  ◌<◌, ◌≡◌, ◌≢◌, refl, ◌||◌, true, false, none, some, [], ◌∷◌, ℕ_discrete, arith, ltb,
}
use hil_simulation.Common.Dict.{lookup, insert, keep}
use hil_simulation.Common.Dict.Laws.{Distinct}
use hil_simulation.Common.Result.{ok}
use hil_simulation.Runtime.Contract.{
  Entry, Message, other, ack, canfd, udp, from_36, packed_le, received, Identity, entry, find_entry,
  has_transport, contains_id, validate_message, validate_header, validate_payload, session_rule,
}
use hil_simulation.Runtime.Wire.Tests.{catalogue}
use hil_simulation.Gateway.Registry.State.{
  Binding, Transport-discrete, Binding-discrete, Pair-discrete, Session, Setup, Registry, initial,
  ensure_open, check_clock, clock, late_sessions, purge, expire, get,
}
use hil_simulation.Gateway.Registry.Accept.{
  link_grant, grant_at, authorize_session, preauthorize, make_room, remember, replay, answer_again,
  admit_new, accept_in_session, accept,
}
use hil_simulation.Gateway.Registry.Feedback.{
  find_record, put_record, check_reply, check_replies, session_of_request, record_response,
}
use hil_simulation.Gateway.Registry.Fresh.{AdmittedBy, accept-fresh}
use hil_simulation.Gateway.Registry.Sessions.{IsLive}
use hil_simulation.Gateway.Registry.History.{
  respond_call, expire_call, execute, run, run-IsLive, at_most_once,
}
use hil_simulation.Gateway.Registry.Expiry.{awaits, session-expire, admission-expire}

abbrev status : Entry
status = record {
  id = 130;
  direction = from_36;
  transports = canfd ∷ udp ∷ [];
  encoding = packed_le;
  payload_bytes = 40;
  max_logical_payload_bytes = 40;
  can_id = some 0x182;
  valid_for = 1000;
  role = none;
  model_ids = 1 ∷ [];
}

abbrev identity : Identity
identity = record {
  run_id = 1;
  vehicle_id = 2;
  scenario_id = 3;
  model_id = 1;
  definition_version = 1;
  source_id = 7;
}

abbrev pub link : Binding
link = record { channel = 0; transport = udp; peer = 4 }

abbrev pub setup : Setup
setup = record {
  contract = record catalogue { messages = status ∷ catalogue.messages };
  policy = record {
    session_lease_ms = 1000;
    duplicate_retention_ms = 2000;
    duplicate_cache_messages = 4096;
    resource_commit_timeout_ms = 5000;
    control_timeout_ms = 100;
    max_run_duration_steps = 1000;
    max_ahead_steps = 100;
    queue_capacity = 256;
  };
  max_sessions = 64;
  grants = record { identity = identity; roles = 1 ∷ []; bindings = link ∷ [] } ∷ [];
  links = (link, 0) ∷ [];
  digest = λ m. m.header.sequence;
  encoded_bytes = λ m. 100;
}

abbrev session : Session
session = record {
  grant = 0;
  roles = 1 ∷ [];
  nonce = 77;
  deadline_ns = 1_000_000;
  last_rx = 1;
  last_tx = 0;
}

abbrev pub started : Registry
started = record (initial 4) { sessions = (5, session) ∷ []; next_id = 6 }

started-IsLive : IsLive setup 6 started.sessions
unfolding lookup
started-IsLive = record {
  distinct = (refl, tt);
  unallocated = λ sid h. ground arith;
  few = omega arith;
}

abbrev pub throttle : Message
throttle = record {
  message_id = 17;
  header = record {
    session_id = 5;
    sequence = 9;
    target_step = 100;
    transaction_id = 3;
    valid_for_ms = 20;
  };
  payload = other 200;
}

abbrev received_reply : Message
received_reply = record {
  message_id = 130;
  header = record {
    session_id = 5;
    sequence = 1;
    target_step = 0;
    transaction_id = 3;
    valid_for_ms = 1000;
  };
  payload = ack (record {
    stage = received;
    ok_error = true;
    revokes = false;
    probe_id = 0;
    request_sequence = 9;
    request_message_id = 17;
    applied_step = 0;
    model_revision = 0;
  });
}

throttle_admitted :
    (accept setup throttle link 10 started).0 ≡ ok (record { session_id = 5; replay = none })
unfolding accept validate_message entry find_entry validate_header validate_payload session_rule
    contains_id has_transport preauthorize expire clock check_clock ensure_open purge late_sessions
    keep link_grant grant_at authorize_session get lookup accept_in_session admit_new remember
    make_room insert Binding-discrete Transport-discrete Pair-discrete ℕ_discrete
throttle_admitted = refl

accept-fresh_example :
    (x : Session) × (y : Session) × (lookup ℕ_discrete 5 (expire 10 started).1.sessions ≡ some x)
    × (lookup ℕ_discrete 5 (accept setup throttle link 10 started).1.sessions ≡ some y)
    × (x.last_rx < 9)
    × AdmittedBy setup throttle 10 x y
accept-fresh_example = accept-fresh setup throttle link 10 started refl throttle_admitted refl

throttle_again :
    (accept setup throttle link 30 (
      run setup
        (respond_call throttle (received_reply ∷ []) 20 ∷ [])
        (accept setup throttle link 10 started).1)).0
    ≡ ok (record { session_id = 5; replay = some (received_reply ∷ []) })
unfolding accept validate_message entry find_entry validate_header validate_payload session_rule
    contains_id has_transport preauthorize expire clock check_clock ensure_open purge late_sessions
    keep link_grant grant_at authorize_session get lookup accept_in_session admit_new remember
    make_room insert Binding-discrete Transport-discrete Pair-discrete run execute record_response
    session_of_request find_record check_replies check_reply put_record answer_again replay
    ℕ_discrete
throttle_again = refl

at_most_once_example : some (received_reply ∷ []) ≢ none
at_most_once_example =
    at_most_once setup throttle throttle link link 10 30
      (respond_call throttle (received_reply ∷ []) 20 ∷ []) started started-IsLive refl refl refl
      (omega arith) throttle_admitted refl throttle_again

run-IsLive_example :
    IsLive setup
      (run setup (expire_call 5 ∷ []) (initial 3)).next_id
      (run setup (expire_call 5 ∷ []) (initial 3)).sessions
run-IsLive_example = run-IsLive setup (expire_call 5 ∷ []) 3

expired : (expire 1_000_000 started).0 ≡ ok (5 ∷ [])
unfolding expire clock check_clock ensure_open purge late_sessions keep
expired = refl

session-expire_example :
    lookup ℕ_discrete 5 (expire 1_000_000 started).1.sessions
    ≡ elim (lookup ℕ_discrete 5 started.sessions) [
      | none ↦ none
      | some x ↦ elim (ltb 1_000_000 x.deadline_ns) [ true ↦ some x | false ↦ none ]
    ]
session-expire_example = session-expire 1_000_000 started 5 started-IsLive.distinct expired

-- A resource request that waits for its feedback, past its own retention.
abbrev waiting : Registry
waiting = record started {
  records =
      (
        (5, 9),
        record {
          digest = 9;
          deadline_ns = 500;
          received_ns = 10;
          responses = some (received_reply ∷ []);
          queued = true;
          resource_deadline_ns = some 900;
        },
      )
      ∷ [];
}

waiting-Distinct : Distinct Pair-discrete waiting.records
unfolding lookup
waiting-Distinct = (refl, tt)

waiting_expires : (expire 600 waiting).0 ≡ ok []
unfolding expire clock check_clock ensure_open purge late_sessions keep
waiting_expires = refl

admission-expire_example :
    lookup Pair-discrete (5, 9) (expire 600 waiting).1.records
    ≡ elim (lookup Pair-discrete (5, 9) waiting.records) [
      | none ↦ none
      | some a ↦ elim (ltb 600 a.deadline_ns || awaits 600 a.resource_deadline_ns) [
        | true ↦ some a
        | false ↦ none
      ]
    ]
admission-expire_example = admission-expire 600 waiting (5, 9) waiting-Distinct waiting_expires
