-- ===== src/Gateway/Registry/Feedback.antt =====
-- icd_gateway/session.py: the feedback of admitted messages, `record_response`, the consumers'
-- completions, and the deferred feedback of resources.
use hil_simulation.Common.{
  ℕ, ◌+◌, ◌*◌, Bool, true, false, ◌&&◌, ◌||◌, not, Option, some, none, List, [], ◌∷◌, ◌++◌, leb,
  ltb, ◌==◌, length, if◌then◌else◌,
}
use hil_simulation.Common.Dict.{Dict, lookup, insert}
use hil_simulation.Common.Result.{
  Code, ok, err, state, capacity, expired, timeout, buffer_full, key_error,
}
use hil_simulation.Common.Exec.{Exec, ◌>>=◌, ◌>>◌, pure, lift, gets, modify, check, some_or}
use hil_simulation.Runtime.Contract.{
  Message, ack, Ack, Stage, received, validated, applied, consumed, failed, to_36, from_36,
  validate_message, validate_resource_feedback, chunk_of, ack_of,
}
use hil_simulation.Gateway.Registry.State.{
  Pair-discrete, Admission, Setup, Registry, clock, expire, get,
}
use hil_simulation.Gateway.Registry.Accept.{admitted_record, observe_admitted, millisecond}

abbrev pub stage_code : Stage → ℕ
stage_code received = 0
stage_code validated = 1
stage_code applied = 2
stage_code consumed = 3
stage_code failed = 4

abbrev pub stage_eq : Stage → Stage → Bool
stage_eq a b = stage_code a == stage_code b

-- The acknowledgement in a message 130.
abbrev pub with_ack : Message → (Ack → Bool) → Bool
with_ack m test = elim m.payload [ ack a ↦ test a | _ ↦ false ]

abbrev pub sum_bytes : (Message → ℕ) → List Message → ℕ
sum_bytes size [] = 0
sum_bytes size (m ∷ ms) = size m + sum_bytes size ms

abbrev pub all_true : (Message → Bool) → List Message → Bool
all_true test [] = true
all_true test (m ∷ ms) = test m && all_true test ms

-- What the session layer may say of a request: no application, no consumption, no probe.
abbrev pub session_ack : Message → Ack → Bool
session_ack m a =
    not (stage_eq a.stage applied || stage_eq a.stage consumed)
    && a.probe_id == 0
    && a.request_sequence == m.header.sequence
    && a.request_message_id == m.message_id

-- The sessions that a digest of a SessionOpen opened; the first counts.
pub opened_as : ℕ → Dict (ℕ × ℕ) (ℕ × ℕ × ℕ) → Option ℕ
opened_as digest [] = none
opened_as digest ((key, (old_digest, sid, deadline)) ∷ rest) =
    let later = opened_as digest rest in if old_digest == digest then some sid else later

-- The records that wait for resource feedback.
pub pending : Dict (ℕ × ℕ) Admission → ℕ
pending [] = 0
pending ((key, a) ∷ rest) = (elim a.resource_deadline_ns [ none ↦ 0 | some d ↦ 1 ]) + pending rest

-- `record.responses is None`
abbrev pub is_unanswered : Admission → Bool
is_unanswered a = elim a.responses [ none ↦ true | some responses ↦ false ]

module _ (u : Setup) where
  unfoldable pub find_record : ℕ × ℕ → Code → Exec Registry Admission
  find_record key code = do
    found ← gets (λ s. lookup Pair-discrete key s.records)
    some_or code found

  unfoldable pub put_record : ℕ × ℕ → Admission → Exec Registry (Unit {0})
  put_record key a = modify (λ s. record s { records = insert Pair-discrete key a s.records })

  -- One reply of `record_response`.
  unfoldable pub check_reply : Message → ℕ → Message → Exec Registry (Unit {0})
  check_reply m sid reply = do
    lift (validate_message u.contract (some from_36) none reply)
    check (reply.header.session_id == sid && reply.header.transaction_id == m.header.transaction_id)
        state
    if reply.message_id == 130
        then check (with_ack reply (session_ack m)) state
        else (if reply.message_id == 141
            then lift (validate_resource_feedback u.contract m reply)
            else pure tt)

  unfoldable pub check_replies : Message → ℕ → List Message → Exec Registry (Unit {0})
  unfolding check_reply
  check_replies m sid [] = pure tt
  check_replies m sid (reply ∷ rest) = check_reply m sid reply >> check_replies m sid rest

  -- The session that a message's feedback belongs to.
  unfoldable pub session_of_request : Message → Exec Registry ℕ
  session_of_request m =
      if m.message_id == 1
      then (λ s. some_or state (opened_as (u.digest m) s.opens) s)
      else pure m.header.session_id

  unfoldable pub record_response : Message → List Message → ℕ → Exec Registry (Unit {0})
  record_response m responses now = do
    expire now
    sid ← session_of_request m
    a ← find_record (sid, m.header.sequence) state
    check (a.digest == u.digest m) state
    check
        (leb 1 (length responses)
          && leb (length responses) 3
          && leb (sum_bytes u.encoded_bytes responses) 4096)
        capacity
    check_replies m sid responses
    check (is_unanswered a) state
    put_record (sid, m.header.sequence) (record a { responses = some responses })

  -- The replies of a consumer's completion answer its own request.
  abbrev pub correlated : Message → ℕ → Message → Bool
  correlated m mid reply =
      reply.message_id == 130
      && reply.header.session_id == m.header.session_id
      && reply.header.transaction_id == m.header.transaction_id
      && with_ack reply
          (λ a. a.request_sequence == m.header.sequence && a.request_message_id == mid)

  unfoldable pub check_correlated : Message → ℕ → List Message → Exec Registry (Unit {0})
  check_correlated m mid [] = pure tt
  check_correlated m mid (reply ∷ rest) = do
    lift (validate_message u.contract (some from_36) none reply)
    check (correlated m mid reply) state
    check_correlated m mid rest

  -- RECEIVED, then APPLIED at the request's step by the probe of the consumer.
  abbrev pub applied_pair : Message → ℕ → List Message → Bool
  applied_pair m probe (first ∷ last ∷ []) =
      with_ack first (λ a. stage_eq a.stage received && a.ok_error && a.probe_id == 0)
      && with_ack last (λ a.
        stage_eq a.stage applied
        && a.ok_error
        && a.probe_id == probe
        && a.applied_step == m.header.target_step
        && leb 1 a.model_revision)
      && leb (sum_bytes u.encoded_bytes (first ∷ last ∷ [])) 4096
  applied_pair m probe _ = false

  -- The common body of the consumers' completions: `owned` is `service._owns_completed_reply` of the
  -- service that is this registry's own, and `expected` whether the message is one that it serves.
  unfoldable pub record_completion :
      Bool → Bool → ℕ → Message → List Message → ℕ → Exec Registry (Unit {0})
  record_completion owned expected probe m responses now = do
    check owned state
    observe_admitted u m now
    a ← admitted_record u m
    check (expected && is_unanswered a && length responses == 2) state
    check_correlated m m.message_id responses
    check (applied_pair m probe responses) state
    clock now
    put_record (m.header.session_id, m.header.sequence)
        (record a {
          responses = some responses;
          deadline_ns = now + u.policy.duplicate_retention_ms * millisecond;
        })

  pub record_environment_response : Bool → Message → List Message → ℕ → Exec Registry (Unit {0})
  unfolding record_completion
  record_environment_response owned m = record_completion owned (m.message_id == 10) 1010 m

  pub record_flight_response : Bool → Message → List Message → ℕ → Exec Registry (Unit {0})
  unfolding record_completion
  record_flight_response owned m = record_completion owned (m.message_id == 7) 1007 m

  pub record_fault_response : Bool → Message → List Message → ℕ → Exec Registry (Unit {0})
  unfolding record_completion
  record_fault_response owned m = record_completion owned (m.message_id == 11) 1011 m

  -- `supported` is `service.supports(message_id, model_id)`.
  pub record_binding_response : Bool → Bool → Message → List Message → ℕ → Exec Registry (Unit {0})
  unfolding record_completion
  record_binding_response owned supported m =
      record_completion owned supported (1000 + m.message_id) m

  -- `_resource_record`
  unfoldable pub resource_record : Message → ℕ → Exec Registry Admission
  resource_record m now = do
    lift (validate_message u.contract (some to_36) none m)
    check (m.message_id == 34) state
    expire now
    get m.header.session_id
    a ← find_record (m.header.session_id, m.header.sequence) state
    check (a.digest == u.digest m) state
    pure a

  abbrev pub only_received : List Message → Bool
  only_received (reply ∷ []) =
      reply.message_id == 130 && with_ack reply (λ a. stage_eq a.stage received && a.ok_error)
  only_received _ = false

  -- `payload["final"]` chooses the time that a resource request may wait.
  abbrev pub wait_ms : Message → ℕ
  wait_ms m = elim (chunk_of m.payload) [
    | ok sent ↦ if sent.final then u.policy.resource_commit_timeout_ms else m.header.valid_for_ms
    | err code ↦ m.header.valid_for_ms
  ]

  unfoldable pub validate_replies : List Message → Exec Registry (Unit {0})
  validate_replies [] = pure tt
  validate_replies (reply ∷ rest) = do
    lift (validate_message u.contract (some from_36) none reply)
    validate_replies rest

  unfoldable pub defer_resource_response : Message → List Message → ℕ → Exec Registry (Unit {0})
  defer_resource_response m responses now = do
    a ← resource_record m now
    validate_replies responses
    check (a.queued && is_unanswered a && only_received responses) state
    waiting ← gets (λ s. pending s.records)
    check (ltb waiting 64) buffer_full
    let deadline = a.received_ns + wait_ms m * millisecond
    check (ltb now deadline) expired
    record_response m responses now
    a' ← find_record (m.header.session_id, m.header.sequence) key_error
    put_record (m.header.session_id, m.header.sequence)
        (record a' { resource_deadline_ns = some deadline })

  abbrev pub is_ok_ack : Message → Bool
  is_ok_ack reply = elim (ack_of reply.payload) [ ok x ↦ x.succeeded | err code ↦ false ]

  unfoldable pub finish_resource_response : Message → Message → ℕ → Exec Registry (Unit {0})
  finish_resource_response m reply now = do
    a ← resource_record m now
    deadline ← some_or state a.resource_deadline_ns
    lift (validate_resource_feedback u.contract m reply)
    check (not (leb deadline now && is_ok_ack reply)) timeout
    prior ← some_or key_error a.responses
    put_record (m.header.session_id, m.header.sequence)
        (record a {
          responses = some (prior ++ reply ∷ []);
          resource_deadline_ns = none;
          deadline_ns = now + u.policy.duplicate_retention_ms * millisecond;
        })
