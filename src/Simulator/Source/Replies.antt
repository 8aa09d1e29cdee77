-- ===== src/Simulator/Source/Replies.antt =====
-- input_simulator/session.py: what a source accepts as the reply to a request.
use hil_simulation.Common.{
  ℕ, ◌+◌, ◌*◌, Bool, true, ◌&&◌, ◌||◌, not, some, List, [], ◌∷◌, ltb, ◌==◌, if◌then◌else◌,
}
use hil_simulation.Common.Result.{
  Result, ok, err, ◌>>=◌, ◌>>◌, require, state, hash, model, authorization, stale_session,
  key_error,
}
use hil_simulation.Runtime.Contract.{
  Contract, Message, Payload, Ack, Opened, session_opened, ack, measurement, from_36,
  validate_message, validate_resource_feedback, entry, contains_id,
}
use hil_simulation.Simulator.Source.State.{Profile}

-- `set(xs) <= set(ys)`
abbrev pub all_in : List ℕ → List ℕ → Bool
all_in [] ys = true
all_in (x ∷ xs) ys = contains_id x ys && all_in xs ys

-- `len(set(xs)) == len(xs)`
abbrev pub all_distinct : List ℕ → Bool
all_distinct [] = true
all_distinct (x ∷ xs) = not (contains_id x xs) && all_distinct xs

abbrev pub all_known : Contract → List ℕ → Result (Unit {0})
all_known c [] = ok tt
all_known c (mid ∷ rest) = elim (entry c mid) [ err e ↦ err e | ok _ ↦ all_known c rest ]

module _ (u : Profile) where
  -- `_check_grant`; the identity is that of the request, which this source built.
  pub check_grant : Message → Opened → List ℕ → ℕ → ℕ → Result (Unit {0})
  check_grant reply p seen started completed = do
    require (p.granted_id == reply.header.session_id && not (contains_id p.granted_id seen))
        stale_session
    require (p.capabilities.capability_baseline == u.contract.baseline_sha256) hash
    require (all_distinct p.accepted_roles && all_in p.accepted_roles u.roles_requested)
        authorization
    require (contains_id u.identity.model_id p.capabilities.capability_models) model
    all_known u.contract p.capabilities.implemented
    require (ltb completed (started + p.lease_ms * 1_000_000)) stale_session

  -- An ACK of the opening request is never accepted; the code of the error that it reports is not kept.
  pub check_ack : Message → Ack → Result (Unit {0})
  check_ack request a = do
    require
        (a.request_sequence == request.header.sequence
          && a.request_message_id == request.message_id)
        state
    require (not (request.message_id == 1)) state

  abbrev pub nonce_of : Payload → Result ℕ
  nonce_of (measurement nonce) = ok nonce
  nonce_of _ = err key_error

  pub check_nonce : Message → Message → Result (Unit {0})
  check_nonce request reply = do
    sent ← nonce_of request.payload
    received ← nonce_of reply.payload
    require (received == sent) state

  abbrev pub ack_of_reply : Payload → Result Ack
  ack_of_reply (ack a) = ok a
  ack_of_reply _ = err key_error

  abbrev pub grant_of_reply : Payload → Result Opened
  grant_of_reply (session_opened p) = ok p
  grant_of_reply _ = err key_error

  -- `_check_reply`
  unfoldable pub check_reply : Message → Message → List ℕ → ℕ → ℕ → Result (Unit {0})
  unfolding check_grant check_ack check_nonce
  check_reply request reply seen started completed = do
    validate_message u.contract (some from_36) (some u.identity.model_id) reply
    require
        (reply.header.transaction_id == request.header.transaction_id
          && (request.message_id == 1 || reply.header.session_id == request.header.session_id))
        state
    if reply.message_id == 130
        then (ack_of_reply reply.payload >>= check_ack request)
        else if reply.message_id == 129 && request.message_id == 1
        then (grant_of_reply reply.payload >>= λ p. check_grant reply p seen started completed)
        else if reply.message_id == 131 && request.message_id == 2
        then ok tt
        else if reply.message_id == 142 && request.message_id == 33
        then check_nonce request reply
        else if reply.message_id == 141
        then validate_resource_feedback u.contract request reply
        else err state
