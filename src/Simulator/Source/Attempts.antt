-- ===== src/Simulator/Source/Attempts.antt =====
-- input_simulator/session.py: the headers that a source allocates, and the order of its first attempts.
use hil_simulation.Common.{
  ℕ, ◌+◌, Bool, true, false, ◌&&◌, ◌||◌, not, Option, some, none, List, leb, ltb, ◌==◌, max,
  if◌then◌else◌,
}
use hil_simulation.Common.Result.{
  schema, state, capacity, stale_session, authorization, model, target_missing,
}
use hil_simulation.Common.Exec.{Exec, ◌>>=◌, ◌>>◌, pure, gets, lift, modify, check}
use hil_simulation.Runtime.Contract.{
  Header, Message, Payload, control_owner, lifecycle, start, ControlSource, Capabilities, Transport,
  canfd, direction_eq, to_36, transport_eq, entry, contains_id, validate_header, is_value,
}
use hil_simulation.Simulator.Source.State.{Profile, Source, is_live, max_counter, clock, operation}

-- `mid in capabilities["implemented_message_ids"]`; a live session has capabilities.
abbrev pub implements : Option Capabilities → ℕ → Bool
implements none mid = false
implements (some c) mid = contains_id mid c.implemented

-- `role != "ANY_SESSION_ROLE" and role not in roles`, denied.
abbrev pub has_role : Option ℕ → List ℕ → Bool
has_role none roles = true
has_role (some role) roles = contains_id role roles

abbrev pub is_given {ℓ} : {A : Type ℓ} → Option A → Bool
is_given none = false
is_given (some a) = true

-- There is a grant, LIVE and before its deadline.
abbrev pub holds_grant : ℕ → Source → Bool
holds_grant now s = is_given s.sid && is_live s.phase && ltb now s.deadline_ns

abbrev pub transaction_or : ℕ → Option ℕ → ℕ
transaction_or next none = next
transaction_or next (some t) = t

-- The sequence or the transaction is not after the one last attempted in this session.
abbrev pub attempted : Option (ℕ × ℕ) → ℕ → ℕ → Bool
attempted none sid value = false
attempted (some last) sid value = sid == last.0 && leb value last.1

-- Another source attempt of this session came after this sequence.
abbrev pub behind : Option (ℕ × ℕ) → Bool → ℕ → ℕ → Bool
behind none already_claimed sid sequence = false
behind (some first) already_claimed sid sequence =
    sid == first.0 && (ltb sequence first.1 || sequence == first.1 && not already_claimed)

module _ (u : Profile) where
  -- `_preview_header`
  unfoldable pub preview_header : ℕ → ℕ → ℕ → Option ℕ → Exec Source Header
  preview_header now mid target_step transaction_id = do
    clock now
    granted ← gets (holds_grant now)
    sid ← gets (λ s. s.sid)
    check granted stale_session
    e ← lift (entry u.contract mid)
    check (not (mid == 1)) state
    check (direction_eq e.direction to_36) authorization
    check (contains_id u.identity.model_id e.model_ids) model
    roles ← gets (λ s. s.roles)
    check (has_role e.role roles) authorization
    published ← gets (λ s. implements s.capabilities mid)
    check published target_missing
    check (leb target_step max_counter) schema
    check (leb (transaction_or 0 transaction_id) max_counter) schema
    transaction ← gets (λ s. transaction_or s.next_transaction transaction_id)
    sequence ← gets (λ s. s.next_sequence)
    check (leb sequence max_counter && leb transaction max_counter) capacity
    let header : Header = record {
      session_id = transaction_or 0 sid;
      sequence = sequence;
      target_step = target_step;
      transaction_id = transaction;
      valid_for_ms = e.valid_for;
    }
    lift (validate_header u.contract mid header)
    pure header

  -- `_commit_header`, outside the scope of an approved target.
  abbrev pub commit_header : Header → ℕ → Source → Source
  commit_header header mid s = record s {
    last_allocation = some (mid, header);
    next_sequence = s.next_sequence + 1;
    next_transaction = max s.next_transaction (header.transaction_id + 1);
  }

  -- `_header`
  unfoldable pub allocate : ℕ → ℕ → ℕ → Option ℕ → Exec Source Header
  allocate now mid target_step transaction_id = do
    header ← preview_header now mid target_step transaction_id
    modify (commit_header header mid)
    pure header

  -- `allocate_header`
  unfoldable pub allocate_header : ℕ → ℕ → ℕ → Option ℕ → Exec Source Header
  unfolding operation
  allocate_header now mid target_step transaction_id =
      operation (allocate now mid target_step transaction_id)

-- `_check_first_attempt`
unfoldable pub check_first_attempt : Message → Bool → Exec Source (Unit {0})
check_first_attempt m already_claimed s =
    if m.message_id == 1
    then pure tt s
    else (check (is_live s.phase && is_value m.header.session_id s.sid) stale_session
          >> check
              (not (behind s.first_attempt already_claimed m.header.session_id m.header.sequence))
              state)
        s

-- `_check_heartbeat_transaction`
unfoldable pub check_heartbeat_transaction : ℕ → ℕ → Exec Source (Unit {0})
check_heartbeat_transaction mid transaction s =
    check (not (mid == 2 && attempted s.heartbeat_attempt (transaction_or 0 s.sid) transaction))
      state s

-- `_claim_heartbeat_attempt`
unfoldable pub claim_heartbeat_attempt : Message → Exec Source (Unit {0})
unfolding check_heartbeat_transaction
claim_heartbeat_attempt m s =
    if not (m.message_id == 2)
    then pure tt s
    else (do
      check (is_live s.phase && is_value m.header.session_id s.sid) stale_session
      check_heartbeat_transaction 2 m.header.transaction_id
      modify (λ s. record s {
        heartbeat_attempt = some (m.header.session_id, m.header.transaction_id);
      }))
        s

abbrev pub starts : Payload → Bool
starts (lifecycle c) = elim c.action [ start ↦ true | _ ↦ false ]
starts _ = false

-- `mid in (6, 37, 38) or mid == 4 and action != "START"`
abbrev pub moves_control : Message → Bool
moves_control m =
    m.message_id == 6
    || m.message_id == 37
    || m.message_id == 38
    || m.message_id == 4 && not (starts m.payload)

abbrev pub requested : Message → Option ControlSource
requested m = elim m.payload [
  | control_owner c ↦ if m.message_id == 6 then some c.source else none
  | _ ↦ none
]

-- `_claim_first_attempt`, past its check.
abbrev pub claimed : Message → Source → Source
claimed m s =
    let s1 = record s { first_attempt = some (m.header.session_id, m.header.sequence) } in
    if m.message_id == 1
    then s
    else if moves_control m
    then record s1 {
      control_boundary_sequence = m.header.sequence;
      control_lease = none;
      control_requested_source = requested m;
    }
    else s1

unfoldable pub claim_first_attempt : Message → Exec Source (Unit {0})
unfolding check_first_attempt
claim_first_attempt m = do check_first_attempt m false; modify (claimed m)

-- The tests of `_claim_can_attempt` on an owned input.
unfoldable pub check_can_attempt : Transport → Message → Exec Source (Unit {0})
check_can_attempt transport m s =
    (check (transport_eq transport canfd && is_value m.header.session_id s.sid && is_live s.phase)
          state
        >> (check (not (attempted s.can_attempt m.header.session_id m.header.sequence)) state
            >> check
                (not (
                  m.message_id == 2
                  && attempted s.can_heartbeat m.header.session_id m.header.transaction_id))
                state))
      s

abbrev pub can_claimed : Message → Source → Source
can_claimed m s = record s {
  can_attempt = some (m.header.session_id, m.header.sequence);
  can_heartbeat =
      if m.message_id == 2
      then some (m.header.session_id, m.header.transaction_id)
      else s.can_heartbeat;
}

-- `_claim_can_attempt`, of an owned input.
unfoldable pub claim_can_attempt : Transport → Message → Exec Source (Unit {0})
unfolding check_can_attempt check_first_attempt claim_heartbeat_attempt claim_first_attempt
claim_can_attempt transport m = do
  check_can_attempt transport m
  check_first_attempt m false
  claim_heartbeat_attempt m
  claim_first_attempt m
  modify (can_claimed m)
