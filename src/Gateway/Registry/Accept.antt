-- ===== src/Gateway/Registry/Accept.antt =====
-- icd_gateway/session.py: admission of messages, `preauthorize`, `accept`, `_opening`, and the look-up
-- and claiming of an admission.
use hil_simulation.Common.{
  ℕ, ◌+◌, ◌-◌, ◌*◌, Bool, true, false, ◌&&◌, ◌||◌, not, Option, some, none, List, [], ◌∷◌, leb, ltb,
  ◌==◌, length, ℕ_discrete, get_elem?, if◌then◌else◌, drop,
}
use hil_simulation.Common.Dict.{Dict, lookup, insert, remove}
use hil_simulation.Common.Result.{
  ok, err, state, stale_session, authorization, model, out_of_order, duplicate, buffer_full,
  capacity, key_error, unsupported,
}
use hil_simulation.Common.Exec.{Exec, ◌>>=◌, ◌>>◌, pure, raise, lift, gets, modify, check, some_or}
use hil_simulation.Runtime.Contract.{
  Entry, Identity, Message, session_open, ack, Stage, applied, consumed, failed, to_36,
  direction_eq, entry, has_transport, contains_id, validate_message,
}
use hil_simulation.Gateway.Registry.State.{
  Binding, Binding-discrete, Pair-discrete, Grant, Session, Admission, Decision, Setup, Registry,
  clock, expire, get, retained_until,
}

abbrev pub millisecond : ℕ
millisecond = 1_000_000

abbrev pub identity_eq : Identity → Identity → Bool
identity_eq a b =
    a.run_id == b.run_id
    && a.vehicle_id == b.vehicle_id
    && a.scenario_id == b.scenario_id
    && a.model_id == b.model_id
    && a.definition_version == b.definition_version
    && a.source_id == b.source_id

-- `set(a) <= set(b)`
abbrev pub subset : List ℕ → List ℕ → Bool
subset [] b = true
subset (x ∷ a) b = contains_id x b && subset a b

-- The first admission that is no pending resource feedback.
pub oldest_free : Dict (ℕ × ℕ) Admission → Option (ℕ × ℕ)
oldest_free [] = none
oldest_free ((key, a) ∷ rest) =
    let later = oldest_free rest in elim a.resource_deadline_ns [ none ↦ some key | some d ↦ later ]

-- `any(s.grant == grant and s.nonce == nonce for s in sessions)`
pub nonce_active : ℕ → ℕ → Dict ℕ Session → Bool
nonce_active grant nonce [] = false
nonce_active grant nonce ((sid, session) ∷ rest) =
    (session.grant == grant && session.nonce == nonce) || nonce_active grant nonce rest

abbrev pub terminal_stage : Stage → Bool
terminal_stage failed = true
terminal_stage applied = true
terminal_stage consumed = true
terminal_stage _ = false

abbrev pub is_terminal : Message → Bool
is_terminal m = elim m.payload [ ack a ↦ m.message_id == 130 && terminal_stage a.stage | _ ↦ false ]

abbrev pub any_terminal : List Message → Bool
any_terminal [] = false
any_terminal (m ∷ ms) = is_terminal m || any_terminal ms

-- `record.responses and any(...)`
abbrev pub has_terminal : Option (List Message) → Bool
has_terminal none = false
has_terminal (some ms) = any_terminal ms

abbrev pub is_none {ℓ} : {A : Type ℓ} → Option A → Bool
is_none none = true
is_none (some a) = false

module _ (u : Setup) where
  unfoldable pub link_grant : Binding → Exec Registry ℕ
  link_grant b = some_or authorization (lookup Binding-discrete b u.links)

  unfoldable pub grant_at : ℕ → Exec Registry Grant
  grant_at index = some_or key_error (get_elem? u.grants index)

  abbrev pub role_granted : Option ℕ → List ℕ → Bool
  role_granted none roles = true
  role_granted (some r) roles = contains_id r roles

  -- `preauthorize`, past the ingress checks: the session's grant, role and model.
  unfoldable pub authorize_session : ℕ → Entry → ℕ → Exec Registry (Unit {0})
  unfolding grant_at
  authorize_session sid e grant_index = do
    session ← get sid
    check (session.grant == grant_index) authorization
    check (role_granted e.role session.roles) authorization
    grant ← grant_at session.grant
    check (contains_id grant.identity.model_id e.model_ids) model

  unfoldable pub preauthorize : ℕ → ℕ → Binding → ℕ → Exec Registry (Unit {0})
  preauthorize mid sid b now = do
    expire now
    grant_index ← link_grant b
    e ← lift (entry u.contract mid)
    check (direction_eq e.direction to_36 && has_transport b.transport e.transports) authorization
    if mid == 1 then check (sid == 0) stale_session else authorize_session sid e grant_index

  -- The eviction of `_remember`.
  unfoldable pub make_room : Exec Registry (Unit {0})
  make_room s =
      if ltb (length s.records) u.policy.duplicate_cache_messages
      then (ok tt, s)
      else elim (oldest_free s.records) [
        | none ↦ (err buffer_full, s)
        | some key ↦ (ok tt, record s { records = remove Pair-discrete key s.records })
      ]

  abbrev pub fresh_admission : ℕ → ℕ → Admission
  fresh_admission digest now = record {
    digest = digest;
    deadline_ns = now + u.policy.duplicate_retention_ms * millisecond;
    received_ns = now;
    responses = none;
    queued = false;
    resource_deadline_ns = none;
  }

  -- `_remember`
  unfoldable pub remember : ℕ × ℕ → ℕ → ℕ → Exec Registry (Unit {0})
  unfolding make_room
  remember key digest now = do
    make_room
    modify (λ s. record s {
      records = insert Pair-discrete key (fresh_admission digest now) s.records;
    })

  -- `_replay`
  unfoldable pub replay : Admission → Exec Registry (List Message)
  replay a = some_or state a.responses

  -- `while len(opens) > limit: opens.popitem(last=False)`
  abbrev pub cut_opens : Registry → Registry
  cut_opens s = record s {
    opens = drop (length s.opens - u.policy.duplicate_cache_messages) s.opens;
  }

  -- The allocation of `_opening`.
  unfoldable pub allocate : ℕ → List ℕ → ℕ → ℕ → ℕ → Exec Registry Decision
  allocate grant_index roles nonce digest now = do
    sid ← gets (λ s. s.next_id)
    let session : Session = record {
      grant = grant_index;
      roles = roles;
      nonce = nonce;
      deadline_ns = now + u.policy.session_lease_ms * millisecond;
      last_rx = 1;
      last_tx = 0;
    }
    modify (λ s. record s {
      next_id = s.next_id + 1;
      sessions = insert ℕ_discrete sid session s.sessions;
      opens =
          insert Pair-discrete (grant_index, nonce)
            (digest, sid, now + u.policy.duplicate_retention_ms * millisecond) s.opens;
    })
    modify cut_opens
    remember (sid, 1) digest now
    pure (record { session_id = sid; replay = none })

  -- A nonce that was used before: the same request is answered again, another one is refused.
  unfoldable pub reopen : ℕ × ℕ × ℕ → ℕ → Exec Registry Decision
  reopen (old_digest, old_sid, deadline) digest = do
    check (digest == old_digest) duplicate
    get old_sid
    found ← gets (λ s. lookup Pair-discrete (old_sid, 1) s.records)
    admission ← some_or out_of_order found
    responses ← replay admission
    pure (record { session_id = old_sid; replay = some responses })

  -- The tests of `_opening` on a nonce that is new.
  unfoldable pub can_open : ℕ → ℕ → Exec Registry (Unit {0})
  can_open grant_index nonce = do
    s ← gets (λ s. s)
    check (not (nonce_active grant_index nonce s.sessions)) duplicate
    check (ltb (length s.sessions) u.max_sessions) buffer_full
    check (leb s.next_id 0xffff_ffff) capacity
    check
        (ltb (length s.records) u.policy.duplicate_cache_messages
          || not (is_none (oldest_free s.records)))
        buffer_full

  unfoldable pub opening : Identity → List ℕ → ℕ → Binding → ℕ → ℕ → Bool → Exec Registry Decision
  opening identity roles nonce b now digest allocating = do
    grant_index ← link_grant b
    grant ← grant_at grant_index
    check (identity_eq identity grant.identity && subset roles grant.roles) authorization
    previous ← gets (λ s. lookup Pair-discrete (grant_index, nonce) s.opens)
    elim previous [
      | some old ↦ reopen old digest
      | none ↦
          can_open grant_index nonce
          >> (if allocating
              then allocate grant_index roles nonce digest now
              else pure (record { session_id = 0; replay = none }))
    ]

  -- A sequence that has a record: the same content is answered again, other content is refused.
  unfoldable pub answer_again : Message → ℕ → Admission → Exec Registry Decision
  answer_again m digest old = do
    check (digest == old.digest) duplicate
    responses ← replay old
    pure (record { session_id = m.header.session_id; replay = some responses })

  -- The session after an admission: the sequence is its last, and only a heartbeat renews the lease.
  abbrev pub admitted_session : Message → ℕ → Session → Session
  admitted_session m now session = record session {
    last_rx = m.header.sequence;
    deadline_ns =
        if m.message_id == 2
        then now + u.policy.session_lease_ms * millisecond
        else session.deadline_ns;
  }

  -- A sequence that has no record.
  unfoldable pub admit_new : Message → ℕ → ℕ → Session → Exec Registry Decision
  admit_new m digest now session = do
    check (ltb session.last_rx m.header.sequence) out_of_order
    remember (m.header.session_id, m.header.sequence) digest now
    modify (λ s. record s {
      sessions = insert ℕ_discrete m.header.session_id (admitted_session m now session) s.sessions;
    })
    pure (record { session_id = m.header.session_id; replay = none })

  -- `accept` of a message in a session.
  unfoldable pub accept_in_session : Message → ℕ → ℕ → Exec Registry Decision
  accept_in_session m digest now = do
    session ← get m.header.session_id
    previous ← gets (λ s. lookup Pair-discrete (m.header.session_id, m.header.sequence) s.records)
    elim previous [ some old ↦ answer_again m digest old | none ↦ admit_new m digest now session ]

  -- `payload["identity"]`, `["roles"]` and `["nonce_hex"]` of a SessionOpen, which the schema requires.
  unfoldable pub open_payload : Message → Binding → ℕ → Bool → Exec Registry Decision
  open_payload m b now allocating = elim m.payload [
    | session_open identity roles baseline nonce ↦
        opening identity roles nonce b now (u.digest m) allocating
    | _ ↦ raise key_error
  ]

  unfoldable pub accept : Message → Binding → ℕ → Exec Registry Decision
  accept m b now = do
    lift (validate_message u.contract (some to_36) none m)
    preauthorize m.message_id m.header.session_id b now
    if m.message_id == 1 then open_payload m b now true else accept_in_session m (u.digest m) now

  unfoldable pub preview_open : Message → Binding → ℕ → Exec Registry Decision
  preview_open m b now = do
    lift (validate_message u.contract (some to_36) none m)
    check (m.message_id == 1) unsupported
    preauthorize 1 m.header.session_id b now
    open_payload m b now false

  -- `_admitted_record`
  unfoldable pub admitted_record : Message → Exec Registry Admission
  admitted_record m = do
    get m.header.session_id
    found ← gets (λ s. lookup Pair-discrete (m.header.session_id, m.header.sequence) s.records)
    a ← some_or out_of_order found
    check (a.digest == u.digest m) duplicate
    check (not a.queued) duplicate
    check (not (has_terminal a.responses)) state
    pure a

  unfoldable pub require_admitted : Message → ℕ → Exec Registry ℕ
  require_admitted m now = do
    lift (validate_message u.contract (some to_36) none m)
    expire now
    a ← admitted_record m
    pure a.received_ns

  unfoldable pub observe_admitted : Message → ℕ → Exec Registry ℕ
  observe_admitted m now = do
    lift (validate_message u.contract (some to_36) none m)
    clock now
    session ← get m.header.session_id
    check (ltb now session.deadline_ns) stale_session
    a ← admitted_record m
    check (ltb now (retained_until a)) out_of_order
    pure a.received_ns

  unfoldable pub claim_admitted : Message → ℕ → Exec Registry ℕ
  claim_admitted m now = do
    received_ns ← require_admitted m now
    let key : ℕ × ℕ = (m.header.session_id, m.header.sequence)
    found ← gets (λ s. lookup Pair-discrete key s.records)
    a ← some_or key_error found
    modify (λ s. record s {
      records = insert Pair-discrete key (record a { queued = true }) s.records;
    })
    pure received_ns
