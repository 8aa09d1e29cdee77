-- ===== src/Gateway/Registry/Fresh.antt =====
-- icd_gateway/session.py: a sequence number is admitted at most once in a session.
use hil_simulation.Common.{
  ℕ, ◌+◌, ◌*◌, ◌<◌, ◌≡◌, ◌≢◌, refl, sym, ap, ◌∙◌, Bool, true, false, Option, some, none, ltb, ◌==◌,
  ℕ_discrete, if◌then◌else◌, arith, Bool-cases, inl, inr, ltb→lt,
}
use hil_simulation.Common.Dict.{Dict, lookup, insert}
use hil_simulation.Common.Dict.Laws.{lookup-insert}
use hil_simulation.Common.Result.{ok, Result-cases}
use hil_simulation.Common.Exec.{Exec, lift, bind-eq-ok, after-ok}
use hil_simulation.Runtime.Contract.{Message, validate_message, to_36}
use hil_simulation.Gateway.Registry.State.{
  Binding, Session, Admission, Decision, Setup, Registry, expire, get, ensure_open,
}
use hil_simulation.Gateway.Registry.Accept.{
  remember, make_room, replay, accept_in_session, accept, admit_new, answer_again, admitted_session,
  preauthorize, authorize_session, link_grant, grant_at, open_payload,
}

module _ (u : Setup) where
  sessions-remember :
      (key : ℕ × ℕ) (digest now : ℕ) (s : Registry)
      → (remember u key digest now s).1.sessions ≡ s.sessions
  unfolding remember make_room
  sessions-remember key digest now s = ground arith

  self_lookup :
      (k : ℕ) (v : Session) (d : Dict ℕ Session)
      → lookup ℕ_discrete k (insert ℕ_discrete k v d) ≡ some v
  self_lookup k v d = ground (arith, lookup-insert ℕ_discrete k k v d)

  admit_new-after :
      (m : Message) (digest now : ℕ) (x : Session) (s : Registry) {d : Decision}
      → (admit_new u m digest now x s).0 ≡ ok d
      → (x.last_rx < m.header.sequence)
        × (lookup ℕ_discrete m.header.session_id (admit_new u m digest now x s).1.sessions
            ≡ some (admitted_session u m now x))
  unfolding admit_new
  admit_new-after m digest now x s {d} done = elim (Bool-cases (ltb x.last_rx m.header.sequence)) [
    | inr old ↦ absurd (grind arith)
    | inl fresh ↦
        let key : ℕ × ℕ = (m.header.session_id, m.header.sequence) in
        elim (Result-cases (remember u key digest now s).0) [
          | inr (code, failed) ↦ absurd (ground arith)
          | inl (_, kept) ↦ (
            ltb→lt x.last_rx m.header.sequence fresh,
            ground (
              arith,
              self_lookup m.header.session_id (admitted_session u m now x)
                  (remember u key digest now s).1.sessions,
            ),
          )
        ]
  ]

  answer_again-replays :
      (m : Message) (digest : ℕ) (old : Admission) (s : Registry) {d : Decision}
      → (answer_again u m digest old s).0 ≡ ok d
      → d.replay ≢ none
  unfolding answer_again replay
  answer_again-replays m digest old s {d} done = ground arith

  get-found :
      (sid : ℕ) (s : Registry) {x : Session}
      → (get sid s).0 ≡ ok x
      → (lookup ℕ_discrete sid s.sessions ≡ some x) × ((get sid s).1 ≡ s)
  unfolding get ensure_open
  get-found sid s {x} done = ground arith

  settle :
      (m : Message) (digest now : ℕ) (x : Session) (previous : Option Admission) (s : Registry)
      {d : Decision}
      → ((elim previous as (λ o. Exec Registry Decision) [
        | some old ↦ answer_again u m digest old
        | none ↦ admit_new u m digest now x
      ])
          s).0
        ≡ ok d
      → d.replay ≡ none
      → (x.last_rx < m.header.sequence)
        × (lookup ℕ_discrete m.header.session_id
              ((elim previous as (λ o. Exec Registry Decision) [
                | some old ↦ answer_again u m digest old
                | none ↦ admit_new u m digest now x
              ])
                s).1.sessions
            ≡ some (admitted_session u m now x))
  settle m digest now x none s done new = admit_new-after m digest now x s done
  settle m digest now x (some old) s done new =
      absurd (answer_again-replays m digest old s done new)

  -- A message of a session that is admitted and is no replay.
  accept_in_session-fresh :
      (m : Message) (digest now : ℕ) (s : Registry) {d : Decision}
      → (accept_in_session u m digest now s).0 ≡ ok d
      → d.replay ≡ none
      → (x : Session) × (lookup ℕ_discrete m.header.session_id s.sessions ≡ some x)
        × (x.last_rx < m.header.sequence)
        × (lookup ℕ_discrete m.header.session_id (accept_in_session u m digest now s).1.sessions
            ≡ some (admitted_session u m now x))
  unfolding accept_in_session
  accept_in_session-fresh m digest now s {d} done new =
      let (x, found, rest, after) = bind-eq-ok (get m.header.session_id) _ s done in
      let (here, same) = get-found m.header.session_id s found in
      let (fresh, at_end) = settle m digest now x _ (get m.header.session_id s).1 rest new in
      (x, here, fresh, ap (λ r. lookup ℕ_discrete m.header.session_id r.sessions) after ∙ at_end)

  -- `preauthorize` only reads, past its `expire`.
  preauthorize-state :
      (mid sid : ℕ) (b : Binding) (now : ℕ) (s : Registry)
      → (preauthorize u mid sid b now s).1 ≡ (expire now s).1
  unfolding preauthorize authorize_session link_grant grant_at get ensure_open
  preauthorize-state mid sid b now s = ground arith

  choose_other :
      {A : Type 0} (test : Bool) (f g : Exec Registry A) (s : Registry)
      → test ≡ false
      → (if test then f else g) s ≡ g s
  choose_other true f g s h = cc
  choose_other false f g s h = refl

  -- `accept` of a message other than a SessionOpen, past the ingress checks.
  accept-other :
      (m : Message) (b : Binding) (now : ℕ) (s : Registry) {d : Decision}
      → (m.message_id == 1) ≡ false
      → (accept u m b now s).0 ≡ ok d
      → accept u m b now s ≡ accept_in_session u m (u.digest m) now (expire now s).1
  unfolding accept
  accept-other m b now s {d} other done =
      let (_, valid, ingress, after) =
        bind-eq-ok (lift (validate_message u.contract (some to_36) none m)) _ s done in
      let (_, allowed, rest, later) =
        bind-eq-ok (preauthorize u m.message_id m.header.session_id b now) _ s ingress in
      after-ok (lift (validate_message u.contract (some to_36) none m)) _ s valid
      ∙ after-ok (preauthorize u m.message_id m.header.session_id b now) _ s allowed
      ∙ choose_other (m.message_id == 1) (open_payload u m b now true)
          (accept_in_session u m (u.digest m) now)
          (preauthorize u m.message_id m.header.session_id b now s).1 other
      ∙ ap (accept_in_session u m (u.digest m) now)
          (preauthorize-state m.message_id m.header.session_id b now s)

  -- What the admission of a message makes of its session.
  pub record AdmittedBy (m : Message) (now : ℕ) (before after : Session) : Type 0 where
    pub last : after.last_rx ≡ m.header.sequence
    pub renewed : m.message_id ≡ 2 → after.deadline_ns ≡ now + u.policy.session_lease_ms * 1_000_000
    pub not_renewed : m.message_id ≢ 2 → after.deadline_ns ≡ before.deadline_ns
    pub same_grant : after.grant ≡ before.grant
    pub same_roles : after.roles ≡ before.roles
    pub same_nonce : after.nonce ≡ before.nonce
    pub same_last_tx : after.last_tx ≡ before.last_tx

  admitted_session-AdmittedBy :
      (m : Message) (now : ℕ) (x : Session) → AdmittedBy m now x (admitted_session u m now x)
  admitted_session-AdmittedBy m now x = record {
    last = refl;
    renewed = λ e. ground arith;
    not_renewed = λ e. ground arith;
    same_grant = refl;
    same_roles = refl;
    same_nonce = refl;
    same_last_tx = refl;
  }

  -- A message other than a SessionOpen that `accept` takes and does not answer from its cache: its
  -- session was open at that time, and its sequence is above the session's last. Afterwards the
  -- session has this sequence as its last; a heartbeat (message 2) sets its deadline to a lease from
  -- now, any other message leaves the deadline; and its grant, roles, nonce and last sent sequence
  -- are those from before.
  pub accept-fresh :
      (m : Message) (b : Binding) (now : ℕ) (s : Registry) {d : Decision}
      → (m.message_id == 1) ≡ false
      → (accept u m b now s).0 ≡ ok d
      → d.replay ≡ none
      → (x : Session) × (y : Session) × (lookup ℕ_discrete m.header.session_id
            (expire now s).1.sessions
          ≡ some x)
        × (lookup ℕ_discrete m.header.session_id (accept u m b now s).1.sessions ≡ some y)
        × (x.last_rx < m.header.sequence)
        × AdmittedBy m now x y
  accept-fresh m b now s {d} other done new =
      let whole = accept-other m b now s other done in
      let (x, here, above, at_end) =
        accept_in_session-fresh m (u.digest m) now (expire now s).1
          (ap (λ r. r.0) (sym whole) ∙ done) new in
      (
        x,
        admitted_session u m now x,
        here,
        ap (λ r. lookup ℕ_discrete m.header.session_id r.1.sessions) whole ∙ at_end,
        above,
        admitted_session-AdmittedBy m now x,
      )
