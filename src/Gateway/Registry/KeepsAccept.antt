-- ===== src/Gateway/Registry/KeepsAccept.antt =====
-- icd_gateway/session.py: the closure of Keeps.antt, for the admission of messages and the feedback.
use hil_simulation.Common.{
  ℕ, ◌+◌, ◌*◌, ◌<◌, ◌≡◌, Bool, true, false, Option, some, none, List, ltb, ◌==◌, length, ℕ_discrete,
  if◌then◌else◌, arith, Bool-cases, inl, inr, ltb→lt,
}
use hil_simulation.Common.Dict.{Dict, lookup}
use hil_simulation.Common.Result.{key_error}
use hil_simulation.Common.Exec.{Exec, ◌>>◌, pure, raise, lift, Keeps, Keeps-bind, Keeps-check}
use hil_simulation.Runtime.Contract.{
  Identity, Message, Payload, session_open, validate_message, to_36,
}
use hil_simulation.Gateway.Registry.State.{
  Binding, Pair-discrete, Session, Admission, Decision, Setup, Registry, ensure_open, get,
}
use hil_simulation.Gateway.Registry.Accept.{
  link_grant, grant_at, authorize_session, preauthorize, make_room, remember, replay, allocate,
  reopen, can_open, opening, answer_again, admitted_session, admit_new, accept_in_session,
  open_payload, millisecond, accept, preview_open,
}
use hil_simulation.Gateway.Registry.Keeps.{Closed, On, expire-Keeps, get-Keeps}

module _ (u : Setup) (P : ℕ → Dict ℕ Session → Type 0) (z : Closed u P) where
  abbrev InP : Registry → Type 0
  InP = On u P z

  pub preauthorize-Keeps :
      (mid sid : ℕ) (b : Binding) (now : ℕ) → Keeps InP (preauthorize u mid sid b now)
  unfolding preauthorize authorize_session link_grant grant_at get ensure_open
  preauthorize-Keeps mid sid b now s h = ground (arith, expire-Keeps u P z now s h)

  remember-Keeps : (key : ℕ × ℕ) (digest now : ℕ) → Keeps InP (remember u key digest now)
  unfolding remember make_room
  remember-Keeps key digest now s h = ground arith

  allocate-Keeps :
      (grant : ℕ) (roles : List ℕ) (nonce digest now : ℕ) (s : Registry)
      → length s.sessions < u.max_sessions
      → InP s
      → InP (allocate u grant roles nonce digest now s).1
  unfolding allocate
  allocate-Keeps grant roles nonce digest now s room h =
      let x : Session = record {
        grant = grant;
        roles = roles;
        nonce = nonce;
        deadline_ns = now + u.policy.session_lease_ms * millisecond;
        last_rx = 1;
        last_tx = 0;
      } in
      Keeps-bind InP (remember u (s.next_id, 1) digest now) _
        (remember-Keeps (s.next_id, 1) digest now) (λ _ s' h'. h') _
        (z.allocated x s.next_id s.sessions room h)

  reopen-Keeps : (old : ℕ × ℕ × ℕ) (digest : ℕ) → Keeps InP (reopen u old digest)
  unfolding reopen replay get ensure_open
  reopen-Keeps old digest s h = ground arith

  can_open-Keeps :
      {A : Type 0} (grant nonce : ℕ) (f : Exec Registry A)
      → ((s : Registry) → length s.sessions < u.max_sessions → InP s → InP (f s).1)
      → Keeps InP (can_open u grant nonce >> f)
  unfolding can_open
  can_open-Keeps grant nonce f kf s h = elim (Bool-cases (ltb (length s.sessions) u.max_sessions)) [
    | inr full ↦ ground arith
    | inl room ↦ ground (arith, kf s (ltb→lt _ _ room) h)
  ]

  admit_new-Keeps :
      (m : Message) (digest now : ℕ) (x : Session) (s : Registry)
      → lookup ℕ_discrete m.header.session_id s.sessions ≡ some x
      → InP s
      → InP (admit_new u m digest now x s).1
  unfolding admit_new remember make_room
  admit_new-Keeps m digest now x s found h = elim (Bool-cases (ltb x.last_rx m.header.sequence)) [
    | inr old ↦ ground arith
    | inl fresh ↦
        let above = ltb→lt x.last_rx m.header.sequence fresh in
        ground (
          arith,
          z.renewed m.header.session_id x (admitted_session u m now x) s.next_id s.sessions found
              (omega arith) h,
        )
  ]

  answer_again-Keeps :
      (m : Message) (digest : ℕ) (old : Admission) → Keeps InP (answer_again u m digest old)
  unfolding answer_again replay
  answer_again-Keeps m digest old s h = ground arith

  reply_or_open :
      (previous : Option (ℕ × ℕ × ℕ)) (grant : ℕ) (roles : List ℕ) (nonce digest now : ℕ)
      (allocating : Bool)
      → Keeps InP (elim previous as (λ o. Exec Registry Decision) [
        | some old ↦ reopen u old digest
        | none ↦
            can_open u grant nonce
            >> (if allocating
                then allocate u grant roles nonce digest now
                else pure (record { session_id = 0; replay = none }))
      ])
  reply_or_open (some old) grant roles nonce digest now allocating = reopen-Keeps old digest
  reply_or_open none grant roles nonce digest now true =
      can_open-Keeps grant nonce _ (allocate-Keeps grant roles nonce digest now)
  reply_or_open none grant roles nonce digest now false =
      can_open-Keeps grant nonce _ (λ s room h. h)

  link_grant-Keeps : (b : Binding) → Keeps InP (link_grant u b)
  unfolding link_grant
  link_grant-Keeps b s h = ground arith

  grant_at-Keeps : (index : ℕ) → Keeps InP (grant_at u index)
  unfolding grant_at
  grant_at-Keeps index s h = ground arith

  opening-Keeps :
      (identity : Identity) (roles : List ℕ) (nonce : ℕ) (b : Binding) (now digest : ℕ)
      (allocating : Bool)
      → Keeps InP (opening u identity roles nonce b now digest allocating)
  unfolding opening
  opening-Keeps identity roles nonce b now digest allocating =
      Keeps-bind InP (link_grant u b) _ (link_grant-Keeps b) (λ index.
        Keeps-bind InP (grant_at u index) _ (grant_at-Keeps index) (λ grant.
          Keeps-check InP _ _ _ (λ s h.
            reply_or_open (lookup Pair-discrete (index, nonce) s.opens) index roles nonce digest now
              allocating s h)))

  open_payload-Keeps :
      (m : Message) (b : Binding) (now : ℕ) (allocating : Bool)
      → Keeps InP (open_payload u m b now allocating)
  unfolding open_payload
  open_payload-Keeps m b now allocating s h = go m.payload
    where
      go :
          (p : Payload)
          → InP
              ((elim p as (λ o. Exec Registry Decision) [
                | session_open identity roles baseline nonce ↦
                    opening u identity roles nonce b now (u.digest m) allocating
                | _ ↦ raise key_error
              ])
                s).1
      go (session_open identity roles baseline nonce) =
          opening-Keeps identity roles nonce b now (u.digest m) allocating s h
      go _ = h

  again_or_new :
      (previous : Option Admission) (m : Message) (digest now : ℕ) (x : Session) (s : Registry)
      → lookup ℕ_discrete m.header.session_id s.sessions ≡ some x
      → InP s
      → InP
          ((elim previous as (λ o. Exec Registry Decision) [
            | some old ↦ answer_again u m digest old
            | none ↦ admit_new u m digest now x
          ])
            s).1
  again_or_new (some old) m digest now x s found h = answer_again-Keeps m digest old s h
  again_or_new none m digest now x s found h = admit_new-Keeps m digest now x s found h

  accept_in_session-Keeps :
      (m : Message) (digest now : ℕ) → Keeps InP (accept_in_session u m digest now)
  unfolding accept_in_session
  accept_in_session-Keeps m digest now = get-Keeps u P z m.header.session_id _ (λ x s found h.
      again_or_new (lookup Pair-discrete (m.header.session_id, m.header.sequence) s.records) m
        digest now x s found h)

  choice-Keeps :
      {A : Type 0} (test : Bool) (f g : Exec Registry A)
      → Keeps InP f
      → Keeps InP g
      → Keeps InP (if test then f else g)
  choice-Keeps true f g kf kg s h = kf s h
  choice-Keeps false f g kf kg s h = kg s h

  pub accept-Keeps : (m : Message) (b : Binding) (now : ℕ) → Keeps InP (accept u m b now)
  unfolding accept
  accept-Keeps m b now =
      Keeps-bind InP (lift (validate_message u.contract (some to_36) none m)) _ (λ s h. h)
        (λ _.
          Keeps-bind InP (preauthorize u m.message_id m.header.session_id b now) _
            (preauthorize-Keeps m.message_id m.header.session_id b now)
            (λ _.
              choice-Keeps (m.message_id == 1) _ _ (open_payload-Keeps m b now true)
                (accept_in_session-Keeps m (u.digest m) now)))

  pub preview_open-Keeps :
      (m : Message) (b : Binding) (now : ℕ) → Keeps InP (preview_open u m b now)
  unfolding preview_open
  preview_open-Keeps m b now =
      Keeps-bind InP (lift (validate_message u.contract (some to_36) none m)) _ (λ s h. h)
        (λ _. Keeps-check InP (m.message_id == 1) _ _ (
          Keeps-bind InP (preauthorize u 1 m.header.session_id b now) _
            (preauthorize-Keeps 1 m.header.session_id b now)
            (λ _. open_payload-Keeps m b now false)))
