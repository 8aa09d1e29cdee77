-- ===== src/Simulator/Source/Exchange.antt =====
-- input_simulator/session.py: the exchange of a request with the receiver, and what is built on it.
use hil_simulation.Common.{
  ℕ, ◌+◌, ◌*◌, Bool, true, false, ◌&&◌, Option, some, none, [], ◌∷◌, ◌++◌, leb, ltb, length, max,
  if◌then◌else◌,
}
use hil_simulation.Common.Result.{Result, ok, err, state, capacity}
use hil_simulation.Common.Exec.{Exec, ◌>>=◌, ◌>>◌, continue, pure, gets, lift, modify, check}
use hil_simulation.Runtime.Contract.{Message, Opened, session_open, to_36, validate_message}
use hil_simulation.Simulator.Source.State.{
  Profile, Source, fresh, abandoned, opening, broken, live, clock, operation, record_capacity,
  max_counter, max_reply_bytes,
}
use hil_simulation.Simulator.Source.Attempts.{
  check_first_attempt, claim_heartbeat_attempt, claim_first_attempt,
}
use hil_simulation.Simulator.Source.Replies.{check_reply, grant_of_reply}
use hil_simulation.Simulator.Source.Feedback.{remember_feedback}
use hil_simulation.Simulator.Source.LeaseFeedback.{remember_control_feedback}

-- What the clock shows at the two or three readings of one exchange: at its start, after the reply, and
-- once more in `finally` when no reading followed the start.
pub record Times : Type 0 where
  pub at_start : ℕ
  pub at_reply : ℕ
  pub at_end : ℕ

-- The `finally` of `_exchange`: the record of the exchange, whether it returned or raised.
abbrev pub record_exchange : Profile → Message → Option Message → ℕ → Option ℕ → Source → Source
record_exchange u request reply started completed s = record s {
  records =
      s.records
      ++ record { request = request; reply = reply; started_ns = started; completed_ns = completed }
        ∷ [];
  record_bytes =
      s.record_bytes + u.json_bytes request + (elim reply [ none ↦ 0 | some m ↦ u.json_bytes m ]);
}

-- The record of an exchange that has read no time after its start.
abbrev pub record_unfinished : Profile → Message → Option Message → ℕ → ℕ → Source → Source
record_unfinished u request reply started now s = elim (clock now s).0 [
  | ok _ ↦ record_exchange u request reply started (some now) (clock now s).1
  | err _ ↦ record_exchange u request reply started none (clock now s).1
]

-- The three steps before the transport sends.
unfoldable pub attempt : Message → Exec Source (Unit {0})
unfolding check_first_attempt claim_heartbeat_attempt claim_first_attempt
attempt request = do
  check_first_attempt request false
  claim_heartbeat_attempt request
  claim_first_attempt request

module _ (u : Profile) where
  -- What a reply does that came back at a time, the record aside.
  unfoldable pub take_reply : Message → ℕ → ℕ → Message → Exec Source Message
  unfolding check_reply remember_feedback remember_control_feedback
  take_reply request started completed reply = do
    seen ← gets (λ s. s.seen_sessions)
    lift (check_reply u request reply seen started completed)
    is_fresh ← gets (λ s. ltb s.last_rx_sequence reply.header.sequence)
    remember_feedback u request reply started completed is_fresh
    modify (remember_control_feedback u request reply started completed is_fresh)
    modify (λ s. record s { last_rx_sequence = max s.last_rx_sequence reply.header.sequence })
    pure reply

  -- A reply of the transport, of which at most `MAX_REPLY_BYTES` are kept.
  abbrev pub receive : Message → Times → Message → Exec Source Message
  receive request t reply s =
      if ltb max_reply_bytes (u.json_bytes reply)
      then (err capacity, record_unfinished u request none t.at_start t.at_reply s)
      else elim (clock t.at_reply s).0 [
        | err code ↦ (
          err code,
          record_unfinished u request (some reply) t.at_start t.at_end (clock t.at_reply s).1,
        )
        | ok _ ↦
            let after = take_reply request t.at_start t.at_reply reply (clock t.at_reply s).1 in
            (after.0, record_exchange u request (some reply) t.at_start (some t.at_reply) after.1)
      ]

  -- The transport's answer to a request that was attempted; an `OSError` is the code STATE.
  abbrev pub answered : Message → Times → Result Message → Exec Source Message
  answered request t (err code) s =
      (err code, record_unfinished u request none t.at_start t.at_reply s)
  answered request t (ok reply) s = receive request t reply s

  abbrev pub attempted_exchange : Message → Times → Result Message → Exec Source Message
  attempted_exchange request t answer s = elim (attempt request s).0 [
    | err code ↦
        (err code, record_unfinished u request none t.at_start t.at_reply (attempt request s).1)
    | ok _ ↦ answered request t answer (attempt request s).1
  ]

  -- `_exchange`
  unfoldable pub exchange : Message → Times → Result Message → Exec Source Message
  unfolding record_capacity clock attempt take_reply
  exchange request t answer = do
    record_capacity u (u.json_bytes request)
    clock t.at_start
    attempted_exchange request t answer

  -- The opening request; `nonce` is random.
  abbrev pub opening_message : ℕ → ℕ → Message
  opening_message nonce transaction = record {
    message_id = 1;
    header = record {
      session_id = 0;
      sequence = 1;
      target_step = 0;
      transaction_id = transaction;
      valid_for_ms = 1000;
    };
    payload = session_open u.identity u.roles_requested u.contract.baseline_sha256 nonce;
  }

  -- What an accepted grant makes of the session.
  abbrev pub opened : Opened → ℕ → Source → Source
  opened p started s = record s {
    sid = some p.granted_id;
    seen_sessions = p.granted_id ∷ s.seen_sessions;
    roles = p.accepted_roles;
    capabilities = some p.capabilities;
    deadline_ns = started + p.lease_ms * 1_000_000;
    next_sequence = 2;
    phase = live;
  }

  abbrev pub may_open : Source → Bool
  may_open s = elim s.phase [ fresh ↦ true | abandoned ↦ true | _ ↦ false ]

  abbrev pub finish_open : ℕ → Result Message → Exec Source Message
  finish_open started (err code) s = (err code, record s { phase = broken })
  finish_open started (ok reply) s =
      continue (λ p s. (ok reply, opened p started s)) (grant_of_reply u reply.payload) s

  -- `open`, whose clock shows `now` before the exchange.
  pub open_session : ℕ → ℕ → Times → Result Message → Exec Source Message
  unfolding operation record_capacity clock exchange
  open_session nonce now t answer = operation do
    ready ← gets may_open
    check ready state
    room ← gets (λ s. ltb (length s.seen_sessions) 10_000 && leb s.next_transaction max_counter)
    check room capacity
    transaction ← gets (λ s. s.next_transaction)
    let request = opening_message nonce transaction
    lift (validate_message u.contract (some to_36) none request)
    record_capacity u (u.json_bytes request)
    clock now
    modify (λ s. record s { next_transaction = s.next_transaction + 1; phase = opening })
    (λ s. finish_open t.at_start (exchange request t answer s).0 (exchange request t answer s).1)
