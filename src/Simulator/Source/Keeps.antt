-- ===== src/Simulator/Source/Keeps.antt =====
-- input_simulator/session.py: what the operations do to the state, as a closure: a property that the single
-- changes keep is kept by every operation.
use hil_simulation.Common.{ℕ, false, not, Option, some, none, List, [], ◌∷◌, arith, ◌==◌}
use hil_simulation.Common.Dict.{Dict}
use hil_simulation.Common.Result.{Result, state, unsupported}
use hil_simulation.Common.Exec.{lift, modify, check, Keeps, Keeps-bind, Keeps-check}
use hil_simulation.Runtime.Contract.{
  Message, Payload, Header, Transport, entry, validate_message, to_36,
}
use hil_simulation.Runtime.Wire.{Frame, encode}
use hil_simulation.Simulator.Source.State.{
  Profile, Source, Prepared, operation, record_capacity, discard_input, drain_records,
}
use hil_simulation.Simulator.Source.Attempts.{
  preview_header, commit_header, allocate, allocate_header, check_first_attempt,
  check_heartbeat_transaction, claim_heartbeat_attempt, claim_first_attempt, check_can_attempt,
  can_claimed, claim_can_attempt,
}
use hil_simulation.Simulator.Source.Feedback.{remember_feedback}
use hil_simulation.Simulator.Source.Exchange.{Times, exchange, record_exchange}
use hil_simulation.Simulator.Source.Recording.{
  exchange-Keeps, store_input-Keeps, discard_input-Keeps,
}
use hil_simulation.Simulator.Source.Inner.{
  Inner, preview_header-Keeps, check_first_attempt-Keeps, claim_heartbeat_attempt-Keeps,
  claim_first_attempt-Keeps, operation-Keeps,
}
use hil_simulation.Simulator.Source.Requests.{
  request, request_now, heartbeat, is_input_transport, store_input, prepare_input,
}
use hil_simulation.Simulator.Source.Operations.{
  Op, allocates, requests, beats, prepares, discards, attempts_can, hears, drains, apply, run,
  remember_model_feedback,
}

-- The changes that whole operations add.
pub record Outer (u : Profile) (P : Source → Type 0) : Type 0 where
  pub inner : Inner u P
  pub commits : (h : Header) (mid : ℕ) (s : Source) → P s → P (commit_header u h mid s)
  pub exchanged :
      (m : Message) (t : Times) (answer : Result Message) → Keeps P (exchange u m t answer)
  pub extended : (deadline : ℕ) (s : Source) → P s → P (record s { deadline_ns = deadline })
  pub stores :
      (key later : ℕ) (value : Message) (transport : Transport) (frames : List Frame)
      → Keeps P (store_input u key later value transport frames)
  pub discards : (key : ℕ) → Keeps P (discard_input key)
  pub drained : (s : Source) → P s → P (record s { records = []; record_bytes = 0 })
  pub can_claimed :
      (a b : Option (ℕ × ℕ)) (s : Source)
      → P s
      → P (record s { can_attempt = a; can_heartbeat = b })

-- A property that is not about the evidence: no record and no input touches it.
pub record Free (u : Profile) (P : Source → Type 0) : Type 0 where
  pub inner : Inner u P
  pub commits : (h : Header) (mid : ℕ) (s : Source) → P s → P (commit_header u h mid s)
  pub recorded :
      (m : Message) (reply : Option Message) (started : ℕ) (completed : Option ℕ) (s : Source)
      → P s
      → P (record_exchange u m reply started completed s)
  pub extended : (deadline : ℕ) (s : Source) → P s → P (record s { deadline_ns = deadline })
  pub stored :
      (d : Dict ℕ (Prepared × ℕ)) (n : ℕ) (s : Source)
      → P s
      → P (record s { inputs = d; input_bytes = n })
  pub drained : (s : Source) → P s → P (record s { records = []; record_bytes = 0 })
  pub can_claimed :
      (a b : Option (ℕ × ℕ)) (s : Source)
      → P s
      → P (record s { can_attempt = a; can_heartbeat = b })

pub Free-Outer : (u : Profile) (P : Source → Type 0) → Free u P → Outer u P
Free-Outer u P z = record {
  inner = z.inner;
  commits = z.commits;
  exchanged = exchange-Keeps u P z.inner z.recorded;
  extended = z.extended;
  stores = store_input-Keeps u P z.inner z.commits z.stored;
  discards = discard_input-Keeps u P z.inner z.commits z.stored;
  drained = z.drained;
  can_claimed = z.can_claimed;
}

module _ (u : Profile) (P : Source → Type 0) (z : Outer u P) where
  pub allocate_header-Keeps :
      (now mid at : ℕ) (txn : Option ℕ) → Keeps P (allocate_header u now mid at txn)
  unfolding allocate_header allocate operation
  allocate_header-Keeps now mid at txn =
      Keeps-bind {B = Header} P (λ s. check (not s.closed) state s) _ (λ s h. ground (arith, h))
        λ _.
          Keeps-bind {B = Header} P (preview_header u now mid at txn) _
            (preview_header-Keeps u P z.inner now mid at txn)
            (λ header s h. z.commits header mid s h)

  pub request_now-Keeps :
      (now mid : ℕ) (payload : Payload) (at : ℕ) (txn : Option ℕ) (t : Times)
      (answer : Result Message)
      → Keeps P (request_now u now mid payload at txn t answer)
  unfolding request_now record_capacity check_heartbeat_transaction
  request_now-Keeps now mid payload at txn t answer =
      Keeps-bind {B = Message} P (lift (entry u.contract mid)) _ (λ s h. h)
        λ e.
          Keeps-bind {B = Message} P (record_capacity u _) _ (λ s h. ground (arith, h))
            λ _.
              Keeps-bind {B = Message} P (preview_header u now mid at txn) _
                (preview_header-Keeps u P z.inner now mid at txn)
                (λ header.
                  Keeps-bind {B = Message} P (check_heartbeat_transaction mid header.transaction_id)
                    _ (λ s h. ground (arith, h))
                    (λ _. λ s h.
                      let sent : Message = record {
                        message_id = mid;
                        header = header;
                        payload = payload;
                      } in
                      Keeps-bind {A = Unit {0}} {B = Message} P
                        (lift (validate_message u.contract (some to_36) none sent))
                        (λ _. exchange u sent t answer) (λ s h. h) (λ _. z.exchanged sent t answer)
                        (commit_header u header mid s) (z.commits header mid s h)))

  request-Keeps :
      (now mid : ℕ) (payload : Payload) (at : ℕ) (txn : Option ℕ) (t : Times)
      (answer : Result Message)
      → Keeps P (request u now mid payload at txn t answer)
  unfolding request
  request-Keeps now mid payload at txn t answer =
      operation-Keeps P (request_now u now mid payload at txn t answer)
        (request_now-Keeps now mid payload at txn t answer)

  heartbeat-Keeps :
      (now : ℕ) (payload : Payload) (at : ℕ) (t : Times) (answer : Result Message)
      → Keeps P (heartbeat u now payload at t answer)
  unfolding heartbeat
  heartbeat-Keeps now payload at t answer = operation-Keeps P _ (
      Keeps-bind {B = Message} P (request_now u now 2 payload at none t answer) _
        (request_now-Keeps now 2 payload at none t answer) (λ reply s h. z.extended _ s h))

  drain_records-Keeps : Keeps P drain_records
  unfolding drain_records
  drain_records-Keeps = operation-Keeps P _ (λ s h. z.drained s h)

  prepare_input-Keeps :
      (key now later : ℕ) (m : Message) (transport : Transport) (at : ℕ) (txn : Option ℕ)
      → Keeps P (prepare_input u key now later m transport at txn)
  unfolding prepare_input
  prepare_input-Keeps key now later m transport at txn = operation-Keeps P _ (
      Keeps-check P (not (m.message_id == 1)) state _ (
        Keeps-check P (is_input_transport u transport) unsupported _ (
          Keeps-bind {B = Prepared} P (preview_header u now m.message_id at txn) _
            (preview_header-Keeps u P z.inner now m.message_id at txn)
            (λ header.
              Keeps-bind {B = Prepared} P
                (lift (
                  encode u.contract u.checksums u.payload_encode (record m { header = header })
                    transport))
                _ (λ s h. h)
                (λ frames. z.stores key later (record m { header = header }) transport frames)))))

  claim_can_attempt-Keeps :
      (transport : Transport) (m : Message) → Keeps P (claim_can_attempt transport m)
  unfolding claim_can_attempt check_can_attempt
  claim_can_attempt-Keeps transport m =
      Keeps-bind {B = Unit {0}} P (check_can_attempt transport m) _ (λ s h. ground (arith, h))
        λ _.
          Keeps-bind {B = Unit {0}} P (check_first_attempt m false) _
            (check_first_attempt-Keeps u P z.inner m false)
            (λ _.
              Keeps-bind {B = Unit {0}} P (claim_heartbeat_attempt m) _
                (claim_heartbeat_attempt-Keeps u P z.inner m)
                (λ _.
                  Keeps-bind {B = Unit {0}} P (claim_first_attempt m) (λ _. modify (can_claimed m))
                    (claim_first_attempt-Keeps u P z.inner m) (λ _ s h. z.can_claimed _ _ s h)))

  pub apply-Keeps : (op : Op) (s : Source) → P s → P (apply u op s)
  unfolding remember_model_feedback
  apply-Keeps (allocates now mid at txn) s h = allocate_header-Keeps now mid at txn s h
  apply-Keeps (requests now mid payload at txn t answer) s h =
      request-Keeps now mid payload at txn t answer s h
  apply-Keeps (beats now payload at t answer) s h = heartbeat-Keeps now payload at t answer s h
  apply-Keeps (prepares key now later m transport at txn) s h =
      prepare_input-Keeps key now later m transport at txn s h
  apply-Keeps (discards key) s h = z.discards key s h
  apply-Keeps (attempts_can transport m) s h = claim_can_attempt-Keeps transport m s h
  apply-Keeps (hears sent reply started completed is_fresh) s h =
      Keeps-bind {B = Unit {0}} P (remember_feedback u sent reply started completed is_fresh) _
        (z.inner.told sent reply started completed is_fresh)
        (λ _ s h. z.inner.controlled sent reply started completed is_fresh s h) s h
  apply-Keeps drains s h = drain_records-Keeps s h

  -- Whatever is done in a session keeps it.
  pub run-Keeps : (ops : List Op) (s : Source) → P s → P (run u ops s)
  run-Keeps [] s h = h
  run-Keeps (op ∷ ops) s h = run-Keeps ops (apply u op s) (apply-Keeps op s h)
