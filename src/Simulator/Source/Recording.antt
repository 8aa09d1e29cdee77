-- ===== src/Simulator/Source/Recording.antt =====
-- input_simulator/session.py: the record of an exchange and the store of inputs, as closures.
use hil_simulation.Common.{
  ℕ, ◌≤◌, ◌≡◌, ◌-◌, false, Option, some, none, List, arith, ltb, Bool-cases, inl, inr, ℕ_discrete,
}
use hil_simulation.Common.Dict.{Dict, lookup, remove}
use hil_simulation.Common.Result.{Result, ok, err, state, buffer_full, stale_session, Result-cases}
use hil_simulation.Common.Exec.{some_or, Keeps, Keeps-bind, Keeps-check, Keeps-some_or}
use hil_simulation.Runtime.Contract.{Message, Header, Transport}
use hil_simulation.Runtime.Wire.{Frame}
use hil_simulation.Simulator.Source.State.{
  Profile, Source, Prepared, clock, record_capacity, discard_input, max_reply_bytes,
}
use hil_simulation.Simulator.Source.Attempts.{commit_header}
use hil_simulation.Simulator.Source.Requests.{store_input}
use hil_simulation.Simulator.Source.Inner.{
  Inner, clock-Keeps, take_reply-Keeps, attempt-Keeps, operation-Keeps,
}
use hil_simulation.Simulator.Source.Exchange.{
  Times, attempt, take_reply, receive, answered, attempted_exchange, exchange, record_exchange,
  record_unfinished,
}

-- The reply is within the bytes that an exchange may keep.
abbrev pub Fits : Profile → Option Message → Type 0
Fits u none = Unit
Fits u (some reply) = u.json_bytes reply ≤ max_reply_bytes

ltb-false-le : (a b : ℕ) → ltb a b ≡ false → b ≤ a
ltb-false-le a b h = ground arith

-- From what holds before the record to what holds after it.
module _ (u : Profile) (P Q : Source → Type 0) (z : Inner u P) (m : Message)
    (recorded : (reply : Option Message) (started : ℕ) (completed : Option ℕ) (s : Source)
      → Fits u reply
      → P s
      → Q (record_exchange u m reply started completed s)) where
  record_unfinished-Q :
      (reply : Option Message) (started now : ℕ) (s : Source)
      → Fits u reply
      → P s
      → Q (record_unfinished u m reply started now s)
  record_unfinished-Q reply started now s fits h =
      let h' = clock-Keeps u P z now s h in
      elim (Result-cases (clock now s).0) [
        | inl (a, e) ↦
            rw (record_unfinished, e) (recorded reply started (some now) (clock now s).1 fits h')
        | inr (c, e) ↦
            rw (record_unfinished, e) (recorded reply started none (clock now s).1 fits h')
      ]

  receive-Q : (t : Times) (reply : Message) (s : Source) → P s → Q (receive u m t reply s).1
  receive-Q t reply s h =
      let h' = clock-Keeps u P z t.at_reply s h in
      elim (Bool-cases (ltb max_reply_bytes (u.json_bytes reply))) [
        | inl long ↦ rw (receive, long) (record_unfinished-Q none t.at_start t.at_reply s tt h)
        | inr fits ↦ elim (Result-cases (clock t.at_reply s).0) [
          | inl (a, e) ↦
              rw (receive, fits, e)
                (recorded (some reply) t.at_start (some t.at_reply)
                  (take_reply u m t.at_start t.at_reply reply (clock t.at_reply s).1).1
                  (ltb-false-le _ _ fits)
                  (take_reply-Keeps u P z m t.at_start t.at_reply reply (clock t.at_reply s).1 h'))
          | inr (c, e) ↦
              rw (receive, fits, e)
                (record_unfinished-Q (some reply) t.at_start t.at_end (clock t.at_reply s).1
                  (ltb-false-le _ _ fits) h')
        ]
      ]

  answered-Q :
      (t : Times) (answer : Result Message) (s : Source) → P s → Q (answered u m t answer s).1
  answered-Q t (err code) s h = record_unfinished-Q none t.at_start t.at_reply s tt h
  answered-Q t (ok reply) s h = receive-Q t reply s h

  pub attempted_exchange-Q :
      (t : Times) (answer : Result Message) (s : Source)
      → P s
      → Q (attempted_exchange u m t answer s).1
  attempted_exchange-Q t answer s h =
      let h' = attempt-Keeps u P z m s h in
      elim (Result-cases (attempt m s).0) [
        | inl (a, e) ↦ rw (attempted_exchange, e) (answered-Q t answer (attempt m s).1 h')
        | inr (c, e) ↦
            rw (attempted_exchange, e)
              (record_unfinished-Q none t.at_start t.at_reply (attempt m s).1 tt h')
      ]

module _ (u : Profile) (P : Source → Type 0) (z : Inner u P) where
  pub exchange-Keeps :
      ((m : Message) (reply : Option Message) (started : ℕ) (completed : Option ℕ) (s : Source)
        → P s
        → P (record_exchange u m reply started completed s))
      → (m : Message) (t : Times) (answer : Result Message) → Keeps P (exchange u m t answer)
  unfolding exchange record_capacity
  exchange-Keeps recorded m t answer =
      Keeps-bind {B = Message} P (record_capacity u (u.json_bytes m)) _ (λ s h. ground (arith, h))
        λ _. Keeps-bind {B = Message} P (clock t.at_start) _ (clock-Keeps u P z t.at_start) λ _.
          attempted_exchange-Q u P P z m
            (λ reply started completed s fits h. recorded m reply started completed s h) t answer

module _ (u : Profile) (P : Source → Type 0) (z : Inner u P)
    (commits : (h : Header) (mid : ℕ) (s : Source) → P s → P (commit_header u h mid s))
    (stored : (d : Dict ℕ (Prepared × ℕ)) (n : ℕ) (s : Source)
      → P s
      → P (record s { inputs = d; input_bytes = n })) where
  pub discard_input-Keeps : (key : ℕ) → Keeps P (discard_input key)
  unfolding discard_input
  discard_input-Keeps key = operation-Keeps P _ (λ s h.
      Keeps-bind {B = Unit {0}} P (some_or state (lookup ℕ_discrete key s.inputs)) _
        (Keeps-some_or P state (lookup ℕ_discrete key s.inputs))
        (λ item s h. stored (remove ℕ_discrete key s.inputs) (s.input_bytes - item.1) s h) s h)

  pub store_input-Keeps :
      (key later : ℕ) (value : Message) (transport : Transport) (frames : List Frame)
      → Keeps P (store_input u key later value transport frames)
  unfolding store_input
  store_input-Keeps key later value transport frames s h =
      Keeps-check P _ buffer_full _
        (Keeps-bind {B = Prepared} P (clock later) _ (clock-Keeps u P z later) λ _ s h.
          Keeps-check P (ltb later s.deadline_ns) stale_session _
            (λ s h. stored _ _ _ (commits value.header value.message_id s h)) s h)
        s h
