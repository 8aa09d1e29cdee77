-- ===== src/Simulator/Source/Bounds.antt =====
-- input_simulator/session.py: the bounds of the evidence that a source keeps.
use hil_simulation.Common.{
  ℕ, ◌+◌, ◌-◌, ◌≤◌, refl, ◌&&◌, Option, some, none, List, [], ◌∷◌, leb, ltb, length, length-append,
  arith, ℕ_discrete,
}
use hil_simulation.Common.Dict.{lookup, remove}
use hil_simulation.Common.Dict.Laws.{length-remove-le}
use hil_simulation.Common.Result.{Result, ok, state, buffer_full, stale_session}
use hil_simulation.Common.Exec.{◌>>◌, Keeps, check-cases, through, some_or-cases}
use hil_simulation.Runtime.Contract.{Message, Transport}
use hil_simulation.Runtime.Wire.{Frame}
use hil_simulation.Simulator.Source.State.{
  Profile, Source, Exchange, Prepared, clock, record_capacity, discard_input, max_reply_bytes,
}
use hil_simulation.Simulator.Source.Attempts.{commit_header}
use hil_simulation.Simulator.Source.Exchange.{Times, exchange, attempted_exchange, record_exchange}
use hil_simulation.Simulator.Source.Requests.{store_input, frames_bytes}
use hil_simulation.Simulator.Source.Kept.{
  Kept, records_total, inputs_total, records_total-append, stored_more, discarded,
}
use hil_simulation.Simulator.Source.Operations.{Op, run}
use hil_simulation.Simulator.Source.Inner.{Inner, clock-Keeps, operation-Keeps}
use hil_simulation.Simulator.Source.Recording.{Fits, attempted_exchange-Q}
use hil_simulation.Simulator.Source.Keeps.{Outer, run-Keeps}
use hil_simulation.Simulator.Source.Learns.{
  Learns, remember_feedback-Keeps, remember_control_feedback-P,
}

-- The evidence, with `more` entries and bytes to come, is within the limits, and its counters are true.
abbrev pub Room : Profile → ℕ → ℕ → Source → Type 0
Room u entries more s =
    (length s.records + length s.inputs + entries ≤ u.max_records)
    × (s.record_bytes + s.input_bytes + more ≤ u.max_record_bytes)
    × Kept u s.records s.record_bytes s.inputs s.input_bytes

-- The records and the inputs are within the two limits by the counters, and the counters are true.
abbrev pub InLimits : Profile → Source → Type 0
InLimits u s = Room u 0 0 s

module _ (u : Profile) (n more : ℕ) where
  Room-Learns : Learns (Room u n more)
  Room-Learns = record { observes = λ o floor q t b e s h. h; leads = λ l m w s h. h }

  Room-Inner : Inner u (Room u n more)
  Room-Inner = record {
    timed = λ now s h. h;
    claims = λ m s h. ground (arith, h);
    beat = λ last s h. h;
    told = remember_feedback-Keeps u (Room u n more) Room-Learns;
    controlled = remember_control_feedback-P u (Room u n more) Room-Learns;
    heard = λ m s h. h;
  }

  Room-InLimits : (s : Source) → Room u n more s → InLimits u s
  Room-InLimits s h = (omega (arith, h), omega (arith, h), h.2)

module _ (u : Profile) where
  recorded-InLimits :
      (m : Message) (reply : Option Message) (started : ℕ) (completed : Option ℕ) (s : Source)
      → Fits u reply
      → Room u 1 (u.json_bytes m + max_reply_bytes) s
      → InLimits u (record_exchange u m reply started completed s)
  recorded-InLimits m none started completed s fits h =
      let e : Exchange = record {
        request = m;
        reply = none;
        started_ns = started;
        completed_ns = completed;
      } in
      (
        omega (arith, h, length-append s.records (e ∷ [])),
        omega (arith, h),
        record {
          recorded = omega (arith, h.2.recorded, records_total-append u s.records e);
          sized = h.2.sized;
          stored = h.2.stored;
        },
      )
  recorded-InLimits m (some reply) started completed s fits h =
      let e : Exchange = record {
        request = m;
        reply = some reply;
        started_ns = started;
        completed_ns = completed;
      } in
      (
        omega (arith, h, length-append s.records (e ∷ [])),
        omega (arith, h, fits),
        record {
          recorded = omega (arith, h.2.recorded, records_total-append u s.records e);
          sized = h.2.sized;
          stored = h.2.stored;
        },
      )

  exchange-InLimits :
      (m : Message) (t : Times) (answer : Result Message)
      → Keeps (InLimits u) (exchange u m t answer)
  unfolding exchange record_capacity
  exchange-InLimits m t answer s h =
      let P = Room u 1 (u.json_bytes m + max_reply_bytes) in
      let z = Room-Inner u 1 (u.json_bytes m + max_reply_bytes) in
      check-cases (InLimits u) _ buffer_full (clock t.at_start >> attempted_exchange u m t answer) s
        (λ fits.
          through (InLimits u) P (clock t.at_start) (λ _. attempted_exchange u m t answer)
            (clock-Keeps u P z t.at_start) (Room-InLimits u 1 (u.json_bytes m + max_reply_bytes))
            (λ _ s h. attempted_exchange-Q u P (InLimits u) z m (recorded-InLimits m) t answer s h)
            s (ground (arith, fits), ground (arith, fits), h.2))
        h

  store_input-InLimits :
      (key later : ℕ) (value : Message) (transport : Transport) (frames : List Frame)
      → Keeps (InLimits u) (store_input u key later value transport frames)
  unfolding store_input
  store_input-InLimits key later value transport frames s h =
      let size : ℕ = u.json_bytes value + u.snapshot_bytes value + frames_bytes u frames + 512 in
      let item : Prepared = record {
        message = value;
        transport = transport;
        frames = frames;
        allocated_ns = later;
      } in
      check-cases {A = Prepared} (InLimits u)
        (ltb (length s.records + length s.inputs) u.max_records
          && leb (s.record_bytes + s.input_bytes + size) u.max_record_bytes)
        buffer_full _ s
        (λ fits.
          through {A = Prepared} (InLimits u) (Room u 1 size) (clock later) _
            (clock-Keeps u (Room u 1 size) (Room-Inner u 1 size) later) (Room-InLimits u 1 size)
            (λ _ s h.
              check-cases {A = Prepared} (InLimits u) (ltb later s.deadline_ns) stale_session
                (λ s. (
                  ok item,
                  record (commit_header u value.header value.message_id s) {
                    inputs = (key, (item, size)) ∷ s.inputs;
                    input_bytes = s.input_bytes + size;
                  },
                ))
                s
                (λ timely.
                  (omega (arith, h), omega (arith, h), stored_more u key item size refl h.2))
                (Room-InLimits u 1 size s h))
            s (ground (arith, fits), ground (arith, fits), h.2))
        h

  discard_input-InLimits : (key : ℕ) → Keeps (InLimits u) (discard_input key)
  unfolding discard_input
  discard_input-InLimits key = operation-Keeps (InLimits u) _ (λ s h.
      some_or-cases (InLimits u) state (lookup ℕ_discrete key s.inputs)
        (λ item s. (
          ok tt,
          record s {
            inputs = remove ℕ_discrete key s.inputs;
            input_bytes = s.input_bytes - item.1;
          },
        ))
        s h
        (λ item found. (
          omega (arith, h, length-remove-le ℕ_discrete key s.inputs),
          omega (arith, h),
          discarded u key item found h.2,
        )))

  limits_outer : Outer u (InLimits u)
  limits_outer = record {
    inner = Room-Inner u 0 0;
    commits = λ header mid s h. h;
    exchanged = exchange-InLimits;
    extended = λ deadline s h. h;
    stores = store_input-InLimits;
    discards = discard_input-InLimits;
    drained = λ s h. (
      omega (arith, h),
      omega (arith, h),
      record { recorded = refl; sized = h.2.sized; stored = h.2.stored },
    );
    can_claimed = λ a b s h. h;
  }

  pub run-InLimits :
      (ops : List Op) (s : Source)
      → InLimits u s
      → InLimits u (run u ops s)
        × (length (run u ops s).records + length (run u ops s).inputs ≤ u.max_records)
        × (records_total u (run u ops s).records + inputs_total u (run u ops s).inputs
            ≤ u.max_record_bytes)
  run-InLimits ops s h =
      let (few, small, kept) = run-Keeps u (InLimits u) limits_outer ops s h in
      ((few, small, kept), omega (arith, few), omega (arith, small, kept.recorded, kept.stored))
