-- ===== src/Simulator/Source/Requests.antt =====
-- input_simulator/session.py: the requests, the heartbeat and the inputs of a source.
use hil_simulation.Common.{
  ℕ, ◌+◌, ◌*◌, Bool, true, false, ◌&&◌, not, Option, some, none, List, [], ◌∷◌, leb, ltb, ◌==◌,
  length, if◌then◌else◌,
}
use hil_simulation.Common.Result.{Result, state, stale_session, buffer_full, unsupported}
use hil_simulation.Common.Exec.{Exec, ◌>>=◌, ◌>>◌, pure, gets, lift, modify, check}
use hil_simulation.Runtime.Contract.{
  Message, Payload, to_36, Transport, canfd, udp, video, validate_message, entry,
}
use hil_simulation.Runtime.Wire.{Frame, can, datagram, encode}
use hil_simulation.Simulator.Source.State.{
  Profile, Source, Prepared, clock, operation, record_capacity, max_counter,
}
use hil_simulation.Simulator.Source.Attempts.{
  preview_header, commit_header, check_heartbeat_transaction,
}
use hil_simulation.Simulator.Source.Exchange.{Times, exchange}

module _ (u : Profile) where
  -- `_request`, of a Stimulus that the contract has validated; the clock shows `now` at the preview.
  unfoldable pub request_now :
      ℕ → ℕ → Payload → ℕ → Option ℕ → Times → Result Message → Exec Source Message
  unfolding record_capacity preview_header check_heartbeat_transaction exchange
  request_now now mid payload target_step transaction_id t answer = do
    e ← lift (entry u.contract mid)
    let extreme : Message = record {
      message_id = mid;
      header = record {
        session_id = max_counter;
        sequence = max_counter;
        target_step = max_counter;
        transaction_id = max_counter;
        valid_for_ms = e.valid_for;
      };
      payload = payload;
    }
    record_capacity u (u.json_bytes extreme)
    header ← preview_header u now mid target_step transaction_id
    check_heartbeat_transaction mid header.transaction_id
    modify (commit_header u header mid)
    let sent : Message = record { message_id = mid; header = header; payload = payload }
    lift (validate_message u.contract (some to_36) none sent)
    exchange u sent t answer

  -- `request`
  unfoldable pub request :
      ℕ → ℕ → Payload → ℕ → Option ℕ → Times → Result Message → Exec Source Message
  unfolding operation request_now
  request now mid payload target_step transaction_id t answer =
      operation (request_now now mid payload target_step transaction_id t answer)

  -- `heartbeat`; a Status renews the session from the start of the exchange.
  unfoldable pub heartbeat : ℕ → Payload → ℕ → Times → Result Message → Exec Source Message
  unfolding operation request_now
  heartbeat now payload target_step t answer = operation do
    reply ← request_now now 2 payload target_step none t answer
    modify (λ s. record s {
      deadline_ns =
          if reply.message_id == 131
          then t.at_start + u.requested_lease_ms * 1_000_000
          else s.deadline_ns;
    })
    pure reply

  abbrev pub is_input_transport : Transport → Bool
  is_input_transport canfd = true
  is_input_transport udp = true
  is_input_transport video = false

  -- The bytes of a frame.
  abbrev pub frame_bytes : Frame → ℕ
  frame_bytes (can f) = length f.content
  frame_bytes (datagram bytes) = length bytes

  abbrev pub frames_bytes : List Frame → ℕ
  frames_bytes [] = 0
  frames_bytes (f ∷ fs) = frame_bytes f + frames_bytes fs

  -- The end of `_prepare_input`, with the frames of the message; `key` stands for the new object.
  unfoldable pub store_input : ℕ → ℕ → Message → Transport → List Frame → Exec Source Prepared
  unfolding clock
  store_input key later value transport frames = do
    let size : ℕ = u.json_bytes value + u.snapshot_bytes value + frames_bytes frames + 512
    let item : Prepared = record {
      message = value;
      transport = transport;
      frames = frames;
      allocated_ns = later;
    }
    fits ← gets (λ s.
        ltb (length s.records + length s.inputs) u.max_records
        && leb (s.record_bytes + s.input_bytes + size) u.max_record_bytes)
    check fits buffer_full
    clock later
    timely ← gets (λ s. ltb later s.deadline_ns)
    check timely stale_session
    modify (λ s. record (commit_header u value.header value.message_id s) {
      inputs = (key, (item, size)) ∷ s.inputs;
      input_bytes = s.input_bytes + size;
    })
    pure item

  -- `_prepare_input`, of a Stimulus that the contract has validated; the clock is read at `now` and at `later`.
  unfoldable pub prepare_input :
      ℕ → ℕ → ℕ → Message → Transport → ℕ → Option ℕ → Exec Source Prepared
  unfolding operation preview_header store_input
  prepare_input key now later stimulus transport target_step transaction_id = operation do
    check (not (stimulus.message_id == 1)) state
    check (is_input_transport transport) unsupported
    header ← preview_header u now stimulus.message_id target_step transaction_id
    let value : Message = record stimulus { header = header }
    frames ← lift (encode u.contract u.checksums u.payload_encode value transport)
    store_input key later value transport frames
