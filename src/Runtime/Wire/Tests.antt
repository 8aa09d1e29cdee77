-- ===== src/Runtime/Wire/Tests.antt =====
-- icd_runtime/wire.py: runs of `encode` and `decode` under a catalogue of two messages.
use hil_simulation.Common.{
  ℕ, ◌≤◌, ◌≡◌, refl, true, none, some, List, [], ◌∷◌, arith, length, get_elem?, replicate, sym,
  subst,
}
use hil_simulation.Common.Bytes.{Bytes}
use hil_simulation.Common.Result.{Result, ok, err, schema}
use hil_simulation.Runtime.Contract.{
  Contract, Rules, Entry, Header, Message, Payload, other, Transport, canfd, udp, video, to_36,
  packed_le, entry, has_transport, find_entry, find_can, find_can_id, validate_message,
  validate_header, validate_payload, session_rule, contains_id,
}
use hil_simulation.Runtime.Chunks.{chunks, chunks_from, ceil_div, join}
use hil_simulation.Runtime.Wire.Layout.{Checksums}
use hil_simulation.Runtime.Wire.{
  Frame, datagram, encode, decode, transport_entry, frames_from, frame_of, can_frame,
}
use hil_simulation.Runtime.Wire.Fragments.{piece, PayloadFits}
use hil_simulation.Runtime.Wire.RoundTrip.{IsFrozen, IsPayloadEncoder, decode-encode}
use hil_simulation.Runtime.Wire.Total.{encode_total}

abbrev pub command : Entry
command = record {
  id = 17;
  direction = to_36;
  transports = canfd ∷ udp ∷ [];
  encoding = packed_le;
  payload_bytes = 50;
  max_logical_payload_bytes = 50;
  can_id = some 0x111;
  valid_for = 20;
  role = none;
  model_ids = 1 ∷ [];
}

abbrev rules : Transport → Rules
rules canfd = record { chunk_bytes = 38; max_fragments = 128; reassembly_timeout_ms = 100 }
rules udp = record { chunk_bytes = 1160; max_fragments = 1024; reassembly_timeout_ms = 200 }
rules video = record { chunk_bytes = 1152; max_fragments = 1821; reassembly_timeout_ms = 100 }

abbrev pub catalogue : Contract
catalogue = record {
  messages = command ∷ [];
  rules = rules;
  baseline_sha256 = 0;
  header_schema = λ h. true;
  payload_schema = λ mid p. true;
  message_schema = λ m. true;
}

abbrev pub checksums : Checksums
checksums = record { crc_hqx = λ bytes. 0x1d0f; binascii_crc32 = λ bytes. 0xcbf43926 }

abbrev payload_encode : ℕ → Payload → Result Bytes
payload_encode mid (other n) = ok (n ∷ replicate 49 7)
payload_encode mid _ = err schema

abbrev pub header : Header
header = record {
  session_id = 5;
  sequence = 9;
  target_step = 100;
  transaction_id = 3;
  valid_for_ms = 20;
}

abbrev throttle : Message
throttle = record { message_id = 17; header = header; payload = other 200 }

abbrev raw : Bytes
raw = 200 ∷ replicate 49 7

only_command : (mid : ℕ) (e : Entry) → entry catalogue mid ≡ ok e → (mid ≡ 17) × (e ≡ command)
unfolding entry find_entry
only_command mid e h = ground arith

find_command : (cid mid : ℕ) → some 0x111 ≡ some cid → 17 ≡ mid → find_can catalogue cid ≡ ok mid
unfolding find_can find_can_id
find_command cid mid h g = ground arith

catalogue-IsFrozen : IsFrozen catalogue checksums
unfolding has_transport
catalogue-IsFrozen = record {
  can_chunk = refl;
  udp_chunk = refl;
  can_ids = λ mid cid e found has.
      let (same, e_eq) = only_command mid e found in
      let has' : some 0x111 ≡ some cid = subst (λ (x : Entry). x.can_id ≡ some cid) e_eq has in
      (find_command cid mid has' (sym same), ground arith);
  no_video = λ mid e found. let (same, e_eq) = only_command mid e found in rw e_eq refl;
  crc16_narrow = λ bytes. omega arith;
}

fifty_bytes : (n : ℕ) → PayloadFits command (n ∷ replicate 49 7)
fifty_bytes n = record { nonempty = omega arith; capacity = omega arith; exact = λ packed. refl }

fifty :
    (e : Entry) (p : Payload) (raw : Bytes) (mid : ℕ)
    → e ≡ command
    → payload_encode mid p ≡ ok raw
    → PayloadFits e raw
fifty e (other n) raw mid e_eq coded =
    let bytes : n ∷ replicate 49 7 ≡ raw = cc in
    rw e_eq (subst (λ b. PayloadFits command b) bytes (fifty_bytes n))
fifty e _ raw mid e_eq coded = cc

payload_encode-IsPayloadEncoder : IsPayloadEncoder catalogue payload_encode
payload_encode-IsPayloadEncoder = record {
  fits = λ mid e p raw found coded.
      let (same, e_eq) = only_command mid e found in fifty e p raw mid e_eq coded;
}

abbrev frames : List Frame
frames = elim (encode catalogue checksums payload_encode throttle canfd) [
  | ok fs ↦ fs
  | err code ↦ []
]

abbrev second : Frame
second = elim (get_elem? frames 1) [ some f ↦ f | none ↦ datagram [] ]

command_there : entry catalogue 17 ≡ ok command
unfolding entry find_entry
command_there = refl

on_canfd : has_transport canfd (canfd ∷ udp ∷ []) ≡ true
unfolding has_transport
on_canfd = refl

throttle_valid : validate_message catalogue none none throttle ≡ ok tt
unfolding validate_message entry find_entry validate_header validate_payload session_rule
throttle_valid = refl

few : ceil_div 50 38 ≤ 128
few = omega arith

second_there : get_elem? frames 1 ≡ some second
unfolding encode validate_message entry find_entry validate_header validate_payload session_rule
    contains_id has_transport transport_entry chunks chunks_from frames_from frame_of can_frame
second_there = refl

throttle_encodes : encode catalogue checksums payload_encode throttle canfd ≡ ok frames
unfolding encode validate_message entry find_entry validate_header validate_payload session_rule
    contains_id has_transport transport_entry chunks chunks_from frames_from frame_of can_frame
throttle_encodes = refl

-- The command's 50 bytes take two CAN FD frames, the second with 12 of them.
decode-encode_example :
    (bytes : Bytes) × (payload_encode 17 (other 200) ≡ ok bytes)
    × (length frames ≡ ceil_div (length bytes) 38)
    × (join (chunks 38 bytes) ≡ bytes)
    × (decode catalogue checksums second canfd (some to_36)
        ≡ ok (piece catalogue canfd command header bytes 1))
decode-encode_example =
    decode-encode catalogue checksums catalogue-IsFrozen payload_encode
      payload_encode-IsPayloadEncoder throttle canfd (some to_36) 1 command_there refl
      throttle_encodes second_there

encode_total_example :
    (fs : List Frame) × (encode catalogue checksums payload_encode throttle canfd ≡ ok fs)
encode_total_example =
    encode_total catalogue checksums payload_encode throttle canfd command raw throttle_valid
      command_there on_canfd (0x111, refl, omega arith, omega arith, omega arith) refl refl few
