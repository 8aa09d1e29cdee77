-- ===== src/Runtime/Wire.antt =====
-- icd_runtime/wire.py: CAN FD and UDP framing of business messages. An operation takes the contract
-- and the checksums; `encode` also takes the payload codec's `encode`.
pub mod Layout
pub mod Can
pub mod Udp
pub mod Fragments
pub mod Encode
pub mod Total
pub mod RoundTrip
pub mod Tests
use hil_simulation.Common.{
  ℕ, ◌+◌, ◌-◌, ◌*◌, Bool, true, false, ◌&&◌, ◌||◌, not, Option, none, some, List, [], ◌∷◌, ◌++◌,
  min, ltb, leb, ◌==◌, length, take, drop, replicate,
}
use hil_simulation.Common.Bytes.{Bytes, le, le_at}
use hil_simulation.Common.Result.{
  Result, ok, err, ◌>>=◌, ◌>>◌, require, unsupported, authorization, capacity, schema, crc, version,
  struct_error, Code,
}
use hil_simulation.Runtime.Contract.{
  Contract, Entry, Header, Message, Payload, Transport, canfd, udp, video, Direction, packed_le,
  rfc8785_json, Encoding, entry, has_transport, allows_direction, find_can, validate_header,
  validate_message,
}
use hil_simulation.Runtime.Chunks.{chunks, ceil_div}
use Layout.{
  Checksums, crc16, crc32, header_fits, fits, can_header, udp_header, magic, all_zero, bytes_eq,
}

pub record CanFrame : Type 0 where
  pub arbitration_id : ℕ
  pub content : Bytes
  pub is_fd : Bool
  pub bitrate_switch : Bool
  pub is_extended_id : Bool
  pub is_remote_frame : Bool

-- What `encode` yields and `decode` is given: a `CANFrame` or a datagram.
pub data Frame : Type 0 where
  can : CanFrame → Frame
  datagram : Bytes → Frame

pub record Fragment : Type 0 where
  pub transport : Transport
  pub direction : Direction
  pub message_id : ℕ
  pub header : Header
  pub index : ℕ
  pub count : ℕ
  pub payload : Bytes
  pub reservation_bytes : ℕ

-- `_fragment`'s test of a packed message: the exact number of pieces, and the exact piece.
abbrev pub layout_ok : Entry → ℕ → ℕ → ℕ → ℕ → Bool
layout_ok e size index count len = elim e.encoding [
  | packed_le ↦
      count == ceil_div e.payload_bytes size && len == min size (e.payload_bytes - index * size)
  | rfc8785_json ↦ true
]

module _ (c : Contract) where
  -- `_entry`
  pub transport_entry : ℕ → Transport → Option Direction → Result Entry
  transport_entry mid transport direction = do
    e ← entry c mid
    require (has_transport transport e.transports) unsupported
    require (allows_direction direction e.direction) authorization
    ok e

  -- `_fragment`
  pub make_fragment : Transport → Entry → Header → ℕ → ℕ → Bytes → Result Fragment
  make_fragment transport e header index count payload = do
    let rules = c.rules transport
    let size = rules.chunk_bytes
    let maximum = e.max_logical_payload_bytes
    let len = length payload
    require
        (leb 1 count
          && leb count rules.max_fragments
          && ltb index count
          && leb 1 len
          && leb len size)
        Code.fragment
    require (leb ((count - 1) * size + 1) maximum) Code.fragment
    require (not (ltb index (count - 1)) || len == size) Code.fragment
    require (not (index == count - 1) || leb ((count - 1) * size + len) maximum) Code.fragment
    require (layout_ok e size index count len) Code.fragment
    validate_header c e.id header
    ok (record {
      transport = transport;
      direction = e.direction;
      message_id = e.id;
      header = header;
      index = index;
      count = count;
      payload = payload;
      reservation_bytes = min (count * size) maximum;
    })

module _ (c : Contract) (k : Checksums) where
  -- `prefix + chunk + bytes(chunk_bytes - len(chunk))`
  abbrev pub can_body : Header → ℕ → ℕ → Bytes → Bytes
  can_body h index count chunk =
      can_header 1 0 0 (length chunk) h index count
      ++ (chunk ++ replicate ((c.rules canfd).chunk_bytes - length chunk) 0)

  abbrev pub data_frame : ℕ → Bytes → CanFrame
  data_frame can_id bytes = record {
    arbitration_id = can_id;
    content = bytes;
    is_fd = true;
    bitrate_switch = true;
    is_extended_id = false;
    is_remote_frame = false;
  }

  -- One CAN FD frame of `encode`; `struct.error` where a field is out of its range.
  pub can_frame : ℕ → Header → ℕ → ℕ → Bytes → Result Frame
  can_frame can_id h index count chunk = do
    require
        (fits 1 (length chunk) && header_fits h && fits 1 index && fits 1 count && fits 2 can_id)
        struct_error
    let body = can_body h index count chunk
    ok (can (data_frame can_id (body ++ le 2 (crc16 k (le 2 can_id ++ body)))))

  -- `prefix + struct.pack("<I", crc32(prefix + chunk)) + chunk`
  abbrev pub udp_bytes : ℕ → Header → ℕ → ℕ → Bytes → Bytes
  udp_bytes mid h index count chunk =
      let prefix = udp_header h index count (length chunk) mid in
      prefix ++ (le 4 (crc32 k (prefix ++ chunk)) ++ chunk)

  -- One datagram of `encode`.
  pub udp_frame : ℕ → Header → ℕ → ℕ → Bytes → Result Frame
  udp_frame mid h index count chunk = do
    require (fits 2 (length chunk) && header_fits h && fits 2 index && fits 2 count && fits 2 mid)
        struct_error
    ok (datagram (udp_bytes mid h index count chunk))

  pub frame_of : Transport → Entry → Header → ℕ → ℕ → Bytes → Result Frame
  frame_of canfd e h index count chunk = elim e.can_id [
    | none ↦ err struct_error
    | some cid ↦ can_frame cid h index count chunk
  ]
  frame_of _ e h index count chunk = udp_frame e.id h index count chunk

  -- `for index, chunk in enumerate(chunks)`
  pub frames_from : Transport → Entry → Header → ℕ → ℕ → List Bytes → Result (List Frame)
  frames_from transport e h count index [] = ok []
  frames_from transport e h count index (chunk ∷ rest) = do
    frame ← frame_of transport e h index count chunk
    frames ← frames_from transport e h count (index + 1) rest
    ok (frame ∷ frames)

  pub encode : (ℕ → Payload → Result Bytes) → Message → Transport → Result (List Frame)
  encode payload_encode m transport = do
    validate_message c none none m
    e ← transport_entry c m.message_id transport none
    raw ← payload_encode e.id m.payload
    let rules = c.rules transport
    let pieces = chunks rules.chunk_bytes raw
    require (leb (length pieces) rules.max_fragments) capacity
    frames_from transport e m.header (length pieces) 0 pieces

  pub decode_can : CanFrame → Option Direction → Result Fragment
  decode_can raw direction = do
    require
        (raw.is_fd
          && raw.bitrate_switch
          && not raw.is_extended_id
          && not raw.is_remote_frame
          && leb raw.arbitration_id 0x7ff)
        schema
    mid ← find_can c raw.arbitration_id
    e ← transport_entry c mid canfd direction
    let bytes = raw.content
    require (length bytes == 64) Code.fragment
    require (crc16 k (le 2 raw.arbitration_id ++ take 62 bytes) == le_at 62 2 bytes) crc
    require (le_at 0 1 bytes == 1 && le_at 1 1 bytes == 0 && le_at 2 1 bytes == 0) version
    let len = le_at 3 1 bytes
    require (leb 1 len && leb len 38 && all_zero (drop (24 + len) (take 62 bytes))) Code.fragment
    make_fragment c canfd e
        (record {
          session_id = le_at 4 4 bytes;
          sequence = le_at 8 4 bytes;
          target_step = le_at 12 4 bytes;
          transaction_id = le_at 16 4 bytes;
          valid_for_ms = le_at 22 2 bytes;
        })
        (le_at 20 1 bytes) (le_at 21 1 bytes) (take len (drop 24 bytes))

  pub decode_udp : Bytes → Option Direction → Result Fragment
  decode_udp bytes direction = do
    require (leb 41 (length bytes) && leb (length bytes) 1200) Code.fragment
    require
        (bytes_eq (take 4 bytes) magic
          && le_at 4 1 bytes == 1
          && le_at 5 1 bytes == 0
          && le_at 6 2 bytes == 0
          && le_at 34 2 bytes == 0)
        version
    require (length bytes == 40 + le_at 28 2 bytes) Code.fragment
    let payload = drop 40 bytes
    require (crc32 k (take 36 bytes ++ payload) == le_at 36 4 bytes) crc
    e ← transport_entry c (le_at 32 2 bytes) udp direction
    make_fragment c udp e
        (record {
          session_id = le_at 8 4 bytes;
          sequence = le_at 12 4 bytes;
          target_step = le_at 16 4 bytes;
          transaction_id = le_at 20 4 bytes;
          valid_for_ms = le_at 30 2 bytes;
        })
        (le_at 24 2 bytes) (le_at 26 2 bytes) payload

  -- `raw` of the wrong kind for its transport is refused before anything of it is read.
  pub decode : Frame → Transport → Option Direction → Result Fragment
  decode (can frame) canfd direction = decode_can frame direction
  decode (datagram bytes) canfd direction = err schema
  decode (can frame) udp direction = err Code.fragment
  decode (datagram bytes) udp direction = decode_udp bytes direction
  decode _ video direction = err unsupported
