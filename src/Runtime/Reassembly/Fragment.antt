-- ===== src/Runtime/Reassembly/Fragment.antt =====
-- icd_runtime/reassembly.py: the fragments that the reassembler takes, their group keys, and `_check`.
use hil_simulation.Common.{
  ℕ, ◌-◌, ◌*◌, Bool, false, ◌&&◌, ◌||◌, not, Option, some, leb, ltb, ◌==◌, min, length, ℕ_discrete,
}
use hil_simulation.Common.Bytes.{Bytes}
use hil_simulation.Common.Result.{
  Code, Result, ok, ◌>>=◌, ◌>>◌, require, schema, authorization, capacity,
}
use hil_simulation.Runtime.Contract.{
  Contract, Header, Transport, video, Direction, to_36, direction_eq,
}
use hil_simulation.Runtime.Wire.{Fragment, transport_entry, make_fragment}
use hil_simulation.Runtime.Video.{
  code_of, VideoHeader, VideoFragment, VideoRules, validate_header, is_raw, raw_frame_bytes,
}
use hil_simulation.Runtime.Chunks.{ceil_div}

-- A verified business or video fragment.
pub data Part : Type 0 where
  business : Fragment → Part
  stream : VideoFragment → Part

abbrev pub index_of : Part → ℕ
index_of (business f) = f.index
index_of (stream f) = f.index

abbrev pub count_of : Part → ℕ
count_of (business f) = f.count
count_of (stream f) = f.count

abbrev pub payload_of : Part → Bytes
payload_of (business f) = f.payload
payload_of (stream f) = f.payload

abbrev pub transport_of : Part → Transport
transport_of (business f) = f.transport
transport_of (stream f) = video

-- `(session, message, sequence, transaction)` or `(session, stream, frame)`.
pub data Identity : Type 0 where
  of_message : ℕ → ℕ → ℕ → ℕ → Identity
  of_frame : ℕ → ℕ → ℕ → Identity

-- `key[3]`
abbrev pub session_of : Identity → ℕ
session_of (of_message session mid sequence transaction) = session
session_of (of_frame session stream_id frame) = session

-- The key of a group; a channel's name is a number, since it is only compared.
pub record Key : Type 0 where
  pub channel : ℕ
  pub direction : Direction
  pub transport : Transport
  pub identity : Identity
  pub namespace : Option ℕ

pub Direction-discrete : Discrete Direction
Direction-discrete = hlevel

pub Key-discrete : Discrete Key
Key-discrete = hlevel ℕ_discrete

abbrev pub header_eq : Header → Header → Bool
header_eq a b =
    a.session_id == b.session_id
    && a.sequence == b.sequence
    && a.target_step == b.target_step
    && a.transaction_id == b.transaction_id
    && a.valid_for_ms == b.valid_for_ms

abbrev pub video_header_eq : VideoHeader → VideoHeader → Bool
video_header_eq a b =
    a.session_id == b.session_id
    && a.stream_numeric_id == b.stream_numeric_id
    && a.frame_index == b.frame_index
    && a.capture_step == b.capture_step
    && a.pts_us == b.pts_us
    && code_of a.codec == code_of b.codec

-- `first.header == fragment.header`
abbrev pub same_header : Part → Part → Bool
same_header (business f) (business g) = header_eq f.header g.header
same_header (stream f) (stream g) = video_header_eq f.header g.header
same_header _ _ = false

module _ (c : Contract) (rules : VideoRules) where
  -- `_check`: the identity and the reservation. Every other field of `checked` is the fragment's own.
  pub check : Part → Direction → Result (Identity × ℕ)
  check (business f) direction = do
    require (direction_eq f.direction direction) authorization
    e ← transport_entry c f.message_id f.transport (some direction)
    checked ← make_fragment c f.transport e f.header f.index f.count f.payload
    require (checked.reservation_bytes == f.reservation_bytes) Code.fragment
    let h = f.header
    ok (of_message h.session_id f.message_id h.sequence h.transaction_id, f.reservation_bytes)
  check (stream f) direction = do
    require (direction_eq direction to_36) authorization
    validate_header f.header
    let size = rules.chunk_bytes
    let total = f.frame_bytes
    require (leb 1 total && leb total rules.max_frame_bytes) capacity
    require
        (f.count == ceil_div total size
          && ltb f.index f.count
          && length f.payload == min size (total - f.index * size))
        Code.fragment
    require (not (is_raw f.header.codec) || total == raw_frame_bytes) schema
    ok (of_frame f.header.session_id f.header.stream_numeric_id f.header.frame_index, total)
