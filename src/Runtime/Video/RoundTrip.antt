-- ===== src/Runtime/Video/RoundTrip.antt =====
-- icd_runtime/video.py: `decode` of the datagrams that `encode` yields.
use hil_simulation.Common.{
  ℕ, ◌+◌, ◌-◌, ◌*◌, ◌^◌, ◌<◌, ◌≡◌, refl, true, ◌&&◌, ◌||◌, not, ◌++◌, arith, leb, ltb, ◌==◌, ==_iff,
  length, min, take, drop,
}
use hil_simulation.Common.Bytes.{Bytes, le, le_at, le_value-le}
use hil_simulation.Common.Result.{ok}
use hil_simulation.Runtime.Wire.Layout.{Checksums, crc32}
use hil_simulation.Runtime.Chunks.{ceil_div}
use hil_simulation.Runtime.Video.{
  Codec, h264, h265, raw_bgr, VideoHeader, VideoRules, code_of, is_raw, raw_frame_bytes,
  validate_header, video_header, magic, named, decode,
}

pub record Reads (bytes : Bytes) (len : ℕ) (h : VideoHeader) (index count frame_bytes : ℕ)
    : Type 0 where
  pub start : take 4 bytes ≡ magic
  pub major : le_at 4 1 bytes ≡ 1
  pub codec : le_at 5 1 bytes ≡ code_of h.codec
  pub flags : le_at 6 2 bytes ≡ 0
  pub session : le_at 8 4 bytes ≡ h.session_id
  pub stream : le_at 12 4 bytes ≡ h.stream_numeric_id
  pub frame : le_at 16 4 bytes ≡ h.frame_index
  pub step : le_at 20 4 bytes ≡ h.capture_step
  pub pts : le_at 24 8 bytes ≡ h.pts_us
  pub at_index : le_at 32 2 bytes ≡ index
  pub of_count : le_at 34 2 bytes ≡ count
  pub total : le_at 36 4 bytes ≡ frame_bytes
  pub payload_length : le_at 40 2 bytes ≡ len
  pub reserved : le_at 42 2 bytes ≡ 0

-- What a valid header fits in.
pub record Ranges (h : VideoHeader) : Type 0 where
  pub session : h.session_id < 2 ^ 32
  pub stream : h.stream_numeric_id < 2 ^ 32
  pub frame : h.frame_index < 2 ^ 32
  pub step : h.capture_step < 2 ^ 32
  pub pts : h.pts_us < 2 ^ 64

pub validate_header-Ranges : (h : VideoHeader) → validate_header h ≡ ok tt → Ranges h
unfolding validate_header
validate_header-Ranges h valid = ground arith

code_of-le : (codec : Codec) → le_at 0 1 (le 1 (code_of codec)) ≡ code_of codec
code_of-le h264 = refl
code_of-le h265 = refl
code_of-le raw_bgr = refl

named-code_of :
    (r : VideoRules) (k : Checksums) (codec : Codec) → named r k (code_of codec) ≡ ok codec
unfolding named
named-code_of r k h264 = refl
named-code_of r k h265 = refl
named-code_of r k raw_bgr = refl

pub video_header-Reads :
    (h : VideoHeader) (len index count frame_bytes : ℕ) (rest : Bytes)
    → Ranges h
    → len < 65536
    → index < 65536
    → count < 65536
    → frame_bytes < 2 ^ 32
    → Reads (video_header h index count frame_bytes len ++ rest) len h index count frame_bytes
video_header-Reads h len index count frame_bytes rest r l i n m = record {
  start = refl;
  major = refl;
  flags = refl;
  reserved = refl;
  codec = code_of-le h.codec;
  payload_length = le_value-le 2 len (omega arith);
  session = le_value-le 4 h.session_id (omega arith);
  stream = le_value-le 4 h.stream_numeric_id (omega arith);
  frame = le_value-le 4 h.frame_index (omega arith);
  step = le_value-le 4 h.capture_step (omega arith);
  pts = le_value-le 8 h.pts_us (omega arith);
  at_index = le_value-le 2 index (omega arith);
  of_count = le_value-le 2 count (omega arith);
  total = le_value-le 4 frame_bytes (omega arith);
}

module _ (rules : VideoRules) (k : Checksums) where
  -- `decode` of a datagram that passes each test, by its fields.
  pub decode_lem :
      (raw : Bytes) (h : VideoHeader) (index count frame_bytes : ℕ) (chunk : Bytes)
      → (leb 49 (length raw) && leb (length raw) rules.max_datagram_bytes) ≡ true
      → Reads raw (length chunk) h index count frame_bytes
      → length raw ≡ 48 + length chunk
      → drop 48 raw ≡ chunk
      → crc32 k (take 44 raw ++ chunk) ≡ le_at 44 4 raw
      → validate_header h ≡ ok tt
      → (leb 1 frame_bytes && leb frame_bytes rules.max_frame_bytes) ≡ true
      → (not (is_raw h.codec) || frame_bytes == raw_frame_bytes) ≡ true
      → (leb 1 count
          && leb count rules.max_fragments
          && count == ceil_div frame_bytes rules.chunk_bytes
          && ltb index count)
        ≡ true
      → length chunk ≡ min rules.chunk_bytes (frame_bytes - index * rules.chunk_bytes)
      → decode rules k raw
        ≡ ok (record {
          header = h;
          index = index;
          count = count;
          frame_bytes = frame_bytes;
          payload = chunk;
        })
  unfolding decode
  decode_lem raw h index count frame_bytes chunk bounds r size piece sum valid room exact layout
        fit =
      rw (
        bounds,
        r.start,
        r.major,
        r.flags,
        r.reserved,
        r.payload_length,
        (==_iff _ _).1 size,
        piece,
        (==_iff _ _).1 sum,
        r.codec,
        named-code_of rules k h.codec,
        r.session,
        r.stream,
        r.frame,
        r.step,
        r.pts,
        valid,
        r.total,
        room,
        exact,
        r.of_count,
        r.at_index,
        layout,
        (==_iff _ _).1 fit,
      )
