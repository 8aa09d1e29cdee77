-- ===== src/Runtime/Video.antt =====
-- icd_runtime/video.py: HIV1 framing of video frames.
pub mod RoundTrip
pub mod Packets
mod Tests
use hil_simulation.Common.{
  ℕ, zero, suc, ◌+◌, ◌-◌, ◌*◌, ◌^◌, Bool, true, false, ◌&&◌, ◌||◌, not, List, [], ◌∷◌, ◌++◌, min,
  ltb, leb, ◌==◌, length, take, drop, Option, some, none,
}
use hil_simulation.Common.Bytes.{Bytes, le, le_at}
use hil_simulation.Common.Result.{
  Code, Result, ok, err, ◌>>=◌, ◌>>◌, require, schema, capacity, version, crc, struct_error,
}
use hil_simulation.Runtime.Wire.Layout.{Checksums, crc32, fits, bytes_eq}
use hil_simulation.Runtime.Chunks.{ceil_div, chunk_at}

-- The declared codecs of `codec_codes`.
pub data Codec : Type 0 where
  h264 h265 raw_bgr : Codec

pub record VideoHeader : Type 0 where
  pub session_id : ℕ
  pub stream_numeric_id : ℕ
  pub frame_index : ℕ
  pub capture_step : ℕ
  pub pts_us : ℕ
  pub codec : Codec

pub record VideoFragment : Type 0 where
  pub header : VideoHeader
  pub index : ℕ
  pub count : ℕ
  pub frame_bytes : ℕ
  pub payload : Bytes

-- `catalogue["codecs"]["VIDEO"]`
pub record VideoRules : Type 0 where
  pub chunk_bytes : ℕ
  pub max_datagram_bytes : ℕ
  pub max_frame_bytes : ℕ
  pub max_fragments : ℕ
  pub queue_frames : ℕ
  pub reassembly_timeout_ms : ℕ

-- `codec_codes`, and the reverse map.
abbrev pub code_of : Codec → ℕ
code_of h264 = 0
code_of h265 = 1
code_of raw_bgr = 2

abbrev pub codec_named : ℕ → Option Codec
codec_named n = elim (n == 0) [
  | true ↦ some h264
  | false ↦ elim (n == 1) [
    | true ↦ some h265
    | false ↦ elim (n == 2) [ true ↦ some raw_bgr | false ↦ none ]
  ]
]

abbrev pub is_raw : Codec → Bool
is_raw raw_bgr = true
is_raw _ = false

abbrev pub raw_frame_bytes : ℕ
raw_frame_bytes = 921600

pub validate_header : VideoHeader → Result (Unit {0})
validate_header h =
    require
      (leb 1 h.session_id
        && ltb h.session_id (2 ^ 32)
        && leb 1 h.stream_numeric_id
        && ltb h.stream_numeric_id (2 ^ 32)
        && ltb h.frame_index (2 ^ 32)
        && ltb h.capture_step (2 ^ 32)
        && ltb h.pts_us (2 ^ 64))
      schema

-- `frame.startswith((b"\x00\x00\x01", b"\x00\x00\x00\x01"))`
abbrev pub annex_b : Bytes → Bool
annex_b frame =
    bytes_eq (take 3 frame) (0 ∷ 0 ∷ 1 ∷ []) || bytes_eq (take 4 frame) (0 ∷ 0 ∷ 0 ∷ 1 ∷ [])

-- b"HIV1"
abbrev pub magic : Bytes
magic = b'H' ∷ b'I' ∷ b'V' ∷ b'1' ∷ []

-- "<4sBBHIIIIQHHIHH"
abbrev pub video_header : VideoHeader → ℕ → ℕ → ℕ → ℕ → Bytes
video_header h index count frame_bytes len =
    magic
    ++ (le 1 1
        ++ (le 1 (code_of h.codec)
            ++ (le 2 0
                ++ (le 4 h.session_id
                    ++ (le 4 h.stream_numeric_id
                        ++ (le 4 h.frame_index
                            ++ (le 4 h.capture_step
                                ++ (le 8 h.pts_us
                                    ++ (le 2 index
                                        ++ (le 2 count
                                            ++ (le 4 frame_bytes ++ (le 2 len ++ le 2 0))))))))))))

module _ (rules : VideoRules) where
  pub validate_frame : Bytes → VideoHeader → Result (Unit {0})
  validate_frame frame h = do
    validate_header h
    require (leb 1 (length frame)) schema
    require (leb (length frame) rules.max_frame_bytes) capacity
    require (not (is_raw h.codec) || length frame == raw_frame_bytes) schema
    require (is_raw h.codec || annex_b frame) schema

module _ (rules : VideoRules) (k : Checksums) where
  abbrev pub packet_bytes : VideoHeader → ℕ → ℕ → ℕ → Bytes → Bytes
  packet_bytes h index count frame_bytes chunk =
      let prefix = video_header h index count frame_bytes (length chunk) in
      prefix ++ (le 4 (crc32 k (prefix ++ chunk)) ++ chunk)

  -- The body of the loop of `encode`.
  pub packet : VideoHeader → ℕ → ℕ → ℕ → Bytes → Result Bytes
  packet h index count frame_bytes chunk = do
    require (fits 2 index && fits 2 count && fits 4 frame_bytes && fits 2 (length chunk))
        struct_error
    ok (packet_bytes h index count frame_bytes chunk)

  -- `for index in range(count)`, from `index` on, `left` rounds.
  pub packets_from : Bytes → VideoHeader → ℕ → ℕ → ℕ → Result (List Bytes)
  packets_from frame h count zero index = ok []
  packets_from frame h count (suc left) index = do
    p ← packet h index count (length frame) (chunk_at rules.chunk_bytes frame index)
    ps ← packets_from frame h count left (index + 1)
    ok (p ∷ ps)

  pub encode : Bytes → VideoHeader → Result (List Bytes)
  encode frame h = do
    validate_frame rules frame h
    let count = ceil_div (length frame) rules.chunk_bytes
    packets_from frame h count count 0

  -- `_names[codec]`
  pub named : ℕ → Result Codec
  named n = elim (codec_named n) [ none ↦ err schema | some codec ↦ ok codec ]

  pub decode : Bytes → Result VideoFragment
  decode bytes = do
    require (leb 49 (length bytes) && leb (length bytes) rules.max_datagram_bytes) Code.fragment
    require
        (bytes_eq (take 4 bytes) magic
          && le_at 4 1 bytes == 1
          && le_at 6 2 bytes == 0
          && le_at 42 2 bytes == 0)
        version
    require (length bytes == 48 + le_at 40 2 bytes) Code.fragment
    require (crc32 k (take 44 bytes ++ drop 48 bytes) == le_at 44 4 bytes) crc
    codec ← named (le_at 5 1 bytes)
    let h : VideoHeader = record {
      session_id = le_at 8 4 bytes;
      stream_numeric_id = le_at 12 4 bytes;
      frame_index = le_at 16 4 bytes;
      capture_step = le_at 20 4 bytes;
      pts_us = le_at 24 8 bytes;
      codec = codec;
    }
    validate_header h
    let index = le_at 32 2 bytes
    let count = le_at 34 2 bytes
    let frame_bytes = le_at 36 4 bytes
    require (leb 1 frame_bytes && leb frame_bytes rules.max_frame_bytes) capacity
    require (not (is_raw codec) || frame_bytes == raw_frame_bytes) schema
    require
        (leb 1 count
          && leb count rules.max_fragments
          && count == ceil_div frame_bytes rules.chunk_bytes
          && ltb index count)
        Code.fragment
    require (le_at 40 2 bytes == min rules.chunk_bytes (frame_bytes - index * rules.chunk_bytes))
        Code.fragment
    ok (record {
      header = h;
      index = index;
      count = count;
      frame_bytes = frame_bytes;
      payload = drop 48 bytes;
    })
