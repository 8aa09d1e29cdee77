-- ===== src/Runtime/Wire/Udp.antt =====
-- Reading back a UDP datagram of icd_runtime/wire.py.
use hil_simulation.Common.{
  ℕ, ◌+◌, ◌<◌, ◌≤◌, ◌≡◌, refl, sym, true, Option, ◌++◌, arith, le→leb, length, take, drop, ==_iff,
}
use hil_simulation.Common.Bytes.{Bytes, le, le_at, le_value-le}
use hil_simulation.Common.Result.{ok}
use hil_simulation.Runtime.Contract.{Contract, Entry, Header, Direction, udp}
use hil_simulation.Runtime.Wire.Layout.{Checksums, crc32, udp_header, header_fits, magic}
use hil_simulation.Runtime.Wire.{
  Frame, datagram, transport_entry, make_fragment, udp_frame, udp_bytes, decode_udp, decode,
}

-- The numbers that the layout of a datagram gives back, each at its offset.
record Reads (bytes : Bytes) (len : ℕ) (h : Header) (index count mid : ℕ) : Type 0 where
  start : take 4 bytes ≡ magic
  major : le_at 4 1 bytes ≡ 1
  minor : le_at 5 1 bytes ≡ 0
  flags : le_at 6 2 bytes ≡ 0
  session : le_at 8 4 bytes ≡ h.session_id
  sequence : le_at 12 4 bytes ≡ h.sequence
  step : le_at 16 4 bytes ≡ h.target_step
  transaction : le_at 20 4 bytes ≡ h.transaction_id
  at_index : le_at 24 2 bytes ≡ index
  of_count : le_at 26 2 bytes ≡ count
  payload_length : le_at 28 2 bytes ≡ len
  valid : le_at 30 2 bytes ≡ h.valid_for_ms
  message : le_at 32 2 bytes ≡ mid
  reserved : le_at 34 2 bytes ≡ 0

udp_header-Reads :
    (h : Header) (len index count mid : ℕ) (rest : Bytes)
    → header_fits h ≡ true
    → len < 65536
    → index < 65536
    → count < 65536
    → mid < 65536
    → Reads (udp_header h index count len mid ++ rest) len h index count mid
udp_header-Reads h len index count mid rest fit l i n m = record {
  start = refl;
  major = refl;
  minor = refl;
  flags = refl;
  reserved = refl;
  payload_length = le_value-le 2 len (omega arith);
  session = le_value-le 4 h.session_id (ground arith);
  sequence = le_value-le 4 h.sequence (ground arith);
  step = le_value-le 4 h.target_step (ground arith);
  transaction = le_value-le 4 h.transaction_id (ground arith);
  at_index = le_value-le 2 index (omega arith);
  of_count = le_value-le 2 count (omega arith);
  valid = le_value-le 2 h.valid_for_ms (ground arith);
  message = le_value-le 2 mid (omega arith);
}

module _ (c : Contract) (k : Checksums) where
  -- `decode` of a datagram that passes each test, by its fields.
  decode_udp_lem :
      (raw : Bytes) (d : Option Direction) {e : Entry} (h : Header) (index count mid : ℕ)
      (chunk : Bytes)
      → 41 ≤ length raw
      → length raw ≤ 1200
      → Reads raw (length chunk) h index count mid
      → length raw ≡ 40 + length chunk
      → drop 40 raw ≡ chunk
      → crc32 k (take 36 raw ++ chunk) ≡ le_at 36 4 raw
      → transport_entry c mid udp d ≡ ok e
      → decode_udp c k raw d ≡ make_fragment c udp e h index count chunk
  unfolding decode_udp
  decode_udp_lem raw d h index count mid chunk low high r size piece sum ent = rw (
    le→leb 41 (length raw) low,
    le→leb (length raw) 1200 high,
    r.start,
    r.major,
    r.minor,
    r.flags,
    r.reserved,
    r.payload_length,
    (==_iff _ _).1 size,
    piece,
    (==_iff _ _).1 sum,
    r.message,
    ent,
    r.session,
    r.sequence,
    r.step,
    r.transaction,
    r.at_index,
    r.of_count,
    r.valid,
  )

  udp_frame-eq-ok :
      (mid : ℕ) (h : Header) (index count : ℕ) (chunk : Bytes) {frame : Frame}
      → udp_frame c k mid h index count chunk ≡ ok frame
      → (frame ≡ datagram (udp_bytes c k mid h index count chunk))
        × (length chunk < 65536)
        × (header_fits h ≡ true)
        × (index < 65536)
        × (count < 65536)
        × (mid < 65536)
  unfolding udp_frame
  udp_frame-eq-ok mid h index count chunk built = ground arith

  module _ (d : Option Direction) (mid : ℕ) {e : Entry} (h : Header) (index count : ℕ)
      (chunk : Bytes) (ent : transport_entry c mid udp d ≡ ok e) (some_data : 1 ≤ length chunk)
      (fits_in : length chunk ≤ 1160) where
    -- A datagram that `encode` builds is read back as its own piece.
    pub decode-udp_frame :
        {frame : Frame}
        → udp_frame c k mid h index count chunk ≡ ok frame
        → decode c k frame udp d ≡ make_fragment c udp e h index count chunk
    unfolding decode
    decode-udp_frame built =
        let (made, len, fit, i, n, m) = udp_frame-eq-ok mid h index count chunk built in
        let prefix : Bytes = udp_header h index count (length chunk) mid in
        let sum : ℕ = crc32 k (prefix ++ chunk) in
        let size : length (udp_bytes c k mid h index count chunk) ≡ 40 + length chunk =
          omega arith in
        rw made (
          decode_udp_lem (udp_bytes c k mid h index count chunk) d h index count mid chunk
            (omega arith) (omega arith)
            (udp_header-Reads h (length chunk) index count mid (le 4 sum ++ chunk) fit len i n m)
            size refl (sym (le_value-le 4 sum (omega arith))) ent)
