-- ===== src/Runtime/Wire/Can.antt =====
-- Reading back a CAN FD frame of icd_runtime/wire.py.
use hil_simulation.Common.{
  ℕ, ◌+◌, ◌-◌, ◌^◌, ◌<◌, ◌≤◌, ◌≡◌, refl, sym, true, ◌&&◌, not, Option, ◌++◌, arith, leb, le→leb,
  length, take, drop, replicate, append_assoc, length-append, length-replicate, take-append_exact,
  drop-append_exact, drop-drop, ==_iff,
}
use hil_simulation.Common.Bytes.{Bytes, le, le_at, le_value-le}
use hil_simulation.Common.Result.{ok}
use hil_simulation.Runtime.Contract.{Contract, Entry, Header, Direction, canfd, find_can}
use hil_simulation.Runtime.Wire.Layout.{Checksums, crc16, can_header, header_fits, all_zero}
use hil_simulation.Runtime.Wire.{
  CanFrame, Frame, can, can_body, data_frame, can_body, data_frame, transport_entry, make_fragment,
  can_frame, decode_can, decode,
}

-- The numbers that the layout of a frame gives back, each at its offset.
record Reads (bytes : Bytes) (len : ℕ) (h : Header) (index count : ℕ) : Type 0 where
  major : le_at 0 1 bytes ≡ 1
  minor : le_at 1 1 bytes ≡ 0
  flags : le_at 2 1 bytes ≡ 0
  chunk_length : le_at 3 1 bytes ≡ len
  session : le_at 4 4 bytes ≡ h.session_id
  sequence : le_at 8 4 bytes ≡ h.sequence
  step : le_at 12 4 bytes ≡ h.target_step
  transaction : le_at 16 4 bytes ≡ h.transaction_id
  at_index : le_at 20 1 bytes ≡ index
  of_count : le_at 21 1 bytes ≡ count
  valid : le_at 22 2 bytes ≡ h.valid_for_ms

can_header-Reads :
    (h : Header) (len index count : ℕ) (rest : Bytes)
    → header_fits h ≡ true
    → len < 256
    → index < 256
    → count < 256
    → Reads (can_header 1 0 0 len h index count ++ rest) len h index count
can_header-Reads h len index count rest fit l i n = record {
  major = refl;
  minor = refl;
  flags = refl;
  chunk_length = le_value-le 1 len (omega arith);
  session = le_value-le 4 h.session_id (ground arith);
  sequence = le_value-le 4 h.sequence (ground arith);
  step = le_value-le 4 h.target_step (ground arith);
  transaction = le_value-le 4 h.transaction_id (ground arith);
  at_index = le_value-le 1 index (omega arith);
  of_count = le_value-le 1 count (omega arith);
  valid = le_value-le 2 h.valid_for_ms (ground arith);
}

all_zero-replicate : (n : ℕ) → all_zero (replicate n 0) ≡ true
all_zero-replicate ℕ.zero = refl
all_zero-replicate (ℕ.suc n) = all_zero-replicate n

module _ (c : Contract) (k : Checksums) where
  -- `decode` of a frame that passes each test, by its fields.
  decode_can_lem :
      (raw : CanFrame) (d : Option Direction) {mid : ℕ} {e : Entry} (h : Header)
      (len index count : ℕ) (chunk : Bytes)
      → (raw.is_fd
          && raw.bitrate_switch
          && not raw.is_extended_id
          && not raw.is_remote_frame
          && leb raw.arbitration_id 0x7ff)
        ≡ true
      → find_can c raw.arbitration_id ≡ ok mid
      → transport_entry c mid canfd d ≡ ok e
      → length raw.content ≡ 64
      → crc16 k (le 2 raw.arbitration_id ++ take 62 raw.content) ≡ le_at 62 2 raw.content
      → Reads raw.content len h index count
      → (leb 1 len && leb len 38 && all_zero (drop (24 + len) (take 62 raw.content))) ≡ true
      → take len (drop 24 raw.content) ≡ chunk
      → decode_can c k raw d ≡ make_fragment c canfd e h index count chunk
  unfolding decode_can
  decode_can_lem raw d h len index count chunk flags_ok found ent size sum r padded piece = rw (
    flags_ok,
    found,
    ent,
    size,
    (==_iff _ _).1 sum,
    r.major,
    r.minor,
    r.flags,
    r.chunk_length,
    padded,
    r.session,
    r.sequence,
    r.step,
    r.transaction,
    r.at_index,
    r.of_count,
    r.valid,
    piece,
  )

  can_frame-eq-ok :
      (cid : ℕ) (h : Header) (index count : ℕ) (chunk : Bytes) {frame : Frame}
      → can_frame c k cid h index count chunk ≡ ok frame
      → let body = can_body c k h index count chunk in
        (frame ≡ can (data_frame c k cid (body ++ le 2 (crc16 k (le 2 cid ++ body)))))
        × (header_fits h ≡ true)
        × (index < 256)
        × (count < 256)
  unfolding can_frame
  can_frame-eq-ok cid h index count chunk built = ground arith

  module _ (narrow : (bytes : Bytes) → k.crc_hqx bytes < 2 ^ 16) (d : Option Direction)
      {mid cid : ℕ} {e : Entry} (h : Header) (index count : ℕ) (chunk : Bytes) (small : cid ≤ 0x7ff)
      (found : find_can c cid ≡ ok mid) (ent : transport_entry c mid canfd d ≡ ok e)
      (size : (c.rules canfd).chunk_bytes ≡ 38) (some_data : 1 ≤ length chunk)
      (fits_in : length chunk ≤ 38) where
    length-can_body : length (can_body c k h index count chunk) ≡ 62
    length-can_body =
        let zero_byte : ℕ = 0 in
        let room : ℕ = (c.rules canfd).chunk_bytes - length chunk in
        omega (
          arith,
          length-append {0} chunk (replicate room zero_byte),
          length-replicate {0} room zero_byte,
        )

    padded : all_zero (drop (24 + length chunk) (can_body c k h index count chunk)) ≡ true
    padded =
        let room : ℕ = (c.rules canfd).chunk_bytes - length chunk in
        rw (← drop-drop (length chunk) 24 (can_body c k h index count chunk)) (
          rw (drop-append_exact (length chunk) chunk (replicate room 0) refl)
            (all_zero-replicate room))

    -- A frame that `encode` builds is read back as its own piece.
    pub decode-can_frame :
        {frame : Frame}
        → can_frame c k cid h index count chunk ≡ ok frame
        → decode c k frame canfd d ≡ make_fragment c canfd e h index count chunk
    unfolding decode
    decode-can_frame built =
        let (made, fit, i, n) = can_frame-eq-ok cid h index count chunk built in
        let body : Bytes = can_body c k h index count chunk in
        let pad : Bytes = replicate ((c.rules canfd).chunk_bytes - length chunk) 0 in
        let ck : ℕ = crc16 k (le 2 cid ++ body) in
        let whole : take 62 (body ++ le 2 ck) ≡ body =
          take-append_exact 62 body (le 2 ck) length-can_body in
        let tail : drop 62 (body ++ le 2 ck) ≡ le 2 ck =
          drop-append_exact 62 body (le 2 ck) length-can_body in
        let sum : crc16 k (le 2 cid ++ take 62 (body ++ le 2 ck)) ≡ le_at 62 2 (body ++ le 2 ck) =
          rw (whole, tail) (sym (le_value-le 2 ck (narrow (le 2 cid ++ body)))) in
        rw made (
          decode_can_lem (data_frame c k cid (body ++ le 2 ck)) d h (length chunk) index count chunk
            (le→leb cid 0x7ff small) found ent
            (omega (arith, length-append {0} body (le 2 ck), length-can_body)) sum
            (can_header-Reads h (length chunk) index count ((chunk ++ pad) ++ le 2 ck) fit
              (omega arith) i n)
            (rw
              (whole, padded, le→leb 1 (length chunk) some_data, le→leb (length chunk) 38 fits_in))
            (rw (append_assoc chunk pad (le 2 ck)) (take-append_exact (length chunk) chunk _ refl)))
