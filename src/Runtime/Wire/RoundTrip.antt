-- ===== src/Runtime/Wire/RoundTrip.antt =====
-- icd_runtime/wire.py: `decode` of what `encode` yields, for every message and transport.
use hil_simulation.Common.{
  ℕ, ◌+◌, ◌^◌, ◌<◌, ◌≤◌, ◌≡◌, sym, ◌∙◌, subst, true, false, Option, some, List, arith, length,
  get_elem?,
}
use hil_simulation.Common.Bytes.{Bytes}
use hil_simulation.Common.Result.{Result, ok}
use hil_simulation.Runtime.Contract.{
  Contract, Entry, Header, Message, Payload, Transport, canfd, udp, video, Direction, entry,
  has_transport, entry-id, allows_direction, find_can, validate_header,
}
use hil_simulation.Runtime.Chunks.{
  chunks, ceil_div, chunk_at, length-chunks, get_elem?-chunks, join, join-chunks,
}
use hil_simulation.Runtime.Wire.Layout.{Checksums}
use hil_simulation.Runtime.Wire.{
  Frame, transport_entry, make_fragment, can_frame, frame_of, encode, decode,
}
use hil_simulation.Runtime.Wire.Can.{decode-can_frame}
use hil_simulation.Runtime.Wire.Udp.{decode-udp_frame}
use hil_simulation.Runtime.Wire.Fragments.{piece, make_fragment_lem, PayloadFits, chunk_at_bounds}
use hil_simulation.Runtime.Wire.Encode.{
  transport_entry_lem, frames_from-eq-ok, length-frames_from, Encoded, encode-Encoded,
}

-- What the frozen catalogue says of its transports and identifiers, and that CRC-16 is 16 bits wide.
pub record IsFrozen (c : Contract) (k : Checksums) : Type 0 where
  pub can_chunk : (c.rules canfd).chunk_bytes ≡ 38
  pub udp_chunk : (c.rules udp).chunk_bytes ≡ 1160
  pub can_ids :
      (mid cid : ℕ) (e : Entry)
      → entry c mid ≡ ok e
      → e.can_id ≡ some cid
      → (find_can c cid ≡ ok mid) × (cid ≤ 0x7ff)
  pub no_video :
      (mid : ℕ) (e : Entry) → entry c mid ≡ ok e → has_transport video e.transports ≡ false
  pub crc16_narrow : (bytes : Bytes) → k.crc_hqx bytes < 2 ^ 16

-- What `encode` needs of the payload codec: it yields payloads of the catalogued size.
pub record IsPayloadEncoder (c : Contract) (payload_encode : ℕ → Payload → Result Bytes)
    : Type 0 where
  pub fits :
      (mid : ℕ) (e : Entry) (p : Payload) (raw : Bytes)
      → entry c mid ≡ ok e
      → payload_encode mid p ≡ ok raw
      → PayloadFits e raw

module _ (c : Contract) (k : Checksums) (z : IsFrozen c k) where
  frame_of_canfd :
      (e : Entry) (h : Header) (i n : ℕ) (chunk : Bytes) {f : Frame}
      → frame_of c k canfd e h i n chunk ≡ ok f
      → (cid : ℕ) × (e.can_id ≡ some cid) × (can_frame c k cid h i n chunk ≡ ok f)
  unfolding frame_of
  frame_of_canfd e h i n chunk {f} built = ground arith

  chunk_positive :
      (t : Transport) (e : Entry) (mid : ℕ)
      → entry c mid ≡ ok e
      → has_transport t e.transports ≡ true
      → 0 < (c.rules t).chunk_bytes
  chunk_positive canfd e mid found has = omega (arith, z.can_chunk)
  chunk_positive udp e mid found has = omega (arith, z.udp_chunk)
  chunk_positive video e mid found has = absurd (grind (arith, z.no_video mid e found))

  -- One frame, by transport.
  decode-frame_of :
      (t : Transport) (d : Option Direction) (e : Entry) (mid : ℕ) (h : Header) (i n : ℕ)
      (chunk : Bytes) {f : Frame}
      → entry c mid ≡ ok e
      → has_transport t e.transports ≡ true
      → allows_direction d e.direction ≡ true
      → 1 ≤ length chunk
      → length chunk ≤ (c.rules t).chunk_bytes
      → frame_of c k t e h i n chunk ≡ ok f
      → decode c k f t d ≡ make_fragment c t e h i n chunk
  unfolding frame_of
  decode-frame_of canfd d e mid h i n chunk found has way low high built =
      let (cid, has_id, made) = frame_of_canfd e h i n chunk built in
      let (by_id, small) = z.can_ids mid cid e found has_id in
      decode-can_frame c k z.crc16_narrow d h i n chunk small by_id
        (transport_entry_lem c mid canfd d found has way) z.can_chunk low
        (omega (arith, z.can_chunk)) made
  decode-frame_of udp d e mid h i n chunk found has way low high built =
      let ent : transport_entry c e.id udp d ≡ ok e =
        subst (λ j. transport_entry c j udp d ≡ ok e) (sym (entry-id c mid found))
          (transport_entry_lem c mid udp d found has way) in
      decode-udp_frame c k d e.id h i n chunk ent low (omega (arith, z.udp_chunk)) built
  decode-frame_of video d e mid h i n chunk found has way low high built =
      absurd (grind (arith, z.no_video mid e found))

  decode-piece :
      {payload_encode : ℕ → Payload → Result Bytes} (m : Message) (t : Transport)
      (d : Option Direction) {e : Entry} {frames : List Frame} {f : Frame} (i : ℕ)
      → entry c m.message_id ≡ ok e
      → allows_direction d e.direction ≡ true
      → (x : Encoded c k payload_encode m t e frames) → PayloadFits e x.raw
      → 0 < (c.rules t).chunk_bytes
      → get_elem? frames i ≡ some f
      → decode c k f t d ≡ ok (piece c t e m.header x.raw i)
  decode-piece m t d {e} {frames} {f} i found way x fits positive at =
      let size : ℕ = (c.rules t).chunk_bytes in
      let n : ℕ = ceil_div (length x.raw) size in
      let ch : Bytes = chunk_at size x.raw i in
      let count : length (chunks size x.raw) ≡ n = length-chunks size x.raw in
      let (chunk, there, made) =
        frames_from-eq-ok c k t e m.header (length (chunks size x.raw)) 0 (chunks size x.raw) i
          x.framed at in
      let (lt, same_chunk) = get_elem?-chunks size x.raw i there in
      let start : 0 + i ≡ i = omega arith in
      let made' : frame_of c k t e m.header i n ch ≡ ok f = cc in
      let (low, high) = chunk_at_bounds size x.raw i positive fits.nonempty lt in
      let fewer : n ≤ (c.rules t).max_fragments = omega (arith, x.fewer, count) in
      let valid : validate_header c e.id m.header ≡ ok tt =
        subst (λ j. validate_header c j m.header ≡ ok tt) (sym (entry-id c m.message_id found))
          x.valid in
      decode-frame_of t d e m.message_id m.header i n ch found x.has way low high made'
      ∙ make_fragment_lem c t e m.header x.raw i positive fits fewer lt valid

  module _ (payload_encode : ℕ → Payload → Result Bytes) (enc : IsPayloadEncoder c payload_encode)
      (m : Message) (t : Transport) (d : Option Direction) {e : Entry} {frames : List Frame}
      {f : Frame} (i : ℕ) where
    -- For a message that `encode` frames: the payload has an encoding, whose pieces, as many as there
    -- are frames, make it up; and the frame at index `i` is decoded, under any direction that the
    -- message's entry allows, as the piece at that index with the message's id and header.
    pub decode-encode :
        entry c m.message_id ≡ ok e
        → allows_direction d e.direction ≡ true
        → encode c k payload_encode m t ≡ ok frames
        → get_elem? frames i ≡ some f
        → (raw : Bytes) × (payload_encode m.message_id m.payload ≡ ok raw)
          × (length frames ≡ ceil_div (length raw) (c.rules t).chunk_bytes)
          × (join (chunks (c.rules t).chunk_bytes raw) ≡ raw)
          × (decode c k f t d ≡ ok (piece c t e m.header raw i))
    decode-encode found way built at =
        let x = encode-Encoded c k payload_encode m t found built in
        let coded : payload_encode m.message_id m.payload ≡ ok x.raw =
          subst (λ j. payload_encode j m.payload ≡ ok x.raw) (entry-id c m.message_id found)
            x.coded in
        let size : ℕ = (c.rules t).chunk_bytes in
        let fits : PayloadFits e x.raw = enc.fits m.message_id e m.payload x.raw found coded in
        let positive : 0 < size = chunk_positive t e m.message_id found x.has in
        let count : length (chunks size x.raw) ≡ ceil_div (length x.raw) size =
          length-chunks size x.raw in
        (
          x.raw,
          coded,
          length-frames_from c k t e m.header _ 0 (chunks size x.raw) x.framed ∙ count,
          join-chunks size x.raw positive,
          decode-piece m t d i found way x fits positive at,
        )
