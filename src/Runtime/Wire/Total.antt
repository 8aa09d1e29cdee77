-- ===== src/Runtime/Wire/Total.antt =====
-- icd_runtime/wire.py: `encode` succeeds on what a transport can carry.
use hil_simulation.Common.{
  ℕ, zero, suc, ◌+◌, ◌*◌, ◌<◌, ◌≤◌, ◌≡◌, refl, ◌∙◌, true, ◌&&◌, some, none, List, [], ◌∷◌, ◌++◌,
  arith, leb, le→leb, length, All, length-take, drop,
}
use hil_simulation.Common.Bytes.{Bytes, le}
use hil_simulation.Common.Result.{Result, ok}
use hil_simulation.Runtime.Contract.{
  Contract, Entry, Header, Message, Payload, Transport, canfd, udp, video, entry, has_transport,
  validate_message,
}
use hil_simulation.Runtime.Chunks.{chunks, chunks_from, ceil_div, length-chunks}
use hil_simulation.Runtime.Wire.Layout.{Checksums, crc16, header_fits, fits}
use hil_simulation.Runtime.Wire.{
  Frame, can, datagram, can_frame, udp_frame, can_body, data_frame, udp_bytes, frame_of,
  frames_from, encode, transport_entry,
}
use hil_simulation.Runtime.Wire.Encode.{transport_entry_lem}

-- The fields that a transport packs are in their ranges: a CAN id and byte-wide counters, or a
-- message id and two-byte counters.
abbrev pub Carries : Contract → Transport → Entry → Type 0
Carries c canfd e =
    (cid : ℕ) × (e.can_id ≡ some cid)
    × (cid ≤ 0x7ff)
    × ((c.rules canfd).max_fragments < 256)
    × ((c.rules canfd).chunk_bytes < 256)
Carries c udp e =
    (e.id < 65536) × ((c.rules udp).max_fragments < 65536) × ((c.rules udp).chunk_bytes < 65536)
Carries c video e = ⊥

module _ (c : Contract) (k : Checksums) (e : Entry) (h : Header) (n : ℕ)
    (fit : header_fits h ≡ true) where
  can_frame_total :
      (cid i : ℕ) (chunk : Bytes)
      → cid < 65536
      → i < 256
      → n < 256
      → length chunk < 256
      → (f : Frame) × (can_frame c k cid h i n chunk ≡ ok f)
  unfolding can_frame
  can_frame_total cid i chunk hc hi hn hl =
      let body : Bytes = can_body c k h i n chunk in
      let test : (fits 1 (length chunk) && header_fits h && fits 1 i && fits 1 n && fits 2 cid)
          ≡ true =
        ground arith in
      (can (data_frame c k cid (body ++ le 2 (crc16 k (le 2 cid ++ body)))), rw test)

  udp_frame_total :
      (mid i : ℕ) (chunk : Bytes)
      → mid < 65536
      → i < 65536
      → n < 65536
      → length chunk < 65536
      → (f : Frame) × (udp_frame c k mid h i n chunk ≡ ok f)
  unfolding udp_frame
  udp_frame_total mid i chunk hm hi hn hl =
      let test : (fits 2 (length chunk) && header_fits h && fits 2 i && fits 2 n && fits 2 mid)
          ≡ true =
        ground arith in
      (datagram (udp_bytes c k mid h i n chunk), rw test)

  by_id :
      (cid i : ℕ) (chunk : Bytes)
      → e.can_id ≡ some cid
      → frame_of c k canfd e h i n chunk ≡ can_frame c k cid h i n chunk
  unfolding frame_of
  by_id cid i chunk has_id = ground arith

  frame_of_total :
      (t : Transport) (i : ℕ) (chunk : Bytes)
      → Carries c t e
      → i < n
      → n ≤ (c.rules t).max_fragments
      → length chunk ≤ (c.rules t).chunk_bytes
      → (f : Frame) × (frame_of c k t e h i n chunk ≡ ok f)
  unfolding frame_of
  frame_of_total canfd i chunk (cid, has_id, small, few, size) hi hn hl =
      let (f, made) =
        can_frame_total cid i chunk (omega arith) (omega arith) (omega arith) (omega arith) in
      (f, by_id cid i chunk has_id ∙ made)
  frame_of_total udp i chunk (mid, few, size) hi hn hl =
      udp_frame_total e.id i chunk mid (omega arith) (omega arith) (omega arith)
  frame_of_total video i chunk no_way hi hn hl = absurd no_way

  frames_from_total :
      (t : Transport) (start : ℕ) (pieces : List Bytes)
      → Carries c t e
      → start + length pieces ≤ n
      → n ≤ (c.rules t).max_fragments
      → All (λ p. length p ≤ (c.rules t).chunk_bytes) pieces
      → (frames : List Frame) × (frames_from c k t e h n start pieces ≡ ok frames)
  unfolding frames_from
  frames_from_total t start [] can_carry room hn small = ([], refl)
  frames_from_total t start (chunk ∷ rest) can_carry room hn small =
      let (f, made) = frame_of_total t start chunk can_carry (omega arith) hn small.0 in
      let (frames, more) =
        frames_from_total t (start + 1) rest can_carry (omega arith) hn small.1 in
      (f ∷ frames, rw (made, more))

chunks_from_small :
    (size : ℕ) (raw : Bytes) (count i : ℕ)
    → All (λ p. length p ≤ size) (chunks_from size raw count i)
unfolding chunks_from
chunks_from_small size raw zero i = tt
chunks_from_small size raw (suc count) i = (
  omega (arith, length-take size (drop (i * size) raw)),
  chunks_from_small size raw count (i + 1),
)

chunks_small : (size : ℕ) (raw : Bytes) → All (λ p. length p ≤ size) (chunks size raw)
unfolding chunks
chunks_small size raw = chunks_from_small size raw (ceil_div (length raw) size) 0

module _ (c : Contract) (k : Checksums) (payload_encode : ℕ → Payload → Result Bytes) where
  -- A valid message whose entry lists the transport and is carried by it, whose header fits its
  -- fields, and whose payload has an encoding of at most `max_fragments` pieces, is encoded.
  pub encode_total :
      (m : Message) (t : Transport) (e : Entry) (raw : Bytes)
      → validate_message c none none m ≡ ok tt
      → entry c m.message_id ≡ ok e
      → has_transport t e.transports ≡ true
      → Carries c t e
      → header_fits m.header ≡ true
      → payload_encode e.id m.payload ≡ ok raw
      → ceil_div (length raw) (c.rules t).chunk_bytes ≤ (c.rules t).max_fragments
      → (frames : List Frame) × (encode c k payload_encode m t ≡ ok frames)
  unfolding encode
  encode_total m t e raw valid found has can_carry fit coded few =
      let size : ℕ = (c.rules t).chunk_bytes in
      let count : length (chunks size raw) ≡ ceil_div (length raw) size = length-chunks size raw in
      let (frames, made) =
        frames_from_total c k e m.header (length (chunks size raw)) fit t 0 (chunks size raw)
          can_carry (omega arith) (omega (arith, count)) (chunks_small size raw) in
      let ent : transport_entry c m.message_id t none ≡ ok e =
        transport_entry_lem c m.message_id t none found has refl in
      let room : leb (length (chunks size raw)) (c.rules t).max_fragments ≡ true =
        le→leb _ _ (omega (arith, count)) in
      (frames, rw (valid, ent, coded, room, made))
