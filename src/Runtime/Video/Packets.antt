-- ===== src/Runtime/Video/Packets.antt =====
-- icd_runtime/video.py: `encode` succeeds on every valid frame, and each datagram is read back.
use hil_simulation.Common.{
  ℕ, zero, suc, ◌+◌, ◌^◌, ◌<◌, ◌≤◌, ◌≡◌, refl, ap, sym, true, ◌&&◌, ◌||◌, not, Option, some, none,
  List, [], ◌∷◌, ◌++◌, arith, leb, ltb, leb→le, ◌==◌, length, get_elem?,
}
use hil_simulation.Common.Bytes.{Bytes, le, le_value-le}
use hil_simulation.Common.Result.{ok, >>=-eq-ok, require-eq-ok}
use hil_simulation.Runtime.Wire.Layout.{Checksums, crc32, fits}
use hil_simulation.Runtime.Chunks.{ceil_div, ceil_div_bounds, chunk_at, length-chunk_at}
use hil_simulation.Runtime.Wire.Fragments.{chunk_at_bounds}
use hil_simulation.Runtime.Video.{
  VideoHeader, VideoFragment, VideoRules, is_raw, raw_frame_bytes, validate_header, validate_frame,
  video_header, packet_bytes, packet, packets_from, encode, decode,
}
use hil_simulation.Runtime.Video.RoundTrip.{validate_header-Ranges, video_header-Reads, decode_lem}

-- The catalogue's video rules.
pub record IsFrozen (r : VideoRules) : Type 0 where
  pub chunk : r.chunk_bytes ≡ 1152
  pub datagram : r.max_datagram_bytes ≡ 1200
  pub frame : r.max_frame_bytes ≡ 2097152
  pub fragments : r.max_fragments ≡ 1821

-- What `validate_frame` establishes.
record FrameFits (r : VideoRules) (frame : Bytes) (h : VideoHeader) : Type 0 where
  header : validate_header h ≡ ok tt
  nonempty : 1 ≤ length frame
  bounded : length frame ≤ r.max_frame_bytes
  exact : (not (is_raw h.codec) || length frame == raw_frame_bytes) ≡ true

validate_frame-FrameFits :
    (r : VideoRules) (frame : Bytes) (h : VideoHeader)
    → validate_frame r frame h ≡ ok tt
    → FrameFits r frame h
unfolding validate_frame
validate_frame-FrameFits r frame h valid =
    let (_, head, h1) = >>=-eq-ok (validate_header h) _ valid in
    let (some_data, h2) = require-eq-ok _ _ _ h1 in
    let (small, h3) = require-eq-ok _ _ _ h2 in
    let (exact, h4) = require-eq-ok _ _ _ h3 in
    record {
      header = head;
      nonempty = leb→le _ _ some_data;
      bounded = leb→le _ _ small;
      exact = exact;
    }

fits_lem :
    (i n total len : ℕ)
    → i < 65536
    → n < 65536
    → total < 2 ^ 32
    → len < 65536
    → (fits 2 i && fits 2 n && fits 4 total && fits 2 len) ≡ true
fits_lem i n total len hi hn ht hl = ground arith

le_le_lem : (a b c : ℕ) → a ≤ b → b ≤ c → (leb a b && leb b c) ≡ true
le_le_lem a b c h k = ground arith

counts_lem : (i n max : ℕ) → i < n → n ≤ max → (leb 1 n && leb n max && n == n && ltb i n) ≡ true
counts_lem i n max hi hn = ground arith

module _ (r : VideoRules) (k : Checksums) (z : IsFrozen r) (frame : Bytes) (h : VideoHeader) where
  abbrev count : ℕ
  count = ceil_div (length frame) r.chunk_bytes

  -- The fragment at an index of the frame.
  abbrev pub fragment_at : ℕ → VideoFragment
  fragment_at i = record {
    header = h;
    index = i;
    count = count;
    frame_bytes = length frame;
    payload = chunk_at r.chunk_bytes frame i;
  }

  count-le : FrameFits r frame h → count ≤ 1821
  count-le f =
      let b = ceil_div_bounds (length frame) r.chunk_bytes (omega (arith, z.chunk)) in
      rw z.chunk (omega (arith, f.bounded, z.frame))

  packet_total :
      (i : ℕ)
      → FrameFits r frame h
      → i < count
      → packet r k h i count (length frame) (chunk_at r.chunk_bytes frame i)
        ≡ ok (packet_bytes r k h i count (length frame) (chunk_at r.chunk_bytes frame i))
  unfolding packet
  packet_total i f hi =
      let n : count ≤ 1821 = count-le f in
      let b = chunk_at_bounds r.chunk_bytes frame i (omega (arith, z.chunk)) f.nonempty hi in
      let len : length (chunk_at r.chunk_bytes frame i) < 65536 = omega (arith, b.1, z.chunk) in
      let total : length frame < 2 ^ 32 = omega (arith, f.bounded, z.frame) in
      let test =
        fits_lem i count (length frame) (length (chunk_at r.chunk_bytes frame i)) (omega arith)
          (omega arith) total len in
      rw test

  packets_from_total :
      (left i : ℕ)
      → FrameFits r frame h
      → i + left ≤ count
      → (packets : List Bytes) × (packets_from r k frame h count left i ≡ ok packets)
        × (length packets ≡ left)
  unfolding packets_from
  packets_from_total zero i f room = ([], refl, refl)
  packets_from_total (suc left) i f room =
      let (ps, made, len) = packets_from_total left (i + 1) f (omega arith) in
      (
        packet_bytes r k h i count (length frame) (chunk_at r.chunk_bytes frame i) ∷ ps,
        rw (packet_total i f (omega arith), made),
        ap suc len,
      )

  get_elem?-packets_from :
      (left i j : ℕ) {packets : List Bytes} {p : Bytes}
      → FrameFits r frame h
      → i + left ≤ count
      → packets_from r k frame h count left i ≡ ok packets
      → get_elem? packets j ≡ some p
      → (i + j < count)
        × (p
            ≡ packet_bytes r k h
                (i + j)
                count
                (length frame)
                (chunk_at r.chunk_bytes frame (i + j)))
  unfolding packets_from
  get_elem?-packets_from zero i j {packets} {p} f room made at =
      let all : packets ≡ [] = cc in
      let absent : ◌≡◌ {A = Option Bytes} none (some p) = rw all at at in absurd (grind arith)
  get_elem?-packets_from (suc left) i zero {packets} {p} f room made at =
      let ch : Bytes = chunk_at r.chunk_bytes frame i in
      let (x, first, h1) = >>=-eq-ok (packet r k h i count (length frame) ch) _ made in
      let (xs, more, h2) = >>=-eq-ok (packets_from r k frame h count left (i + 1)) _ h1 in
      let all : packets ≡ x ∷ xs = cc in
      let here : ◌≡◌ {A = Option Bytes} (some x) (some p) = rw all at at in
      let same : x ≡ packet_bytes r k h i count (length frame) ch =
        cc (packet_total i f (omega arith)) in
      let e : i + 0 ≡ i = omega arith in (omega arith, rw e (cc))
  get_elem?-packets_from (suc left) i (suc j) {packets} {p} f room made at =
      let (x, first, h1) =
        >>=-eq-ok (packet r k h i count (length frame) (chunk_at r.chunk_bytes frame i)) _ made in
      let (xs, more, h2) = >>=-eq-ok (packets_from r k frame h count left (i + 1)) _ h1 in
      let all : packets ≡ x ∷ xs = cc in
      let later : get_elem? xs j ≡ some p = rw all at at in
      let e : i + suc j ≡ i + 1 + j = omega arith in
      let (lt, same) = get_elem?-packets_from left (i + 1) j f (omega arith) more later in
      (omega arith, rw e same)

  decode-packet_bytes :
      (i : ℕ)
      → FrameFits r frame h
      → i < count
      → decode r k (packet_bytes r k h i count (length frame) (chunk_at r.chunk_bytes frame i))
        ≡ ok (fragment_at i)
  decode-packet_bytes i f hi =
      let ch : Bytes = chunk_at r.chunk_bytes frame i in
      let n : count ≤ 1821 = count-le f in
      let len = chunk_at_bounds r.chunk_bytes frame i (omega (arith, z.chunk)) f.nonempty hi in
      let prefix : Bytes = video_header h i count (length frame) (length ch) in
      let sum : ℕ = crc32 k (prefix ++ ch) in
      let bytes : Bytes = packet_bytes r k h i count (length frame) ch in
      let size : length bytes ≡ 48 + length ch = omega arith in
      decode_lem r k bytes h i count (length frame) ch
        (le_le_lem 49 (length bytes) r.max_datagram_bytes (omega arith)
          (omega (arith, z.datagram, z.chunk, len.1)))
        (video_header-Reads h (length ch) i count (length frame) (le 4 sum ++ ch)
          (validate_header-Ranges h f.header) (omega (arith, z.chunk, len.1)) (omega arith)
          (omega arith) (omega (arith, f.bounded, z.frame)))
        size refl (sym (le_value-le 4 sum (omega arith))) f.header
        (le_le_lem 1 (length frame) r.max_frame_bytes f.nonempty f.bounded) f.exact
        (counts_lem i count r.max_fragments hi (omega (arith, z.fragments)))
        (length-chunk_at r.chunk_bytes frame i)

  -- Every frame that `validate_frame` accepts is encoded, into as many datagrams as it has chunks.
  pub encode_video_total :
      validate_frame r frame h ≡ ok tt
      → (packets : List Bytes) × (encode r k frame h ≡ ok packets) × (length packets ≡ count)
  unfolding encode
  encode_video_total valid =
      let f = validate_frame-FrameFits r frame h valid in
      let (packets, made, len) = packets_from_total count 0 f (omega arith) in
      (packets, rw (valid, made), len)

  -- The datagram that `encode` puts at an index is decoded as the fragment at that index, with the
  -- frame's header and length.
  pub decode-encode_video :
      (i : ℕ) {packets : List Bytes} {p : Bytes}
      → encode r k frame h ≡ ok packets
      → get_elem? packets i ≡ some p
      → decode r k p ≡ ok (fragment_at i)
  unfolding encode
  decode-encode_video i {packets} {p} built at =
      let (_, valid, made) = >>=-eq-ok (validate_frame r frame h) _ built in
      let f = validate_frame-FrameFits r frame h valid in
      let (lt, same) = get_elem?-packets_from count 0 i f (omega arith) made at in
      let e : 0 + i ≡ i = omega arith in
      let same' : p ≡ packet_bytes r k h i count (length frame) (chunk_at r.chunk_bytes frame i) =
        rw e at same in
      rw same' (decode-packet_bytes i f (omega arith))
