-- ===== src/Runtime/Wire/Fragments.antt =====
-- `_fragment` of icd_runtime/wire.py accepts the pieces that `encode` makes.
use hil_simulation.Common.{
  ℕ, suc, ◌+◌, ◌-◌, ◌*◌, ◌<◌, ◌≤◌, ◌≡◌, refl, ap, true, ◌&&◌, ◌||◌, not, min, arith, leb, ltb,
  le→leb, ◌==◌, length, ==_refl,
}
use hil_simulation.Common.Bytes.{Bytes}
use hil_simulation.Common.Result.{ok}
use hil_simulation.Runtime.Contract.{
  Contract, Entry, Header, Transport, packed_le, rfc8785_json, Encoding, validate_header,
}
use hil_simulation.Runtime.Chunks.{ceil_div, ceil_div_bounds, chunk_at, length-chunk_at}
use hil_simulation.Runtime.Wire.{Fragment, make_fragment, layout_ok}

mul_mono : (i j size : ℕ) → i ≤ j → i * size ≤ j * size
mul_mono i j size h = grind arith

-- Where the pieces of `total` bytes end.
record Fits (total size i count len : ℕ) : Type 0 where
  starts : (count - 1) * size + 1 ≤ total
  nonempty : 1 ≤ len
  bounded : len ≤ size
  full : suc i ≤ count - 1 → len ≡ size
  last : i ≡ count - 1 → (count - 1) * size + len ≤ total

pieces-Fits :
    (total size i : ℕ)
    → 0 < size
    → 0 < total
    → i < ceil_div total size
    → Fits total size i (ceil_div total size) (min size (total - i * size))
pieces-Fits total size i hs ht hi =
    let n : ℕ = ceil_div total size in
    let b = ceil_div_bounds total size hs in
    let low : (n - 1) * size < total = b.1 ht in
    let here : i * size ≤ (n - 1) * size = mul_mono i (n - 1) size (omega arith) in
    record {
      starts = omega arith;
      nonempty = omega arith;
      bounded = omega arith;
      full = λ more.
          let next : suc i * size ≤ (n - 1) * size = mul_mono (suc i) (n - 1) size more in
          omega arith;
      last =
          λ e. let at_last : i * size ≡ (n - 1) * size = ap (λ (t : ℕ). t * size) e in omega arith;
    }

-- A piece is not empty, and no larger than a chunk.
pub chunk_at_bounds :
    (size : ℕ) (raw : Bytes) (i : ℕ)
    → 0 < size
    → 0 < length raw
    → i < ceil_div (length raw) size
    → (1 ≤ length (chunk_at size raw i)) × (length (chunk_at size raw i) ≤ size)
chunk_at_bounds size raw i hs ht hi =
    let f = pieces-Fits (length raw) size i hs ht hi in omega (arith, length-chunk_at size raw i)

full_lem : (i m len size : ℕ) → (suc i ≤ m → len ≡ size) → (not (ltb i m) || len == size) ≡ true
full_lem i m len size full = ground arith

last_lem : (i m a b : ℕ) → (i ≡ m → a ≤ b) → (not (i == m) || leb a b) ≡ true
last_lem i m a b last = ground arith

-- Each test of `_fragment` passes at numbers that fit.
module _ (c : Contract) (t : Transport) (e : Entry) (h : Header) (i n : ℕ) (payload : Bytes) where
  abbrev size : ℕ
  size = (c.rules t).chunk_bytes

  abbrev pub fragment_of : Fragment
  fragment_of = record {
    transport = t;
    direction = e.direction;
    message_id = e.id;
    header = h;
    index = i;
    count = n;
    payload = payload;
    reservation_bytes = min (n * size) e.max_logical_payload_bytes;
  }

  make_fragment_passes :
      (total : ℕ)
      → Fits total size i n (length payload)
      → total ≤ e.max_logical_payload_bytes
      → n ≤ (c.rules t).max_fragments
      → i < n
      → layout_ok e size i n (length payload) ≡ true
      → validate_header c e.id h ≡ ok tt
      → make_fragment c t e h i n payload ≡ ok fragment_of
  unfolding make_fragment
  make_fragment_passes total f cap fewer hi layout valid =
      let bounds : (leb 1 n
            && leb n (c.rules t).max_fragments
            && ltb i n
            && leb 1 (length payload)
            && leb (length payload) size)
          ≡ true =
        ground arith in
      let room : leb ((n - 1) * size + 1) e.max_logical_payload_bytes ≡ true =
        le→leb _ _ (omega arith) in
      let whole : (not (ltb i (n - 1)) || length payload == size) ≡ true =
        full_lem i (n - 1) (length payload) size f.full in
      let last : (not (i == n - 1)
            || leb ((n - 1) * size + length payload) e.max_logical_payload_bytes)
          ≡ true =
        last_lem i (n - 1) ((n - 1) * size + length payload) e.max_logical_payload_bytes
          (λ q. omega (arith, f.last q)) in
      rw (bounds, room, whole, last, layout, valid)

-- A payload within the bounds of its message, of the exact size if it is packed.
pub record PayloadFits (e : Entry) (raw : Bytes) : Type 0 where
  pub nonempty : 0 < length raw
  pub capacity : length raw ≤ e.max_logical_payload_bytes
  pub exact : e.encoding ≡ packed_le → length raw ≡ e.payload_bytes

layout_ok_lem :
    (e : Entry) (size i total : ℕ) (en : Encoding)
    → e.encoding ≡ en
    → (e.encoding ≡ packed_le → total ≡ e.payload_bytes)
    → layout_ok e size i (ceil_div total size) (min size (total - i * size)) ≡ true
layout_ok_lem e size i total packed_le eq exact = rw (
  exact eq,
  eq,
  ==_refl (ceil_div e.payload_bytes size),
  ==_refl (min size (e.payload_bytes - i * size)),
)
layout_ok_lem e size i total rfc8785_json eq exact = rw eq

module _ (c : Contract) (t : Transport) (e : Entry) (h : Header) (raw : Bytes) (i : ℕ) where
  -- The fragment that is piece `i` of the payload.
  abbrev pub piece : Fragment
  piece =
      let size = (c.rules t).chunk_bytes in
      fragment_of c t e h i (ceil_div (length raw) size) (chunk_at size raw i)

  -- `_fragment` accepts it.
  pub make_fragment_lem :
      let size = (c.rules t).chunk_bytes in
      let n = ceil_div (length raw) size in
      0 < size
      → PayloadFits e raw
      → n ≤ (c.rules t).max_fragments
      → i < n
      → validate_header c e.id h ≡ ok tt
      → make_fragment c t e h i n (chunk_at size raw i) ≡ ok piece
  make_fragment_lem hs p fewer hi valid =
      let size = (c.rules t).chunk_bytes in
      let len = length-chunk_at size raw i in
      make_fragment_passes c t e h i (ceil_div (length raw) size) (chunk_at size raw i) (length raw)
        (rw len (pieces-Fits (length raw) size i hs p.nonempty hi)) p.capacity fewer hi
        (rw len (layout_ok_lem e size i (length raw) e.encoding refl p.exact)) valid
