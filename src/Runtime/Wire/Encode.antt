-- ===== src/Runtime/Wire/Encode.antt =====
-- icd_runtime/wire.py: what a call of `encode` goes through, and when it succeeds.
use hil_simulation.Common.{
  ℕ, zero, suc, ◌+◌, ◌≤◌, ◌≡◌, refl, ap, subst, true, Option, some, none, List, [], ◌∷◌, arith,
  leb→le, length, get_elem?,
}
use hil_simulation.Common.Bytes.{Bytes}
use hil_simulation.Common.Result.{Result, ok, >>=-eq-ok, require-eq-ok}
use hil_simulation.Runtime.Contract.{
  Contract, Entry, Header, Message, Payload, Transport, Direction, entry, has_transport,
  allows_direction, validate_header, validate_message, validate_message-eq-ok,
}
use hil_simulation.Runtime.Chunks.{chunks}
use hil_simulation.Runtime.Wire.Layout.{Checksums}
use hil_simulation.Runtime.Wire.{Frame, transport_entry, frame_of, frames_from, encode}

pub transport_entry-eq-ok :
    (c : Contract) (mid : ℕ) (t : Transport) (d : Option Direction) {e : Entry}
    → transport_entry c mid t d ≡ ok e
    → (entry c mid ≡ ok e) × (has_transport t e.transports ≡ true)
unfolding transport_entry
transport_entry-eq-ok c mid t d {e} h = ground arith

pub transport_entry_lem :
    (c : Contract) (mid : ℕ) (t : Transport) (d : Option Direction) {e : Entry}
    → entry c mid ≡ ok e
    → has_transport t e.transports ≡ true
    → allows_direction d e.direction ≡ true
    → transport_entry c mid t d ≡ ok e
unfolding transport_entry
transport_entry_lem c mid t d found has way = rw (found, has, way)

module _ (c : Contract) (k : Checksums) where
  pub frames_from-eq-ok :
      (t : Transport) (e : Entry) (h : Header) (n start : ℕ) (pieces : List Bytes) (j : ℕ)
      {frames : List Frame} {f : Frame}
      → frames_from c k t e h n start pieces ≡ ok frames
      → get_elem? frames j ≡ some f
      → (chunk : Bytes) × (get_elem? pieces j ≡ some chunk)
        × (frame_of c k t e h (start + j) n chunk ≡ ok f)
  unfolding frames_from
  frames_from-eq-ok t e h n start [] j {frames} {f} built at =
      let all : frames ≡ [] = cc in
      let absent : ◌≡◌ {A = Option Frame} none (some f) = rw all at at in absurd (grind arith)
  frames_from-eq-ok t e h n start (chunk ∷ rest) zero {frames} {f} built at =
      let (x, made, h1) = >>=-eq-ok (frame_of c k t e h start n chunk) _ built in
      let (xs, more, h2) = >>=-eq-ok (frames_from c k t e h n (start + 1) rest) _ h1 in
      let all : frames ≡ x ∷ xs = cc in
      let first : ◌≡◌ {A = Option Frame} (some x) (some f) = rw all at at in
      let here : start + 0 ≡ start = omega arith in (chunk, refl, rw here (cc))
  frames_from-eq-ok t e h n start (chunk ∷ rest) (suc j) {frames} {f} built at =
      let (x, made, h1) = >>=-eq-ok (frame_of c k t e h start n chunk) _ built in
      let (xs, more, h2) = >>=-eq-ok (frames_from c k t e h n (start + 1) rest) _ h1 in
      let all : frames ≡ x ∷ xs = cc in
      let later : get_elem? xs j ≡ some f = rw all at at in
      let (ch, found, g) = frames_from-eq-ok t e h n (start + 1) rest j more later in
      let here : start + suc j ≡ start + 1 + j = omega arith in (ch, found, rw here g)

  pub length-frames_from :
      (t : Transport) (e : Entry) (h : Header) (n start : ℕ) (pieces : List Bytes)
      {frames : List Frame}
      → frames_from c k t e h n start pieces ≡ ok frames
      → length frames ≡ length pieces
  unfolding frames_from
  length-frames_from t e h n start [] {frames} built = let all : frames ≡ [] = cc in rw all
  length-frames_from t e h n start (chunk ∷ rest) {frames} built =
      let (x, made, h1) = >>=-eq-ok (frame_of c k t e h start n chunk) _ built in
      let (xs, more, h2) = >>=-eq-ok (frames_from c k t e h n (start + 1) rest) _ h1 in
      let all : frames ≡ x ∷ xs = cc in
      rw all (ap suc (length-frames_from t e h n (start + 1) rest more))

  -- What a successful `encode` went through.
  pub record Encoded (payload_encode : ℕ → Payload → Result Bytes) (m : Message) (t : Transport)
      (e : Entry) (frames : List Frame) : Type 0 where
    pub raw : Bytes
    pub has : has_transport t e.transports ≡ true
    pub valid : validate_header c m.message_id m.header ≡ ok tt
    pub coded : payload_encode e.id m.payload ≡ ok raw
    pub fewer : length (chunks (c.rules t).chunk_bytes raw) ≤ (c.rules t).max_fragments
    pub framed :
        frames_from c k t e m.header
          (length (chunks (c.rules t).chunk_bytes raw))
          0
          (chunks (c.rules t).chunk_bytes raw)
        ≡ ok frames

  pub encode-Encoded :
      (payload_encode : ℕ → Payload → Result Bytes) (m : Message) (t : Transport) {e : Entry}
      {frames : List Frame}
      → entry c m.message_id ≡ ok e
      → encode c k payload_encode m t ≡ ok frames
      → Encoded payload_encode m t e frames
  unfolding encode
  encode-Encoded payload_encode m t {e} {frames} known built =
      let (u, ok_message, h1) = >>=-eq-ok (validate_message c none none m) _ built in
      let (e', ent, h2) = >>=-eq-ok (transport_entry c m.message_id t none) _ h1 in
      let (raw, coded, h3) = >>=-eq-ok (payload_encode e'.id m.payload) _ h2 in
      let (fewer, framed) = require-eq-ok _ _ _ h3 in
      let (found, has) = transport_entry-eq-ok c m.message_id t none ent in
      let (_, _, _, valid, _) = validate_message-eq-ok c none none m ok_message in
      let same : e' ≡ e = cc in
      let size : ℕ = (c.rules t).chunk_bytes in
      record {
        raw = raw;
        has = subst (λ x. has_transport t x.transports ≡ true) same has;
        valid = valid;
        coded = subst (λ x. payload_encode x.id m.payload ≡ ok raw) same coded;
        fewer = leb→le _ _ fewer;
        framed =
            subst
              (λ x.
                frames_from c k t x m.header (length (chunks size raw)) 0 (chunks size raw)
                ≡ ok frames)
              same framed;
      }
