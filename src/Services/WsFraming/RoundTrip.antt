-- ===== src/Services/WsFraming/RoundTrip.antt =====
-- python_services/shared/ws_framing.py: what `encode_frame` builds, `decode_frame` reads back.
use hil_simulation.Common.{
  ℕ, suc, ◌+◌, ◌/◌, ◌%◌, ◌<◌, ◌≤◌, ◌≡◌, refl, ap, ◌∙◌, subst, Bool, true, false, not, ◌&&◌, Option,
  some, none, [], ◌∷◌, ◌++◌, length, leb, ltb, ◌==◌, ==_iff, if◌then◌else◌, arith, All, Bool-cases,
  inl, inr, take-append_exact, drop-append_exact, append_assoc,
}
use hil_simulation.Common.Bytes.{Bytes}
use hil_simulation.Common.Result.{Result, ok, ◌>>=◌, ◌>>◌, require-eq-ok, >>=-eq-ok, frame_error}
use hil_simulation.Services.WsFraming.Numbers.{be, be_value-be, length-be, xor-xor, byte_at}
use hil_simulation.Services.WsFraming.{
  Frame, max_text_bytes, is_opcode, validate_header, read, payload_length, validate_length,
  apply_mask, unmask, read_mask, decode_frame, length_field, require_mask, encode_frame,
}

abbrev pub bit : Bool → ℕ
bit masked = if masked then 128 else 0

pub read-append : (n : ℕ) (xs ys : Bytes) → length xs ≡ n → read n (xs ++ ys) ≡ ok (xs, ys)
unfolding read
read-append n xs ys e =
    rw (take-append_exact n xs ys e, drop-append_exact n xs ys e) (ground (arith, e))

pub length-apply_mask :
    (mask : Bytes) (i : ℕ) (bs : Bytes) → length (apply_mask mask i bs) ≡ length bs
unfolding apply_mask
length-apply_mask mask i [] = refl
length-apply_mask mask i (b ∷ bs) = ap suc (length-apply_mask mask (i + 1) bs)

-- Masking twice gives the bytes back.
pub apply_mask-apply_mask :
    (mask : Bytes) (i : ℕ) (bs : Bytes)
    → All (λ b. b < 256) bs
    → apply_mask mask i (apply_mask mask i bs) ≡ bs
unfolding apply_mask
apply_mask-apply_mask mask i [] h = refl
apply_mask-apply_mask mask i (b ∷ bs) h =
    rw (xor-xor 8 b (byte_at (i % 4) mask) h.0, apply_mask-apply_mask mask (i + 1) bs h.1) refl

is_opcode_lt : (n : ℕ) → is_opcode n ≡ true → n < 16
is_opcode_lt n h = ground arith

pub mask_bit : (masked : Bool) (n : ℕ) → n < 128 → ((bit masked + n) / 128 % 2 == 1) ≡ masked
mask_bit true n h = ground arith
mask_bit false n h = ground arith

low_bits : (masked : Bool) (n : ℕ) → n < 128 → (bit masked + n) % 128 ≡ n
low_bits true n h = omega arith
low_bits false n h = omega arith

pub first_byte :
    (opcode : ℕ)
    → is_opcode opcode ≡ true
    → ((128 + opcode) / 128 % 2 ≡ 1)
      × ((128 + opcode) / 16 % 8 ≡ 0)
      × ((128 + opcode) % 16 ≡ opcode)
first_byte opcode known =
    let small = is_opcode_lt opcode known in (omega arith, omega arith, omega arith)

validate_header-of :
    (opcode : ℕ) (masked require_masked : Bool) (indicator : ℕ)
    → is_opcode opcode ≡ true
    → (require_masked && not masked) ≡ false
    → indicator < 128
    → validate_header (128 + opcode) (bit masked + indicator) require_masked
      ≡ ok (record { opcode = opcode; masked = masked; indicator = indicator })
unfolding validate_header
validate_header-of opcode masked require_masked indicator known allowed small =
    let first = first_byte opcode known in
    rw
      (
        first.0,
        first.1,
        first.2,
        mask_bit masked indicator small,
        low_bits masked indicator small,
        known,
        allowed,
      )
      refl

-- What `decode_frame` does after the length.
abbrev decode_rest : ℕ → Bool → ℕ → Bytes → Result (Frame × Bytes)
decode_rest opcode masked size stream = do
  validate_length opcode size
  mask ← read_mask masked stream
  body ← read size mask.1
  ok (record { opcode = opcode; payload = unmask mask.0 body.0 }, body.1)

module _ (size : ℕ) (masked : Bool) (tail : Bytes) where
  -- The length field is an indicator with the mask bit and the bytes after it.
  abbrev pub Field : ℕ → Bytes → Type 0
  Field indicator extension =
      (length_field masked size ≡ (bit masked + indicator) ∷ extension)
      × (indicator < 128)
      × (payload_length indicator (extension ++ tail) ≡ ok (size, tail))

  short-Field : ltb size 126 ≡ true → Field size []
  unfolding length_field payload_length
  short-Field short = (rw short refl, ground arith, rw short refl)

  medium-Field : ltb size 126 ≡ false → leb size 0xFFFF ≡ true → Field 126 (be 2 size)
  unfolding length_field payload_length
  medium-Field long medium = (
    rw (long, medium) refl,
    omega arith,
    rw (read-append 2 (be 2 size) tail (length-be 2 size), be_value-be 2 size (ground arith)) refl,
  )

  long-Field :
      ltb size 126 ≡ false → leb size 0xFFFF ≡ false → size ≤ max_text_bytes → Field 127 (be 8 size)
  unfolding length_field payload_length
  long-Field long large fits = (
    rw (long, large) refl,
    omega arith,
    rw (read-append 8 (be 8 size) tail (length-be 8 size), be_value-be 8 size (omega arith)) refl,
  )

  pub field : size ≤ max_text_bytes → (n : ℕ) × (bs : Bytes) × Field n bs
  field fits = elim (Bool-cases (ltb size 126)) [
    | inl short ↦ (size, [], short-Field short)
    | inr long ↦ elim (Bool-cases (leb size 0xFFFF)) [
      | inl medium ↦ (126, be 2 size, medium-Field long medium)
      | inr large ↦ (127, be 8 size, long-Field long large fits)
    ]
  ]

  decode-length_field :
      (opcode : ℕ) (require_masked : Bool)
      → is_opcode opcode ≡ true
      → (require_masked && not masked) ≡ false
      → size ≤ max_text_bytes
      → decode_frame ((128 + opcode) ∷ (length_field masked size ++ tail)) require_masked
        ≡ decode_rest opcode masked size tail
  unfolding decode_frame read
  decode-length_field opcode require_masked known allowed fits =
      let (n, bs, f) = field fits in
      rw (f.0, validate_header-of opcode masked require_masked n known allowed f.1, f.2) refl

decode_rest-plain :
    (opcode : ℕ) (payload rest : Bytes)
    → validate_length opcode (length payload) ≡ ok tt
    → decode_rest opcode false (length payload) (payload ++ rest)
      ≡ ok (record { opcode = opcode; payload = payload }, rest)
unfolding read_mask
decode_rest-plain opcode payload rest fits =
    rw (fits, read-append (length payload) payload rest refl) refl

decode_rest-masked :
    (opcode : ℕ) (payload key rest : Bytes)
    → validate_length opcode (length payload) ≡ ok tt
    → All (λ b. b < 256) payload
    → length key ≡ 4
    → decode_rest opcode true (length payload) (key ++ (apply_mask key 0 payload ++ rest))
      ≡ ok (record { opcode = opcode; payload = payload }, rest)
unfolding read_mask
decode_rest-masked opcode payload key rest fits bytes four =
    rw
      (
        fits,
        read-append 4 key (apply_mask key 0 payload ++ rest) four,
        read-append (length payload) (apply_mask key 0 payload) rest
            (length-apply_mask key 0 payload),
        apply_mask-apply_mask key 0 payload bytes,
      )
      refl

pub validate_length-le :
    (opcode size : ℕ) → validate_length opcode size ≡ ok tt → size ≤ max_text_bytes
unfolding validate_length
validate_length-le opcode size h = ground arith

-- What `encode_frame` does after its tests.
abbrev encode_rest : ℕ → Bytes → Bool → Option Bytes → Result Bytes
encode_rest opcode payload masked mask =
    if masked
    then (require_mask mask >>= λ key.
        ok (
          (128 + opcode) ∷ length_field masked (length payload) ++ key ++ apply_mask key 0 payload))
    else ok ((128 + opcode) ∷ length_field masked (length payload) ++ payload)

module _ (opcode : ℕ) (payload rest : Bytes) (require_masked : Bool)
    (known : is_opcode opcode ≡ true) (fits : validate_length opcode (length payload) ≡ ok tt)
    (bytes : All (λ b. b < 256) payload) where
  decode-encode_rest :
      (masked : Bool) (mask : Option Bytes) {raw : Bytes}
      → (require_masked && not masked) ≡ false
      → encode_rest opcode payload masked mask ≡ ok raw
      → decode_frame (raw ++ rest) require_masked
        ≡ ok (record { opcode = opcode; payload = payload }, rest)
  decode-encode_rest false mask {raw} allowed done =
      let same : (128 + opcode) ∷ length_field false (length payload) ++ payload ≡ raw = cc in
      let size = validate_length-le opcode (length payload) fits in
      subst
        (λ raw.
          decode_frame (raw ++ rest) require_masked
          ≡ ok (record { opcode = opcode; payload = payload }, rest))
        same
        (rw append_assoc (
          decode-length_field (length payload) false (payload ++ rest) opcode require_masked known
            allowed size
          ∙ decode_rest-plain opcode payload rest fits))
  decode-encode_rest true none allowed done = cc
  decode-encode_rest true (some key) {raw} allowed done =
      let (used, found, made) = >>=-eq-ok (require_mask (some key)) _ done in
      let (four, given) = require-eq-ok (length key == 4) frame_error _ found in
      let same : (128 + opcode) ∷ length_field true (length payload)
            ++ key
            ++ apply_mask key 0 payload
          ≡ raw =
        cc in
      let size = validate_length-le opcode (length payload) fits in
      subst
        (λ raw.
          decode_frame (raw ++ rest) require_masked
          ≡ ok (record { opcode = opcode; payload = payload }, rest))
        same
        (rw
          (
            append_assoc,
            append_assoc (length_field true (length payload)) key
                (apply_mask key 0 payload ++ rest),
          )
          (decode-length_field (length payload) true (key ++ (apply_mask key 0 payload ++ rest))
              opcode require_masked known allowed size
            ∙ decode_rest-masked opcode payload key rest fits bytes
                ((==_iff (length key) 4).0 four)))

-- A frame that encode_frame builds of bytes, masked if the reader asks for it, is read back by
-- decode_frame, and leaves the rest of the stream.
pub decode_frame-encode_frame :
    (opcode : ℕ) (payload rest raw : Bytes) (masked require_masked : Bool) (mask : Option Bytes)
    → All (λ b. b < 256) payload
    → (require_masked && not masked) ≡ false
    → encode_frame opcode payload masked mask ≡ ok raw
    → decode_frame (raw ++ rest) require_masked
      ≡ ok (record { opcode = opcode; payload = payload }, rest)
unfolding encode_frame
decode_frame-encode_frame opcode payload rest raw masked require_masked mask bytes allowed done =
    let (known, h1) = require-eq-ok (is_opcode opcode) frame_error _ done in
    let (u, fits, h2) = >>=-eq-ok (validate_length opcode (length payload)) _ h1 in
    decode-encode_rest opcode payload rest require_masked known fits bytes masked mask allowed h2
