-- ===== src/Services/WsFraming/Readers.antt =====
-- python_services/shared/ws_framing.py: the two readers agree, and what they refuse.
use hil_simulation.Common.{
  ℕ, ◌+◌, ◌/◌, ◌%◌, ◌<◌, ◌≤◌, ◌≡◌, refl, sym, ap, ◌∙◌, subst, Bool, true, false, not, ◌&&◌, Option,
  some, none, [], ◌∷◌, ◌++◌, length, length-take, take, ltb, ◌==◌, ==_iff, if◌then◌else◌, arith,
  append_assoc,
}
use hil_simulation.Common.Bytes.{Bytes}
use hil_simulation.Common.Result.{
  Result, ok, err, ◌>>=◌, require-eq-ok, ok-injective, >>=-eq-ok, frame_error,
}
use hil_simulation.Services.WsFraming.Numbers.{byte_at}
use hil_simulation.Services.WsFraming.{
  Head, Frame, max_text_bytes, is_opcode, is_control, validate_header, read, readexactly,
  payload_length, length_exactly, validate_length, unmask, read_mask, mask_exactly, decode_frame,
  read_frame, length_field, encode_frame,
}
use hil_simulation.Services.WsFraming.RoundTrip.{
  bit, mask_bit, first_byte, field, length-apply_mask, validate_length-le,
}

-- The result of a call, forgetting which error it raised.
abbrev pub outcome {ℓ} : {A : Type ℓ} → Result A → Option A
outcome (ok a) = some a
outcome (err e) = none

outcome->>= {ℓ κ} :
    {A : Type ℓ} {B : Type κ} (r s : Result A) (f g : A → Result B)
    → outcome r ≡ outcome s
    → ((a : A) → outcome (f a) ≡ outcome (g a))
    → outcome (r >>= f) ≡ outcome (s >>= g)
outcome->>= (ok a) (ok b) f g e h = h a ∙ ap (λ x. outcome (g x)) (cc)
outcome->>= (ok a) (err y) f g e h = cc
outcome->>= (err x) (ok b) f g e h = cc
outcome->>= (err x) (err y) f g e h = refl

outcome-if {ℓ} :
    {A : Type ℓ} (b : Bool) (r s t u : Result A)
    → outcome r ≡ outcome t
    → outcome s ≡ outcome u
    → outcome (if b then r else s) ≡ outcome (if b then t else u)
outcome-if true r s t u h k = h
outcome-if false r s t u h k = k

read-readexactly : (n : ℕ) (s : Bytes) → outcome (read n s) ≡ outcome (readexactly n s)
unfolding read readexactly
read-readexactly n s = rw (length-take n s) (ground arith)

lengths_agree : (n : ℕ) (s : Bytes) → outcome (payload_length n s) ≡ outcome (length_exactly n s)
unfolding payload_length length_exactly
lengths_agree n s = outcome-if (ltb n 126) _ _ _ _ refl (
    outcome-if (n == 126) _ _ _ _
      (outcome->>= (read 2 s) (readexactly 2 s) _ _ (read-readexactly 2 s) λ r. refl)
      (outcome->>= (read 8 s) (readexactly 8 s) _ _ (read-readexactly 8 s) λ r. refl))

masks_agree :
    (masked : Bool) (s : Bytes) → outcome (read_mask masked s) ≡ outcome (mask_exactly masked s)
unfolding read_mask mask_exactly
masks_agree true s = outcome->>= (read 4 s) (readexactly 4 s) _ _ (read-readexactly 4 s) (λ r. refl)
masks_agree false s = refl

-- On every stream decode_frame and read_frame return the same frame and the same rest, or both
-- raise.
pub decode_frame-read_frame :
    (stream : Bytes) (require_masked : Bool)
    → outcome (decode_frame stream require_masked) ≡ outcome (read_frame stream require_masked)
unfolding decode_frame read_frame
decode_frame-read_frame stream require_masked =
    outcome->>= (read 2 stream) (readexactly 2 stream) _ _ (read-readexactly 2 stream) λ start.
      outcome->>= (validate_header (byte_at 0 start.0) (byte_at 1 start.0) require_masked) _ _ _
        refl
        λ head.
          outcome->>= (payload_length head.indicator start.1) _ _ _
            (lengths_agree head.indicator start.1)
            λ size. outcome->>= (validate_length head.opcode size.0) _ _ _ refl λ u.
              outcome->>= (read_mask head.masked size.1) _ _ _ (masks_agree head.masked size.1)
                λ mask.
                  outcome->>= (read size.0 mask.1) _ _ _ (read-readexactly size.0 mask.1)
                    λ body. refl

read-length : (n : ℕ) (s : Bytes) {r : Bytes × Bytes} → read n s ≡ ok r → length r.0 ≡ n
unfolding read
read-length n s {r} h =
    let (same, made) = require-eq-ok (length (take n s) == n) frame_error _ h in
    let cut : take n s ≡ r.0 = cc in
    subst (λ bs. length bs ≡ n) cut ((==_iff (length (take n s)) n).0 same)

length-unmask : (mask : Option Bytes) (bs : Bytes) → length (unmask mask bs) ≡ length bs
length-unmask none bs = refl
length-unmask (some key) bs = length-apply_mask key 0 bs

header-opcode :
    (first second : ℕ) (require_masked : Bool) {head : Head}
    → validate_header first second require_masked ≡ ok head
    → is_opcode head.opcode ≡ true
unfolding validate_header
header-opcode first second require_masked {head} h =
    let (top, h1) = require-eq-ok (first / 128 % 2 == 1) frame_error _ h in
    let (reserved, h2) = require-eq-ok (first / 16 % 8 == 0) frame_error _ h1 in
    let (known, h3) = require-eq-ok (is_opcode (first % 16)) frame_error _ h2 in
    let (allowed, h4) =
      require-eq-ok (not (require_masked && not (second / 128 % 2 == 1))) frame_error _ h3 in
    let same : first % 16 ≡ head.opcode = cc in subst (λ n. is_opcode n ≡ true) same known

abbrev pub Bounded : Frame → Type 0
Bounded f =
    (is_opcode f.opcode ≡ true)
    × (length f.payload ≤ max_text_bytes)
    × ((is_control f.opcode && ltb 125 (length f.payload)) ≡ false)

validate_length-control :
    (opcode size : ℕ)
    → validate_length opcode size ≡ ok tt
    → (is_control opcode && ltb 125 size) ≡ false
unfolding validate_length
validate_length-control opcode size h = ground arith

-- A frame that decode_frame returns has a known opcode, a payload of at most 1 MiB, and one of at
-- most 125 bytes if it is a control frame.
pub decode_frame_bounds :
    (stream rest : Bytes) (require_masked : Bool) (f : Frame)
    → decode_frame stream require_masked ≡ ok (f, rest)
    → Bounded f
unfolding decode_frame
decode_frame_bounds stream rest require_masked f done =
    let (start, h1, k1) = >>=-eq-ok (read 2 stream) _ done in
    let (head, h2, k2) =
      >>=-eq-ok (validate_header (byte_at 0 start.0) (byte_at 1 start.0) require_masked) _ k1 in
    let (size, h3, k3) = >>=-eq-ok (payload_length head.indicator start.1) _ k2 in
    let (u, h4, k4) = >>=-eq-ok (validate_length head.opcode size.0) _ k3 in
    let (mask, h5, k5) = >>=-eq-ok (read_mask head.masked size.1) _ k4 in
    let (body, h6, k6) = >>=-eq-ok (read size.0 mask.1) _ k5 in
    let same : record { opcode = head.opcode; payload = unmask mask.0 body.0 } ≡ f =
      ap (λ p. p.0) (ok-injective k6) in
    let sized : size.0 ≡ length (unmask mask.0 body.0) =
      sym (length-unmask mask.0 body.0 ∙ read-length size.0 mask.1 h6) in
    let known = header-opcode (byte_at 0 start.0) (byte_at 1 start.0) require_masked h2 in
    subst Bounded same (
      known,
      subst (λ n. n ≤ max_text_bytes) sized (validate_length-le head.opcode size.0 h4),
      subst (λ n. (is_control head.opcode && ltb 125 n) ≡ false) sized
          (validate_length-control head.opcode size.0 h4),
    )

unmasked_header :
    (opcode indicator : ℕ)
    → is_opcode opcode ≡ true
    → indicator < 128
    → validate_header (128 + opcode) (bit false + indicator) true ≡ err frame_error
unfolding validate_header
unmasked_header opcode indicator known small =
    let first = first_byte opcode known in
    rw (first.0, first.1, first.2, known, mask_bit false indicator small) refl

readexactly_two : (a b : ℕ) (s : Bytes) → readexactly 2 (a ∷ b ∷ s) ≡ ok (a ∷ b ∷ [], s)
unfolding readexactly
readexactly_two a b s = ground arith

unmasked_bytes :
    (opcode size : ℕ) (tail : Bytes)
    → is_opcode opcode ≡ true
    → size ≤ max_text_bytes
    → read_frame ((128 + opcode) ∷ (length_field false size ++ tail)) true ≡ err frame_error
unfolding read_frame
unmasked_bytes opcode size tail known fits =
    let (n, bs, f) = field size false tail fits in
    rw
      (
        f.0,
        readexactly_two (128 + opcode) (bit false + n) (bs ++ tail),
        unmasked_header opcode n known f.1,
      )
      refl

-- A reader that asks for masked frames refuses every unmasked frame that encode_frame builds.
pub read_frame-unmasked :
    (opcode : ℕ) (payload rest raw : Bytes) (mask : Option Bytes)
    → encode_frame opcode payload false mask ≡ ok raw
    → read_frame (raw ++ rest) true ≡ err frame_error
unfolding encode_frame
read_frame-unmasked opcode payload rest raw mask done =
    let (known, h1) = require-eq-ok (is_opcode opcode) frame_error _ done in
    let (u, fits, h2) = >>=-eq-ok (validate_length opcode (length payload)) _ h1 in
    subst (λ raw. read_frame (raw ++ rest) true ≡ err frame_error) (ok-injective h2)
      (rw append_assoc (
        unmasked_bytes opcode (length payload) (payload ++ rest) known
          (validate_length-le opcode (length payload) fits)))
