-- ===== src/Services/WsFraming.antt =====
-- python_services/shared/ws_framing.py: the codec of WebSocket frames.
pub mod Numbers
pub mod RoundTrip
pub mod Readers
mod Tests
use hil_simulation.Common.{
  ℕ, zero, suc, ◌+◌, ◌*◌, ◌/◌, ◌%◌, Bool, true, false, not, ◌&&◌, ◌||◌, Option, some, none, List,
  [], ◌∷◌, ◌++◌, length, take, drop, get_elem?, leb, ltb, ◌==◌, if◌then◌else◌,
}
use hil_simulation.Common.Bytes.{Bytes}
use hil_simulation.Common.Result.{
  Code, Result, ok, err, ◌>>=◌, ◌>>◌, require, frame_error, incomplete_read,
}
use hil_simulation.Services.WsFraming.Numbers.{be, be_value, xor, byte_at}

abbrev pub max_text_bytes : ℕ
max_text_bytes = 1024 * 1024

-- `opcode in (0x1, 0x2, 0x8, 0x9, 0xA)`
abbrev pub is_opcode : ℕ → Bool
is_opcode opcode = opcode == 1 || opcode == 2 || opcode == 8 || opcode == 9 || opcode == 10

-- `opcode in CONTROL_OPCODES`
abbrev pub is_control : ℕ → Bool
is_control opcode = opcode == 8 || opcode == 9 || opcode == 10

-- The opcode, the mask bit and the length indicator.
pub record Head : Type 0 where
  pub opcode : ℕ
  pub masked : Bool
  pub indicator : ℕ

pub record Frame : Type 0 where
  pub opcode : ℕ
  pub payload : Bytes

-- `_validate_header`, of two bytes: `& 0x80`, `& 0x70`, `& 0x0F` and `& 0x7F` are the quotients and the
-- remainders by powers of two.
unfoldable pub validate_header : ℕ → ℕ → Bool → Result Head
validate_header first second require_masked = do
  require (first / 128 % 2 == 1) frame_error
  require (first / 16 % 8 == 0) frame_error
  require (is_opcode (first % 16)) frame_error
  require (not (require_masked && not (second / 128 % 2 == 1))) frame_error
  ok (record { opcode = first % 16; masked = second / 128 % 2 == 1; indicator = second % 128 })

-- A reader takes bytes from the front of the stream.
abbrev pub Reader : Type 0
Reader = ℕ → Bytes → Result (Bytes × Bytes)

-- `read` of `decode_frame`.
pub read : Reader
read size stream = do
  require (length (take size stream) == size) frame_error
  ok (take size stream, drop size stream)

-- asyncio's `readexactly`, on a stream that ends after these bytes.
pub readexactly : Reader
readexactly size stream =
    if leb size (length stream)
    then ok (take size stream, drop size stream)
    else err incomplete_read

-- `_payload_length`
pub payload_length : ℕ → Bytes → Result (ℕ × Bytes)
payload_length indicator stream =
    if ltb indicator 126
    then ok (indicator, stream)
    else if indicator == 126
    then (read 2 stream >>= λ r. ok (be_value r.0, r.1))
    else (read 8 stream >>= λ r. ok (be_value r.0, r.1))

pub validate_length : ℕ → ℕ → Result (Unit {0})
validate_length opcode size = do
  require (not (is_control opcode && ltb 125 size)) frame_error
  require (not (ltb max_text_bytes size)) frame_error

-- `payload[index] ^= mask[index % 4]`, from an index on.
pub apply_mask : Bytes → ℕ → Bytes → Bytes
apply_mask mask index [] = []
apply_mask mask index (b ∷ bs) = xor 8 b (byte_at (index % 4) mask) ∷ apply_mask mask (index + 1) bs

abbrev pub unmask : Option Bytes → Bytes → Bytes
unmask none payload = payload
unmask (some mask) payload = apply_mask mask 0 payload

-- `read(4) if masked else None`
pub read_mask : Bool → Bytes → Result (Option Bytes × Bytes)
read_mask masked stream =
    if masked then (read 4 stream >>= λ r. ok (some r.0, r.1)) else ok (none, stream)

pub decode_frame : Bytes → Bool → Result (Frame × Bytes)
decode_frame stream require_masked = do
  start ← read 2 stream
  head ← validate_header (byte_at 0 start.0) (byte_at 1 start.0) require_masked
  size ← payload_length head.indicator start.1
  validate_length head.opcode size.0
  mask ← read_mask head.masked size.1
  body ← read size.0 mask.1
  ok (record { opcode = head.opcode; payload = unmask mask.0 body.0 }, body.1)

-- The length after the first byte, with the mask bit.
pub length_field : Bool → ℕ → Bytes
length_field masked size =
    if ltb size 126
    then ((if masked then 128 else 0) + size) ∷ []
    else if leb size 0xFFFF
    then ((if masked then 128 else 0) + 126) ∷ be 2 size
    else ((if masked then 128 else 0) + 127) ∷ be 8 size

-- `mask is None or len(mask) != 4`
abbrev pub require_mask : Option Bytes → Result Bytes
require_mask none = err frame_error
require_mask (some mask) = require (length mask == 4) frame_error >> ok mask

pub encode_frame : ℕ → Bytes → Bool → Option Bytes → Result Bytes
encode_frame opcode payload masked mask = do
  require (is_opcode opcode) frame_error
  validate_length opcode (length payload)
  if masked
      then (require_mask mask >>= λ key. ok (
          (128 + opcode) ∷ length_field masked (length payload) ++ key ++ apply_mask key 0 payload))
      else ok ((128 + opcode) ∷ length_field masked (length payload) ++ payload)

-- The length as `read_frame` reads it.
pub length_exactly : ℕ → Bytes → Result (ℕ × Bytes)
length_exactly indicator stream =
    if ltb indicator 126
    then ok (indicator, stream)
    else if indicator == 126
    then (readexactly 2 stream >>= λ r. ok (be_value r.0, r.1))
    else (readexactly 8 stream >>= λ r. ok (be_value r.0, r.1))

pub mask_exactly : Bool → Bytes → Result (Option Bytes × Bytes)
mask_exactly masked stream =
    if masked then (readexactly 4 stream >>= λ r. ok (some r.0, r.1)) else ok (none, stream)

pub read_frame : Bytes → Bool → Result (Frame × Bytes)
read_frame stream require_masked = do
  start ← readexactly 2 stream
  head ← validate_header (byte_at 0 start.0) (byte_at 1 start.0) require_masked
  size ← length_exactly head.indicator start.1
  validate_length head.opcode size.0
  mask ← mask_exactly head.masked size.1
  body ← readexactly size.0 mask.1
  ok (record { opcode = head.opcode; payload = unmask mask.0 body.0 }, body.1)

-- What is written, after what was written before; there is no mask to give.
pub write_frame : Bytes → ℕ → Bytes → Bool → Result Bytes
write_frame written opcode payload masked = do
  raw ← encode_frame opcode payload masked none
  ok (written ++ raw)
