-- ===== src/Services/WsFraming/Tests.antt =====
-- python_services/shared/ws_framing.py: a masked text frame and an unmasked one.
use hil_simulation.Common.{◌≡◌, refl, true, false, none, some, [], ◌∷◌, ◌++◌, arith, Option}
use hil_simulation.Common.Bytes.{Bytes}
use hil_simulation.Common.Result.{ok, err, frame_error}
use hil_simulation.Services.WsFraming.{
  Frame, decode_frame, encode_frame, read_frame, write_frame, validate_length, apply_mask,
  length_field, read, validate_header, payload_length, read_mask,
}
use hil_simulation.Services.WsFraming.RoundTrip.{decode_frame-encode_frame}
use hil_simulation.Services.WsFraming.Readers.{
  outcome, Bounded, decode_frame-read_frame, decode_frame_bounds, read_frame-unmasked,
}

-- The masked "Hello" of RFC 6455.
abbrev hello : Bytes
hello = 0x48 ∷ 0x65 ∷ 0x6c ∷ 0x6c ∷ 0x6f ∷ []

abbrev key : Option Bytes
key = some (0x37 ∷ 0xfa ∷ 0x21 ∷ 0x3d ∷ [])

abbrev masked_hello : Bytes
masked_hello = 0x81 ∷ 0x85 ∷ 0x37 ∷ 0xfa ∷ 0x21 ∷ 0x3d ∷ 0x7f ∷ 0x9f ∷ 0x4d ∷ 0x51 ∷ 0x58 ∷ []

abbrev text : Frame
text = record { opcode = 1; payload = hello }

encodes_hello : encode_frame 1 hello true key ≡ ok masked_hello
unfolding encode_frame validate_length length_field apply_mask
encodes_hello = refl

decodes_hello : decode_frame masked_hello true ≡ ok (text, [])
unfolding decode_frame read validate_header payload_length validate_length read_mask apply_mask
decodes_hello = refl

-- There is no mask for a masked write.
masked_write : write_frame [] 1 hello true ≡ err frame_error
unfolding write_frame encode_frame validate_length
masked_write = refl

plain_hello : encode_frame 1 hello false none ≡ ok (0x81 ∷ 5 ∷ hello)
unfolding encode_frame validate_length length_field
plain_hello = refl

decode_frame-encode_frame_example :
    decode_frame (masked_hello ++ 0x81 ∷ []) true ≡ ok (text, 0x81 ∷ [])
decode_frame-encode_frame_example =
    decode_frame-encode_frame 1 hello (0x81 ∷ []) masked_hello true true key
      (omega arith, (omega arith, (omega arith, (omega arith, (omega arith, tt))))) refl
      encodes_hello

decode_frame-read_frame_example :
    outcome (decode_frame masked_hello true) ≡ outcome (read_frame masked_hello true)
decode_frame-read_frame_example = decode_frame-read_frame masked_hello true

decode_frame_bounds_example : Bounded text
decode_frame_bounds_example = decode_frame_bounds masked_hello [] true text decodes_hello

read_frame-unmasked_example : read_frame (0x81 ∷ 5 ∷ hello ++ []) true ≡ err frame_error
read_frame-unmasked_example = read_frame-unmasked 1 hello [] (0x81 ∷ 5 ∷ hello) none plain_hello
