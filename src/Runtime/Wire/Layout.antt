-- ===== src/Runtime/Wire/Layout.antt =====
-- icd_runtime/wire.py: the byte layouts `CAN_HEADER` and `UDP_HEADER`, and the checksums.
use hil_simulation.Common.{ℕ, ◌^◌, ◌%◌, Bool, true, false, ◌&&◌, [], ◌∷◌, ◌++◌, ltb, ◌==◌}
use hil_simulation.Common.Bytes.{Bytes, le}
use hil_simulation.Runtime.Contract.{Header}

-- `binascii.crc_hqx(raw, 0xffff)` and `binascii.crc32(raw)`, which are not part of the program.
pub record Checksums : Type 0 where
  pub crc_hqx : Bytes → ℕ
  pub binascii_crc32 : Bytes → ℕ

module _ (k : Checksums) where
  abbrev pub crc16 : Bytes → ℕ
  crc16 raw = k.crc_hqx raw

  -- `& 0xffffffff`
  abbrev pub crc32 : Bytes → ℕ
  crc32 raw = k.binascii_crc32 raw % 2 ^ 32

-- The ranges that `struct.pack` checks of a field of `w` bytes.
abbrev pub fits : ℕ → ℕ → Bool
fits w v = ltb v (256 ^ w)

abbrev pub header_fits : Header → Bool
header_fits h =
    fits 4 h.session_id
    && fits 4 h.sequence
    && fits 4 h.target_step
    && fits 4 h.transaction_id
    && fits 2 h.valid_for_ms

-- "<BBBBIIIIBBH"
abbrev pub can_header : ℕ → ℕ → ℕ → ℕ → Header → ℕ → ℕ → Bytes
can_header major minor flags len h index count =
    le 1 major
    ++ (le 1 minor
        ++ (le 1 flags
            ++ (le 1 len
                ++ (le 4 h.session_id
                    ++ (le 4 h.sequence
                        ++ (le 4 h.target_step
                            ++ (le 4 h.transaction_id
                                ++ (le 1 index ++ (le 1 count ++ le 2 h.valid_for_ms)))))))))

-- b"HIL1"
abbrev pub magic : Bytes
magic = b'H' ∷ b'I' ∷ b'L' ∷ b'1' ∷ []

-- "<4sBBHIIIIHHHHHH"
abbrev pub udp_header : Header → ℕ → ℕ → ℕ → ℕ → Bytes
udp_header h index count len mid =
    magic
    ++ (le 1 1
        ++ (le 1 0
            ++ (le 2 0
                ++ (le 4 h.session_id
                    ++ (le 4 h.sequence
                        ++ (le 4 h.target_step
                            ++ (le 4 h.transaction_id
                                ++ (le 2 index
                                    ++ (le 2 count
                                        ++ (le 2 len
                                            ++ (le 2 h.valid_for_ms
                                                ++ (le 2 mid ++ le 2 0))))))))))))

abbrev pub all_zero : Bytes → Bool
all_zero [] = true
all_zero (b ∷ bs) = b == 0 && all_zero bs

abbrev pub bytes_eq : Bytes → Bytes → Bool
bytes_eq [] [] = true
bytes_eq (x ∷ xs) (y ∷ ys) = x == y && bytes_eq xs ys
bytes_eq _ _ = false
