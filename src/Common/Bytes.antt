-- ===== src/Common/Bytes.antt =====
-- Little-endian fields of a byte string, as Python's `struct` packs and reads them ("<B", "<H",
-- "<I", "<Q"); a byte is a number below 256.
use hil_simulation.Common.Lists.{length, take, drop}
use Prim.Native.Nat.{ℕ, zero, suc, ◌+◌, ◌*◌, ◌/◌, ◌%◌, ◌^◌, ◌<◌}
use mathlib.Core.Path.{◌≡◌, refl, ap}
use mathlib.Core.List.{List, [], ◌∷◌}
use native.Mathlib.Omega.{arith}
use native.Mathlib.Nat.{pow-suc}

abbrev pub Bytes : Type 0
Bytes = List ℕ

-- The `w` low bytes of a number, least significant first.
abbrev pub le : ℕ → ℕ → Bytes
le zero v = []
le (suc w) v = (v % 256) ∷ le w (v / 256)

abbrev pub le_value : Bytes → ℕ
le_value [] = 0
le_value (b ∷ bs) = b + 256 * le_value bs

-- unpack_from of one field of `w` bytes at an offset.
abbrev pub le_at : ℕ → ℕ → Bytes → ℕ
le_at offset w raw = le_value (take w (drop offset raw))

pub length-le : (w v : ℕ) → length (le w v) ≡ w
length-le zero v = refl
length-le (suc w) v = ap suc (length-le w (v / 256))

pub le_value-le : (w v : ℕ) → v < 256 ^ w → le_value (le w v) ≡ v
le_value-le zero v h = omega arith
le_value-le (suc w) v h =
    let h' : v < 256 ^ w * 256 = rw (pow-suc 256 w) at h in
    omega (arith, le_value-le w (v / 256) (omega arith))
