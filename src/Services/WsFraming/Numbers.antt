-- ===== src/Services/WsFraming/Numbers.antt =====
-- python_services/shared/ws_framing.py: big-endian numbers and the exclusive or of bytes.
use hil_simulation.Common.{
  ℕ, zero, suc, ◌+◌, ◌*◌, ◌/◌, ◌%◌, ◌^◌, ◌<◌, ◌≡◌, refl, ap, ◌∙◌, [], ◌∷◌, ◌++◌, length,
  length-append, get_elem?, some, none, arith,
}
use hil_simulation.Common.Bytes.{Bytes}
use native.Mathlib.Nat.{pow-suc}

-- struct's ">H" and ">Q", with their width in bytes.
abbrev pub be : ℕ → ℕ → Bytes
be zero v = []
be (suc w) v = be w (v / 256) ++ (v % 256) ∷ []

abbrev be_from : ℕ → Bytes → ℕ
be_from acc [] = acc
be_from acc (b ∷ bs) = be_from (256 * acc + b) bs

abbrev pub be_value : Bytes → ℕ
be_value bs = be_from 0 bs

-- `^` on numbers of `w` bits.
abbrev pub xor : ℕ → ℕ → ℕ → ℕ
xor zero a b = 0
xor (suc w) a b = (a % 2 + b % 2) % 2 + 2 * xor w (a / 2) (b / 2)

-- `bytes[index]`, of an index that is in range.
abbrev pub byte_at : ℕ → Bytes → ℕ
byte_at index bs = elim (get_elem? bs index) [ none ↦ 0 | some b ↦ b ]

pub length-be : (w v : ℕ) → length (be w v) ≡ w
length-be zero v = omega arith
length-be (suc w) v =
    omega (arith, length-append (be w (v / 256)) (v % 256 ∷ []), length-be w (v / 256))

be_from-snoc :
    (acc : ℕ) (bs : Bytes) (b : ℕ) → be_from acc (bs ++ b ∷ []) ≡ 256 * be_from acc bs + b
be_from-snoc acc [] b = refl
be_from-snoc acc (c ∷ cs) b = be_from-snoc (256 * acc + c) cs b

pub be_value-be : (w v : ℕ) → v < 256 ^ w → be_value (be w v) ≡ v
be_value-be zero v h = omega arith
be_value-be (suc w) v h =
    let h' : v < 256 ^ w * 256 = rw (pow-suc 256 w) at h in
    omega (arith, be_value-be w (v / 256) (omega arith), be_from-snoc 0 (be w (v / 256)) (v % 256))

-- The exclusive or undoes itself on numbers of `w` bits.
pub xor-xor : (w a b : ℕ) → a < 2 ^ w → xor w (xor w a b) b ≡ a
xor-xor zero a b h = omega arith
xor-xor (suc w) a b h =
    let h' : a < 2 ^ w * 2 = rw (pow-suc 2 w) at h in
    let bit = (a % 2 + b % 2) % 2 in
    let rest = xor w (a / 2) (b / 2) in
    let half : (bit + 2 * rest) / 2 ≡ rest = omega arith in
    let ih : xor w ((bit + 2 * rest) / 2) (b / 2) ≡ a / 2 =
      ap (λ x. xor w x (b / 2)) half ∙ xor-xor w (a / 2) (b / 2) (omega arith) in
    omega (arith, ih)
