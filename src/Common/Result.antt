-- ===== src/Common/Result.antt =====
-- A call that may raise `ICDError` (icd_runtime/errors.py): the frozen error vocabulary, and
-- `Result` with its monad.
use mathlib.Core.Path.{◌≡◌, refl}
use mathlib.Core.Logic.{◌≢◌, ◌⊎◌, inl, inr}
use mathlib.Core.Bool.{Bool, true, false}

-- The codes of `ICDError`; `struct_error` and `key_error` are Python's own
-- `struct.error` and `KeyError`, `incomplete_read` is asyncio's, and `frame_error` is ws_framing.py's.
pub data Code : Type 0 where
  schema unsupported authorization capacity fragment crc version buffer_full timeout : Code
  duplicate state stale_session model out_of_order target_missing range late : Code
  control_owner expired hash clock_unsync struct_error key_error frame_error incomplete_read : Code

pub data Result {ℓ} (A : Type ℓ) : Type ℓ where
  ok : A → Result A
  err : Code → Result A

-- What is done with the value of a call, unless the call raised.
module _ {ℓ κ} {A : Type ℓ} {B : Type κ} where
  infixl 5 ◌>>=◌
  abbrev pub ◌>>=◌ : Result A → (A → Result B) → Result B
  ok value >>= next = next value
  err code >>= next = err code

  pub >>=-eq-ok :
      (call : Result A) (next : A → Result B) {b : B}
      → (call >>= next) ≡ ok b
      → (value : A) × (call ≡ ok value) × (next value ≡ ok b)
  >>=-eq-ok (ok value) next done = (value, refl, done)
  >>=-eq-ok (err code) next done = cc

-- `if not test: raise ICDError(code)`
abbrev pub require : Bool → Code → Result (Unit {0})
require test code = elim test [ true ↦ ok tt | false ↦ err code ]

module _ {ℓ} {A : Type ℓ} where
  infixl 5 ◌>>◌
  abbrev pub ◌>>◌ : Result (Unit {0}) → Result A → Result A
  test >> rest = test >>= λ _. rest

  -- What a passed guard tells, and what is left of the block.
  pub require-eq-ok :
      (b : Bool) (code : Code) (rest : Result A) {a : A}
      → (require b code >> rest) ≡ ok a
      → (b ≡ true) × (rest ≡ ok a)
  require-eq-ok true code rest done = (refl, done)
  require-eq-ok false code rest done = cc

pub Result-cases {ℓ} :
    {A : Type ℓ} (r : Result A) → ((a : A) × (r ≡ ok a)) ⊎ ((e : Code) × (r ≡ err e))
Result-cases (ok a) = inl (a, refl)
Result-cases (err e) = inr (e, refl)

pub ok-injective {ℓ} : {A : Type ℓ} {a b : A} → ok a ≡ ok b → a ≡ b
ok-injective h = cc

pub err≢ok {ℓ} : {A : Type ℓ} {code : Code} {a : A} → err code ≢ ok a
err≢ok h = cc
