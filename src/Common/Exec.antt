-- ===== src/Common/Exec.antt =====
-- Methods that change an object and may raise: the state comes back beside the result, also beside
-- an error, since what was written before a raise stays written.
use mathlib.Core.Bool.{Bool, true, false}
use mathlib.Core.Option.{Option, none, some}
use mathlib.Core.Path.{◌≡◌, refl, ap}
use hil_simulation.Common.Result.{Code, Result, ok, err}

abbrev pub Exec : Type 0 → Type 0 → Type 0
Exec S A = S → Result A × S

module _ {S A B : Type 0} where
  abbrev pub continue : (A → Exec S B) → Result A → Exec S B
  continue f (ok a) s = f a s
  continue f (err code) s = (err code, s)

  infixl 5 ◌>>=◌ ◌>>◌
  abbrev pub ◌>>=◌ : Exec S A → (A → Exec S B) → Exec S B
  ◌>>=◌ m f s = continue f (m s).0 (m s).1

  abbrev pub ◌>>◌ : Exec S A → Exec S B → Exec S B
  m >> n = m >>= λ _. n

module _ {S A : Type 0} where
  abbrev pub pure : A → Exec S A
  pure a s = (ok a, s)

  abbrev pub raise : Code → Exec S A
  raise code s = (err code, s)

  abbrev pub lift : Result A → Exec S A
  lift r s = (r, s)

  abbrev pub gets : (S → A) → Exec S A
  gets f s = (ok (f s), s)

  -- The value of an option, or a raise.
  abbrev pub some_or : Code → Option A → Exec S A
  some_or code none s = (err code, s)
  some_or code (some a) s = (ok a, s)

module _ {S : Type 0} where
  abbrev pub modify : (S → S) → Exec S (Unit {0})
  modify f s = (ok tt, f s)

  -- `if not test: raise ICDError(code)`
  abbrev pub check : Bool → Code → Exec S (Unit {0})
  check true code s = (ok tt, s)
  check false code s = (err code, s)

-- A property of the state that an action keeps, whether it returns or raises.
abbrev pub Keeps : {S A : Type 0} → (S → Type 0) → Exec S A → Type 0
Keeps {S} P m = (s : S) → P s → P (m s).1

module _ {S A B : Type 0} (P : S → Type 0) where
  continue-Keeps :
      (next : A → Exec S B)
      → ((a : A) → Keeps P (next a))
      → (r : Result A) (s : S) → P s
      → P (continue next r s).1
  continue-Keeps next kept (ok a) s holds = kept a s holds
  continue-Keeps next kept (err code) s holds = holds

  pub Keeps-bind :
      (first : Exec S A) (next : A → Exec S B)
      → Keeps P first
      → ((a : A) → Keeps P (next a))
      → Keeps P (first >>= next)
  Keeps-bind first next first_keeps kept s holds =
      continue-Keeps next kept (first s).0 (first s).1 (first_keeps s holds)

module _ {S A : Type 0} (P : S → Type 0) where
  pub Keeps-check :
      (b : Bool) (code : Code) (m : Exec S A) → Keeps P m → Keeps P (check b code >> m)
  Keeps-check true code m km s h = km s h
  Keeps-check false code m km s h = h

  pub Keeps-some_or : (code : Code) (o : Option A) → Keeps P (some_or code o)
  Keeps-some_or code none s h = h
  Keeps-some_or code (some a) s h = h

-- A call that returned: its first part returned, and the rest returned from there.
module _ {S A B : Type 0} where
  pub bind-eq-ok :
      (m : Exec S A) (f : A → Exec S B) (s : S) {b : B}
      → ((m >>= f) s).0 ≡ ok b
      → (a : A) × ((m s).0 ≡ ok a) × ((f a (m s).1).0 ≡ ok b) × (((m >>= f) s).1 ≡ (f a (m s).1).1)
  bind-eq-ok m f s {b} h = go (m s).0 (m s).1 refl h
    where
      go :
          (r : Result A) (s' : S)
          → (m s).0 ≡ r
          → (continue f r s').0 ≡ ok b
          → (a : A) × (r ≡ ok a) × ((f a s').0 ≡ ok b) × ((continue f r s').1 ≡ (f a s').1)
      go (ok a) s' e h = (a, refl, h, refl)
      go (err code) s' e h = cc

  -- The rest of a block, once its first part has returned.
  pub after-ok :
      (m : Exec S A) (f : A → Exec S B) (s : S) {a : A} → (m s).0 ≡ ok a → (m >>= f) s ≡ f a (m s).1
  after-ok m f s h = ap (λ r. continue f r (m s).1) h

-- A check does not change the state.
pub check_fixed : {S : Type 0} (b : Bool) (code : Code) (s : S) → (check b code s).1 ≡ s
check_fixed true code s = refl
check_fixed false code s = refl

-- A property that a guard or a first part establishes for the rest.
module _ {S A : Type 0} (Q : S → Type 0) where
  pub check-cases :
      (b : Bool) (code : Code) (m : Exec S A) (s : S)
      → (b ≡ true → Q (m s).1)
      → Q s
      → Q ((check b code >> m) s).1
  check-cases true code m s passed failed = passed refl
  check-cases false code m s passed failed = failed

  pub through :
      {B : Type 0} (P : S → Type 0) (first : Exec S B) (next : B → Exec S A)
      → Keeps P first
      → ((s : S) → P s → Q s)
      → ((b : B) (s : S) → P s → Q (next b s).1)
      → (s : S) → P s
      → Q ((first >>= next) s).1
  through P first next kept weaken rest s h = go (first s).0 (first s).1 (kept s h)
    where
      go : (r : Result _) (t : S) → P t → Q (continue next r t).1
      go (ok b) t p = rest b t p
      go (err code) t p = weaken t p

-- The rest of a block knows the option whose value it is given.
pub some_or-cases :
    {S A B : Type 0} (Q : S → Type 0) (code : Code) (o : Option A) (next : A → Exec S B) (s : S)
    → Q s
    → ((a : A) → o ≡ some a → Q (next a s).1)
    → Q ((some_or code o >>= next) s).1
some_or-cases Q code none next s missing found = missing
some_or-cases Q code (some a) next s missing found = found a refl
