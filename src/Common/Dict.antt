-- ===== src/Common/Dict.antt =====
-- Python's dict: an association list in insertion order. A write to a key that is there keeps its
-- place; a new key goes to the end.
pub mod Laws
use mathlib.Core.List.{List, [], ◌∷◌, ◌++◌}
use mathlib.Core.Option.{Option, none, some}
use mathlib.Core.Bool.{Bool, true, false}
use Prim.Native.Nat.{ℕ, ◌+◌}

abbrev pub Dict {ℓ κ} : Type ℓ → Type κ → Type (ℓ ⊔ κ)
Dict K V = List (K × V)

module _ {ℓ κ} {K : Type ℓ} {V : Type κ} (dec : Discrete K) where
  -- d.get(k)
  unfoldable pub lookup : K → Dict K V → Option V
  lookup k [] = none
  lookup k ((j, v) ∷ d) = elim (dec k j) [ yes _ ↦ some v | no _ ↦ lookup k d ]

  -- d[k] = v
  unfoldable pub insert : K → V → Dict K V → Dict K V
  insert k v [] = (k, v) ∷ []
  insert k v ((j, w) ∷ d) = elim (dec k j) [ yes _ ↦ (j, v) ∷ d | no _ ↦ (j, w) ∷ insert k v d ]

  -- del d[k], d.pop(k, None)
  unfoldable pub remove : K → Dict K V → Dict K V
  remove k [] = []
  remove k ((j, v) ∷ d) = elim (dec k j) [ yes _ ↦ remove k d | no _ ↦ (j, v) ∷ remove k d ]

module _ {ℓ κ} {K : Type ℓ} {V : Type κ} where
  -- The entries that a test keeps, in their order.
  unfoldable pub keep : (K → V → Bool) → Dict K V → Dict K V
  keep p [] = []
  keep p ((k, v) ∷ d) = let rest = keep p d in elim (p k v) [ true ↦ (k, v) ∷ rest | false ↦ rest ]

  -- The sum of a number over the entries.
  unfoldable pub total : (V → ℕ) → Dict K V → ℕ
  total f [] = 0
  total f ((k, v) ∷ d) = f v + total f d
