-- ===== src/Common/Dict/Laws.antt =====
-- The laws of Python's dict, and what the dict's operations do to a sum over its entries.
use mathlib.Core.List.{[], ◌∷◌}
use mathlib.Core.Option.{Option, none, some}
use mathlib.Core.Bool.{Bool, true, false}
use mathlib.Core.Path.{◌≡◌, refl}
use Prim.Native.Nat.{ℕ, suc, ◌+◌, ◌≤◌}
use native.Mathlib.Omega.{arith}
use hil_simulation.Common.Lists.{length}
use hil_simulation.Common.Dict.{Dict, lookup, insert, remove, keep, total}

module _ {ℓ κ} {K : Type ℓ} {V : Type κ} (dec : Discrete K) where
  pub lookup-insert :
      (k j : K) (v : V) (d : Dict K V)
      → lookup dec j (insert dec k v d) ≡ elim (dec k j) [ yes _ ↦ some v | no _ ↦ lookup dec j d ]
  unfolding lookup insert
  lookup-insert k j v [] = ground arith
  lookup-insert k j v ((i, w) ∷ d) = ground (arith, lookup-insert k j v d)

  pub lookup-remove :
      (k j : K) (d : Dict K V)
      → lookup dec j (remove dec k d) ≡ elim (dec k j) [ yes _ ↦ none | no _ ↦ lookup dec j d ]
  unfolding lookup remove
  lookup-remove k j [] = ground arith
  lookup-remove k j ((i, w) ∷ d) = ground (arith, lookup-remove k j d)

  -- No key stands twice.
  abbrev pub Distinct : Dict K V → Type κ
  Distinct [] = Unit
  Distinct ((k, v) ∷ d) = (lookup dec k d ≡ none) × Distinct d

  pub insert-Distinct : (k : K) (v : V) (d : Dict K V) → Distinct d → Distinct (insert dec k v d)
  unfolding insert lookup
  insert-Distinct k v [] h = ground arith
  insert-Distinct k v ((i, w) ∷ d) h =
      ground (arith, insert-Distinct k v d h.1, lookup-insert k i v d)

  pub remove-Distinct : (k : K) (d : Dict K V) → Distinct d → Distinct (remove dec k d)
  unfolding remove
  remove-Distinct k [] h = tt
  remove-Distinct k ((i, w) ∷ d) h = ground (arith, remove-Distinct k d h.1, lookup-remove k i d)

  pub remove_absent : (k : K) (d : Dict K V) → lookup dec k d ≡ none → remove dec k d ≡ d
  unfolding remove lookup
  remove_absent k [] h = refl
  remove_absent k ((i, w) ∷ d) h = ground (arith, remove_absent k d)

  module _ (f : V → ℕ) where
    pub total-insert_new :
        (k : K) (v : V) (d : Dict K V)
        → lookup dec k d ≡ none
        → total f (insert dec k v d) ≡ total f d + f v
    unfolding total insert lookup
    total-insert_new k v [] h = omega arith
    total-insert_new k v ((i, w) ∷ d) h = ground (arith, total-insert_new k v d)

    pub total-remove :
        (k : K) (v : V) (d : Dict K V)
        → Distinct d
        → lookup dec k d ≡ some v
        → total f (remove dec k d) + f v ≡ total f d
    unfolding total remove lookup
    total-remove k v [] u h = cc
    total-remove k v ((i, w) ∷ d) u h =
        ground (arith, total-remove k v d u.1, remove_absent i d u.0)

    pub total-remove-le : (k : K) (d : Dict K V) → total f (remove dec k d) ≤ total f d
    unfolding total remove
    total-remove-le k [] = omega arith
    total-remove-le k ((i, w) ∷ d) = ground (arith, total-remove-le k d)

    -- A key that is there takes its entry along.
    pub total-remove_found :
        (k : K) (v : V) (d : Dict K V)
        → lookup dec k d ≡ some v
        → total f (remove dec k d) + f v ≤ total f d
    unfolding total remove lookup
    total-remove_found k v [] h = cc
    total-remove_found k v ((i, w) ∷ d) h =
        ground (arith, total-remove_found k v d, total-remove-le k d)

    pub total-insert_old :
        (k : K) (v w : V) (d : Dict K V)
        → lookup dec k d ≡ some w
        → total f (insert dec k v d) + f w ≡ total f d + f v
    unfolding total insert lookup
    total-insert_old k v w [] h = cc
    total-insert_old k v w ((i, x) ∷ d) h = ground (arith, total-insert_old k v w d)

  pub length-insert_new :
      (k : K) (v : V) (d : Dict K V)
      → lookup dec k d ≡ none
      → length (insert dec k v d) ≡ suc (length d)
  unfolding insert lookup
  length-insert_new k v [] h = refl
  length-insert_new k v ((i, w) ∷ d) h = ground (arith, length-insert_new k v d)

  pub length-insert_old :
      (k : K) (v w : V) (d : Dict K V)
      → lookup dec k d ≡ some w
      → length (insert dec k v d) ≡ length d
  unfolding insert lookup
  length-insert_old k v w [] h = cc
  length-insert_old k v w ((i, x) ∷ d) h = ground (arith, length-insert_old k v w d)

  pub length-remove-le : (k : K) (d : Dict K V) → length (remove dec k d) ≤ length d
  unfolding remove
  length-remove-le k [] = omega arith
  length-remove-le k ((i, w) ∷ d) = ground (arith, length-remove-le k d)

  module _ (p : K → V → Bool) where
    -- What `keep` leaves of a key.
    abbrev pub kept : K → Option V → Option V
    kept k none = none
    kept k (some v) = elim (p k v) [ true ↦ some v | false ↦ none ]

    lookup-keep_absent :
        (k : K) (d : Dict K V) → lookup dec k d ≡ none → lookup dec k (keep p d) ≡ none
    unfolding lookup keep
    lookup-keep_absent k [] h = refl
    lookup-keep_absent k ((i, w) ∷ d) h = ground (arith, lookup-keep_absent k d)

    pub lookup-keep :
        (k : K) (d : Dict K V) → Distinct d → lookup dec k (keep p d) ≡ kept k (lookup dec k d)
    unfolding lookup keep
    lookup-keep k [] u = refl
    lookup-keep k ((i, w) ∷ d) u = ground (arith, lookup-keep k d u.1, lookup-keep_absent i d u.0)

    pub keep-Distinct : (d : Dict K V) → Distinct d → Distinct (keep p d)
    unfolding keep
    keep-Distinct [] u = tt
    keep-Distinct ((i, w) ∷ d) u = ground (arith, keep-Distinct d u.1, lookup-keep_absent i d u.0)

    pub total-keep-le : (f : V → ℕ) (d : Dict K V) → total f (keep p d) ≤ total f d
    unfolding total keep
    total-keep-le f [] = omega arith
    total-keep-le f ((i, w) ∷ d) = ground (arith, total-keep-le f d)

    pub length-keep-le : (d : Dict K V) → length (keep p d) ≤ length d
    unfolding keep
    length-keep-le [] = omega arith
    length-keep-le ((i, w) ∷ d) = ground (arith, length-keep-le d)
