-- ===== src/Gateway/ModelQueue/Bounds.antt =====
-- icd_gateway/model_queue.py: the accounting of the stored bytes, and the capacity of the queue.
use hil_simulation.Common.{
  ℕ, ◌≤◌, ◌≡◌, ◌≢◌, subst, ◌&&◌, some, none, List, [], ◌∷◌, leb, ◌==◌, length, arith, All,
  Bool-cases, inl, inr,
}
use hil_simulation.Common.Dict.{Dict, lookup, remove, total}
use hil_simulation.Common.Dict.Laws.{
  Distinct, lookup-remove, remove-Distinct, total-remove, length-remove-le,
}
use hil_simulation.Gateway.Registry.State.{Pair-discrete}
use hil_simulation.Gateway.ModelQueue.State.{
  Pending, Queue, stored, drop_pending, of_session, drop_all_pending, discard_session, values_of,
}
use hil_simulation.Gateway.ModelQueue.{Deployment, discard_all, take_due}

abbrev pub Entries : Type 0
Entries = Dict (ℕ × ℕ) Pending

-- Every entry stands under its own key.
abbrev pub Keyed : Entries → Type 0
Keyed [] = Unit
Keyed ((key, p) ∷ rest) = (key ≡ p.key) × Keyed rest

-- Each key has one entry, which is under its own key; the stored bytes are the sum over the entries, and
-- there are at most `capacity` entries.
pub record IsValid (capacity : ℕ) (q : Queue) : Type 0 where
  pub distinct : Distinct Pair-discrete q.pending
  pub keyed : Keyed q.pending
  pub counted : q.stored_bytes ≡ total stored q.pending
  pub bounded : length q.pending ≤ capacity

abbrev Present : Entries → List Pending → Type 0
Present d ps = All (λ p. lookup Pair-discrete p.key d ≡ some p) ps

-- No two of the entries have the same key.
abbrev Apart : List Pending → Type 0
Apart [] = Unit
Apart (p ∷ ps) = All (λ other. other.key ≢ p.key) ps × Apart ps

Present-more :
    (key : ℕ × ℕ) (x : Pending) (d : Entries) (ps : List Pending)
    → lookup Pair-discrete key d ≡ none
    → Present d ps
    → Present ((key, x) ∷ d) ps
unfolding lookup
Present-more key x d [] absent h = tt
Present-more key x d (p ∷ ps) absent h =
    (ground (arith, absent, h.0), Present-more key x d ps absent h.1)

Present-other :
    (key : ℕ × ℕ) (d : Entries) (ps : List Pending)
    → lookup Pair-discrete key d ≡ none
    → Present d ps
    → All (λ other. other.key ≢ key) ps
Present-other key d [] absent h = tt
Present-other key d (p ∷ ps) absent h = (
  λ same. let found = subst (λ k. lookup Pair-discrete k d ≡ some p) same h.0 in cc,
  Present-other key d ps absent h.1,
)

remove-Keyed : (key : ℕ × ℕ) (d : Entries) → Keyed d → Keyed (remove Pair-discrete key d)
unfolding remove
remove-Keyed key [] h = tt
remove-Keyed key ((k, p) ∷ rest) h = ground (arith, remove-Keyed key rest h.1)

Present-remove :
    (key : ℕ × ℕ) (d : Entries) (ps : List Pending)
    → All (λ other. other.key ≢ key) ps
    → Present d ps
    → Present (remove Pair-discrete key d) ps
Present-remove key d [] others h = tt
Present-remove key d (p ∷ ps) others h = (
  ground (arith, lookup-remove Pair-discrete key p.key d, others.0, h.0),
  Present-remove key d ps others.1 h.1,
)

values-Present : (d : Entries) → Distinct Pair-discrete d → Keyed d → Present d (values_of d)
unfolding lookup
values-Present [] u h = tt
values-Present ((key, p) ∷ rest) u h = (
  ground (arith, h.0),
  Present-more key p rest (values_of rest) u.0 (values-Present rest u.1 h.1),
)

values-Apart : (d : Entries) → Distinct Pair-discrete d → Keyed d → Apart (values_of d)
values-Apart [] u h = tt
values-Apart ((key, p) ∷ rest) u h = (
  subst (λ k. All (λ other. other.key ≢ k) (values_of rest)) h.0
      (Present-other key rest (values_of rest) u.0 (values-Present rest u.1 h.1)),
  values-Apart rest u.1 h.1,
)

drop_pending-IsValid :
    (capacity : ℕ) (p : Pending) {q : Queue}
    → lookup Pair-discrete p.key q.pending ≡ some p
    → IsValid capacity q
    → IsValid capacity (drop_pending p q)
unfolding drop_pending
drop_pending-IsValid capacity p {q} there v = record {
  distinct = remove-Distinct Pair-discrete p.key q.pending v.distinct;
  keyed = remove-Keyed p.key q.pending v.keyed;
  counted =
      omega
        (arith, v.counted, total-remove Pair-discrete stored p.key p q.pending v.distinct there);
  bounded = omega (arith, v.bounded, length-remove-le Pair-discrete p.key q.pending);
}

Present-drop :
    (p : Pending) (q : Queue) (ps : List Pending)
    → All (λ other. other.key ≢ p.key) ps
    → Present q.pending ps
    → Present (drop_pending p q).pending ps
unfolding drop_pending
Present-drop p q ps others h = Present-remove p.key q.pending ps others h

module _ (d : Deployment) (capacity model_id step now : ℕ) where
  -- The loop of `begin_step` over entries that are there, each once, keeps `IsValid`.
  take_due-IsValid :
      (ps : List Pending) {q : Queue}
      → Apart ps
      → Present q.pending ps
      → IsValid capacity q
      → IsValid capacity (take_due d model_id step now ps q).1
  unfolding take_due
  take_due-IsValid [] apart present v = v
  take_due-IsValid (p ∷ ps) {q} apart present v =
      elim (Bool-cases (p.model_id == model_id && leb p.target_step step)) [
        | inl due ↦ rw due (
            take_due-IsValid ps apart.1 (Present-drop p q ps apart.0 present.1)
              (drop_pending-IsValid capacity p present.0 v))
        | inr early ↦ rw early (take_due-IsValid ps apart.1 present.1 v)
      ]

  -- The boundary of a model's step, from a queue whose accounting holds, keeps it: each key has one
  -- entry, which is under its own key, the stored bytes are the sum over the entries, and there are at
  -- most `capacity` entries.
  pub boundary-IsValid :
      {q : Queue}
      → IsValid capacity q
      → IsValid capacity (take_due d model_id step now (values_of q.pending) q).1
  boundary-IsValid {q} v =
      take_due-IsValid (values_of q.pending) (values-Apart q.pending v.distinct v.keyed)
        (values-Present q.pending v.distinct v.keyed) v

of_session-Present :
    (sid : ℕ) (d : Entries) → Distinct Pair-discrete d → Keyed d → Present d (of_session sid d)
unfolding of_session lookup
of_session-Present sid [] u h = tt
of_session-Present sid ((key, p) ∷ rest) u h =
    let more =
      Present-more key p rest (of_session sid rest) u.0 (of_session-Present sid rest u.1 h.1) in
    elim (Bool-cases (p.key.0 == sid)) [
      | inl mine ↦ rw mine (ground (arith, h.0), more)
      | inr other ↦ rw other more
    ]

of_session-Apart :
    (sid : ℕ) (d : Entries) → Distinct Pair-discrete d → Keyed d → Apart (of_session sid d)
unfolding of_session
of_session-Apart sid [] u h = tt
of_session-Apart sid ((key, p) ∷ rest) u h =
    let others =
      Present-other key rest (of_session sid rest) u.0 (of_session-Present sid rest u.1 h.1) in
    let apart = of_session-Apart sid rest u.1 h.1 in
    elim (Bool-cases (p.key.0 == sid)) [
      | inl mine ↦
          rw mine
            (subst (λ k. All (λ other. other.key ≢ k) (of_session sid rest)) h.0 others, apart)
      | inr other ↦ rw other apart
    ]

drop_all_pending-IsValid :
    (capacity : ℕ) (ps : List Pending) {q : Queue}
    → Apart ps
    → Present q.pending ps
    → IsValid capacity q
    → IsValid capacity (drop_all_pending ps q)
unfolding drop_all_pending
drop_all_pending-IsValid capacity [] apart present v = v
drop_all_pending-IsValid capacity (p ∷ ps) {q} apart present v =
    drop_all_pending-IsValid capacity ps apart.1 (Present-drop p q ps apart.0 present.1)
      (drop_pending-IsValid capacity p present.0 v)

discard_session-IsValid_lem :
    (capacity sid : ℕ) {q : Queue} → IsValid capacity q → IsValid capacity (discard_session sid q).1
unfolding discard_session
discard_session-IsValid_lem capacity sid {q} v =
    let w =
      drop_all_pending-IsValid capacity (of_session sid q.pending)
        (of_session-Apart sid q.pending v.distinct v.keyed)
        (of_session-Present sid q.pending v.distinct v.keyed) v in
    record { distinct = w.distinct; keyed = w.keyed; counted = w.counted; bounded = w.bounded }

-- The discards of `expire`, of any sessions, keep the accounting: each key has one entry, which is under
-- its own key, the stored bytes are the sum over the entries, and there are at most `capacity` entries.
pub discard_all-IsValid :
    (capacity : ℕ) (sids : List ℕ) {q : Queue}
    → IsValid capacity q
    → IsValid capacity (discard_all sids q).1
unfolding discard_all
discard_all-IsValid capacity [] v = v
discard_all-IsValid capacity (sid ∷ sids) v =
    discard_all-IsValid capacity sids (discard_session-IsValid_lem capacity sid v)
