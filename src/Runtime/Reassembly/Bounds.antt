-- ===== src/Runtime/Reassembly/Bounds.antt =====
-- icd_runtime/reassembly.py: the memory bounds, which `expire` and `discard_session` keep.
use hil_simulation.Common.{
  ℕ, ◌≤◌, ◌≡◌, refl, not, List, [], ◌∷◌, leb, ltb, ◌==◌, length, arith, Option-cases, inl, inr,
  Bool-cases,
}
use hil_simulation.Common.Dict.{Dict, lookup, keep, total}
use hil_simulation.Common.Dict.Laws.{Distinct, remove-Distinct, total-remove, length-keep-le}
use hil_simulation.Common.Result.{Code, ok, require-eq-ok, timeout}
use hil_simulation.Runtime.Reassembly.Fragment.{Key, Key-discrete, session_of}
use hil_simulation.Runtime.Reassembly.State.{
  Policy, Group, Reassembler, evict, remember, drop_group, clock, expire_groups, expire,
  drop_session, discard_session, initial,
}

-- The reserved bytes are those of the groups, which are within the limit, and the terminal cache is
-- within its size.
pub record IsValid (p : Policy) (s : Reassembler) : Type 0 where
  pub distinct : Distinct Key-discrete s.groups
  pub counted : s.reserved ≡ total (λ (g : Group). g.reserved) s.groups
  pub bounded : s.reserved ≤ p.total_limit
  pub cached : length s.terminal ≤ p.duplicate_cache_messages

length-evict {ℓ} : {A : Type ℓ} (limit : ℕ) (xs : List A) → length (evict limit xs) ≤ limit
unfolding evict
length-evict limit [] = omega arith
length-evict limit (x ∷ xs) = ground (arith, length-evict limit xs)

module _ (p : Policy) where
  pub initial-IsValid : IsValid p initial
  unfolding initial total
  initial-IsValid = record {
    distinct = tt;
    counted = refl;
    bounded = omega arith;
    cached = omega arith;
  }

  pub remember-IsValid :
      (key : Key) (code : Code) (now : ℕ) {s : Reassembler}
      → IsValid p s
      → IsValid p (remember p key code now s)
  unfolding remember
  remember-IsValid key code now v = record {
    distinct = v.distinct;
    counted = v.counted;
    bounded = v.bounded;
    cached = length-evict p.duplicate_cache_messages _;
  }

  pub drop_group-IsValid :
      (key : Key) {s : Reassembler} → IsValid p s → IsValid p (drop_group key s)
  unfolding drop_group
  drop_group-IsValid key {s} v = elim (Option-cases (lookup Key-discrete key s.groups)) [
    | inl absent ↦ rw (absent, drop_group) v
    | inr (group, found) ↦
        let sum =
          total-remove Key-discrete (λ (g : Group). g.reserved) key group s.groups v.distinct
            found in
        rw (found, drop_group)
          (record {
            distinct = remove-Distinct Key-discrete key s.groups v.distinct;
            counted = omega (arith, v.counted, sum);
            bounded = omega (arith, v.bounded);
            cached = v.cached;
          })
  ]

  module _ (now : ℕ) where
    pub expire_groups-IsValid :
        (rest : Dict Key Group) {s : Reassembler}
        → IsValid p s
        → IsValid p (expire_groups p now rest s).1
    unfolding expire_groups
    expire_groups-IsValid [] v = v
    expire_groups-IsValid ((key, group) ∷ rest) {s} v =
        elim (Bool-cases (leb group.deadline_ns now)) [
          | inl late ↦ rw late (
              expire_groups-IsValid rest
                (remember-IsValid key timeout group.deadline_ns (drop_group-IsValid key v)))
          | inr early ↦ rw early (expire_groups-IsValid rest v)
        ]

    -- `expire`, past its clock check, keeps `IsValid`: each key has one group, the reserved bytes are the
    -- sum over the groups and within the limit, and the terminal cache is within its size.
    pub expire-IsValid : {s : Reassembler} → IsValid p s → IsValid p (expire p now s).1
    unfolding expire
    expire-IsValid {s} v =
        let w = expire_groups-IsValid s.groups v in
        let e = (expire_groups p now s.groups s).1 in
        record {
          distinct = w.distinct;
          counted = w.counted;
          bounded = w.bounded;
          cached = omega (
            arith,
            w.cached,
            length-keep-le {0, 0} {K = Key} {V = ℕ × Code} Key-discrete
                (λ key entry. ltb now entry.0) e.terminal,
          );
        }

  drop_session-IsValid :
      (session : ℕ) (rest : Dict Key Group) {s : Reassembler}
      → IsValid p s
      → IsValid p (drop_session session rest s)
  unfolding drop_session
  drop_session-IsValid session [] v = v
  drop_session-IsValid session ((key, group) ∷ rest) v =
      elim (Bool-cases (session_of key.identity == session)) [
        | inl mine ↦ rw mine (drop_session-IsValid session rest (drop_group-IsValid key v))
        | inr other ↦ rw other (drop_session-IsValid session rest v)
      ]

  -- A `discard_session` that returns keeps `IsValid`: each key has one group, the reserved bytes are the
  -- sum over the groups and within the limit, and the terminal cache is within its size.
  pub discard_session-IsValid :
      (session : ℕ) {s s' : Reassembler}
      → IsValid p s
      → discard_session session s ≡ ok s'
      → IsValid p s'
  unfolding discard_session
  discard_session-IsValid session {s} {s'} v done =
      let w = drop_session-IsValid session s.groups v in
      let dropped = drop_session session s.groups s in
      let (_, made) = require-eq-ok (ltb session 0x1_0000_0000) _ _ done in
      let terminal =
        keep (λ (key : Key) (entry : ℕ × Code). not (session_of key.identity == session))
          dropped.terminal in
      let e : s' ≡ record dropped { terminal = terminal } = cc in
      rw e (record {
        distinct = w.distinct;
        counted = w.counted;
        bounded = w.bounded;
        cached = omega (
          arith,
          w.cached,
          length-keep-le {0, 0} {K = Key} {V = ℕ × Code} Key-discrete
              (λ key entry. not (session_of key.identity == session)) dropped.terminal,
        );
      })

pub clock-IsValid :
    {p : Policy} (now : ℕ) {s s' : Reassembler} → clock now s ≡ ok s' → IsValid p s → IsValid p s'
unfolding clock
clock-IsValid now {s} {s'} done v =
    let (_, made) = require-eq-ok (leb s.last_now now) _ _ done in
    let e : s' ≡ record s { last_now = now } = cc in
    rw e (record {
      distinct = v.distinct;
      counted = v.counted;
      bounded = v.bounded;
      cached = v.cached;
    })
