-- ===== src/Runtime/Reassembly/PushBounds.antt =====
-- icd_runtime/reassembly.py: `push` keeps the memory bounds.
use hil_simulation.Common.{
  ℕ, ◌+◌, ◌≤◌, ◌≡◌, refl, Bool, true, ◌&&◌, ◌∙◌, leb→le, Option, some, none, leb, ◌==◌, length,
  arith, Option-cases, inl, inr, Bool-cases, ℕ_discrete,
}
use hil_simulation.Common.Dict.{lookup, insert}
use hil_simulation.Common.Dict.Laws.{
  lookup-insert, insert-Distinct, total-insert_new, total-insert_old,
}
use hil_simulation.Common.Result.{Code, Result-cases, duplicate}
use hil_simulation.Runtime.Contract.{Direction}
use hil_simulation.Runtime.Wire.Layout.{bytes_eq}
use hil_simulation.Runtime.Reassembly.Fragment.{
  Part, Key, Key-discrete, count_of, index_of, payload_of,
}
use hil_simulation.Runtime.Reassembly.State.{Group, Reassembler, clock}
use hil_simulation.Runtime.Reassembly.{
  Deployment, complete, conflicts, reject, add_piece, store, new_group, has_room, admit, push,
  gather, finish, prepare,
}
use hil_simulation.Runtime.Reassembly.Bounds.{
  IsValid, remember-IsValid, drop_group-IsValid, clock-IsValid, expire-IsValid,
}

and_left : (a b : Bool) → (a && b) ≡ true → a ≡ true
and_left a b h = ground arith

self_lem :
    (key : Key) (group : Group) (other : Option Group)
    → ◌≡◌ {A = Option Group}
        (elim (Key-discrete key key) [ yes _ ↦ some group | no _ ↦ other ])
        (some group)
self_lem key group other = ground arith

module _ (d : Deployment) where
  abbrev IsSafe : Reassembler → Type 0
  IsSafe = IsValid d.policy

  complete-IsValid :
      (key : Key) (part : Part) (direction : Direction) (group : Group) (now : ℕ) {s : Reassembler}
      → IsSafe s
      → IsSafe (complete d key part direction group now s).1
  unfolding complete
  complete-IsValid key part direction group now {s} v =
      let dropped = drop_group-IsValid d.policy key v in
      elim (Option-cases (gather group.pieces (count_of part) 0)) [
        | inl missing ↦ rw (missing, complete) v
        | inr (bytes, whole) ↦ elim (Result-cases (finish d part direction bytes)) [
          | inr (code, bad) ↦
              rw (whole, bad, complete) (remember-IsValid d.policy key code now dropped)
          | inl (done, good) ↦ elim (Bool-cases d.retain_completed) [
            | inl retain ↦
                rw (whole, good, retain, complete)
                  (remember-IsValid d.policy key duplicate now dropped)
            | inr forget ↦ rw (whole, good, forget, complete) dropped
          ]
        ]
      ]

  -- A group in place of one with the same reservation.
  replace-IsValid :
      (key : Key) (old new : Group) {s : Reassembler}
      → lookup Key-discrete key s.groups ≡ some old
      → new.reserved ≡ old.reserved
      → IsSafe s
      → IsSafe (record s { groups = insert Key-discrete key new s.groups })
  replace-IsValid key old new {s} found same v =
      let sum =
        total-insert_old Key-discrete (λ (g : Group). g.reserved) key new old s.groups found in
      record {
        distinct = insert-Distinct Key-discrete key new s.groups v.distinct;
        counted = omega (arith, v.counted, sum);
        bounded = v.bounded;
        cached = v.cached;
      }

  reject-IsValid :
      (key : Key) (now : ℕ) {s : Reassembler} → IsSafe s → IsSafe (reject d key now s).1
  unfolding reject
  reject-IsValid key now v =
      remember-IsValid d.policy key Code.fragment now (drop_group-IsValid d.policy key v)

  add_piece-IsValid :
      (key : Key) (part : Part) (direction : Direction) (group : Group) (now : ℕ) {s : Reassembler}
      → lookup Key-discrete key s.groups ≡ some group
      → IsSafe s
      → IsSafe (add_piece d key part direction group now s).1
  unfolding add_piece
  add_piece-IsValid key part direction group now {s} found v =
      let pieces = insert ℕ_discrete (index_of part) (payload_of part) group.pieces in
      let group' = record group { pieces = pieces } in
      let w = replace-IsValid key group group' found refl v in
      elim (Bool-cases (length pieces == count_of part)) [
        | inl last ↦ rw (last, add_piece) (complete-IsValid key part direction group' now w)
        | inr more ↦ rw (more, add_piece) w
      ]

  store-IsValid :
      (key : Key) (part : Part) (direction : Direction) (reservation : ℕ) (group : Group) (now : ℕ)
      {s : Reassembler}
      → lookup Key-discrete key s.groups ≡ some group
      → IsSafe s
      → IsSafe (store d key part direction reservation group now s).1
  unfolding store
  store-IsValid key part direction reservation group now {s} found v =
      elim (Bool-cases (conflicts d group part reservation)) [
        | inl clash ↦ rw (clash, store) (reject-IsValid key now v)
        | inr fits ↦ elim (Option-cases (lookup ℕ_discrete (index_of part) group.pieces)) [
          | inl new ↦ rw (fits, new, store) (add_piece-IsValid key part direction group now found v)
          | inr (old, known) ↦ elim (Bool-cases (bytes_eq old (payload_of part))) [
            | inl same ↦ rw (fits, known, same, store) v
            | inr other ↦ rw (fits, known, other, store) (reject-IsValid key now v)
          ]
        ]
      ]

  has_room-le :
      (key : Key) (part : Part) (reservation : ℕ) (s : Reassembler)
      → has_room d key part reservation s ≡ true
      → s.reserved + reservation ≤ d.policy.total_limit
  unfolding has_room
  has_room-le key part reservation s room =
      leb→le _ _ (and_left (leb (s.reserved + reservation) d.policy.total_limit) _ room)

  -- A new group, within the quota.
  open_group-IsValid :
      (key : Key) (group : Group) {s : Reassembler}
      → lookup Key-discrete key s.groups ≡ none
      → s.reserved + group.reserved ≤ d.policy.total_limit
      → IsSafe s
      → IsSafe (record s {
        groups = insert Key-discrete key group s.groups;
        reserved = s.reserved + group.reserved;
      })
  open_group-IsValid key group {s} absent room v =
      let sum =
        total-insert_new Key-discrete (λ (g : Group). g.reserved) key group s.groups absent in
      record {
        distinct = insert-Distinct Key-discrete key group s.groups v.distinct;
        counted = omega (arith, v.counted, sum);
        bounded = room;
        cached = v.cached;
      }

  admit-IsValid :
      (key : Key) (part : Part) (direction : Direction) (reservation now : ℕ) {s : Reassembler}
      → IsSafe s
      → IsSafe (admit d key part direction reservation now s).1
  unfolding admit
  admit-IsValid key part direction reservation now {s} v =
      elim (Option-cases (lookup Key-discrete key s.terminal)) [
        | inr (past, over) ↦ rw (over, admit) v
        | inl fresh ↦ elim (Option-cases (lookup Key-discrete key s.groups)) [
          | inr (group, found) ↦
              rw (fresh, found, admit)
                (store-IsValid key part direction reservation group now found v)
          | inl absent ↦ elim (Bool-cases (has_room d key part reservation s)) [
            | inr full ↦ rw (fresh, absent, full, admit) v
            | inl room ↦
                let group = new_group d part reservation now in
                rw (fresh, absent, room, admit)
                  (store-IsValid key part direction reservation group now
                    (lookup-insert Key-discrete key key group s.groups ∙ self_lem key group _)
                    (open_group-IsValid key group absent (has_room-le key part reservation s room)
                      v))
          ]
        ]
      ]

  -- `push` keeps `IsValid`, for any fragment and arguments, whether it returns or raises: each key has
  -- one group, the reserved bytes are the sum over the groups and within the limit, and the terminal
  -- cache is within its size.
  pub push-IsValid :
      (part : Part) (channel : ℕ) (direction : Direction) (authorized : Bool) (now : ℕ)
      (namespace : Option ℕ) {s : Reassembler}
      → IsSafe s
      → IsSafe (push d part channel direction authorized now namespace s).1
  unfolding push
  push-IsValid part channel direction authorized now namespace {s} v =
      elim (Result-cases (prepare d part channel direction authorized namespace)) [
        | inr (code, bad) ↦ rw (bad, push) v
        | inl ((key, reservation), good) ↦ elim (Result-cases (clock now s)) [
          | inr (code, back) ↦ rw (good, back, push) v
          | inl (s', on_time) ↦
              rw (good, on_time, push)
                (admit-IsValid key part direction reservation now
                  (expire-IsValid d.policy now (clock-IsValid now on_time v)))
        ]
      ]
