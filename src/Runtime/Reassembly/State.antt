-- ===== src/Runtime/Reassembly/State.antt =====
-- icd_runtime/reassembly.py: the state, `_remember`, `_drop`, `expire` and the discards.
use hil_simulation.Common.{
  ℕ, ◌+◌, ◌-◌, ◌*◌, ◌&&◌, not, some, none, List, [], ◌∷◌, ◌++◌, leb, ltb, ◌==◌, if◌then◌else◌,
  length,
}
use hil_simulation.Common.Bytes.{Bytes}
use hil_simulation.Common.Dict.{Dict, lookup, remove, keep}
use hil_simulation.Common.Result.{Code, Result, ok, ◌>>◌, require, schema, timeout}
use hil_simulation.Runtime.Contract.{transport_eq, video}
use hil_simulation.Runtime.Reassembly.Fragment.{Part, Key, Key-discrete, transport_of, session_of}

-- `_Group`
pub record Group : Type 0 where
  pub first : Part
  pub deadline_ns : ℕ
  pub reserved : ℕ
  pub pieces : Dict ℕ Bytes

-- `_terminal` holds a deadline and a code; `_last_now` starts at -1, which no time is below: here 0.
pub record Reassembler : Type 0 where
  pub groups : Dict Key Group
  pub terminal : Dict Key (ℕ × Code)
  pub reserved : ℕ
  pub last_now : ℕ

-- The bounds of `catalogue["policy"]`.
pub record Policy : Type 0 where
  pub duplicate_retention_ms : ℕ
  pub duplicate_cache_messages : ℕ
  pub total_limit : ℕ
  pub slots_per_channel : ℕ

unfoldable pub initial : Reassembler
initial = record { groups = []; terminal = []; reserved = 0; last_now = 0 }

-- `while len(terminal) > limit: popitem(last=False)`
unfoldable pub evict {ℓ} : {A : Type ℓ} → ℕ → List A → List A
evict limit [] = []
evict limit (x ∷ xs) =
    let rest = evict limit xs in if ltb limit (length (x ∷ xs)) then rest else x ∷ xs

module _ (p : Policy) where
  -- `_remember`: the key goes to the end of the terminal cache, which is cut to its bound.
  unfoldable pub remember : Key → Code → ℕ → Reassembler → Reassembler
  remember key code now s =
      let entry : ℕ × Code = (now + p.duplicate_retention_ms * 1_000_000, code) in
      record s {
        terminal =
            evict p.duplicate_cache_messages
              (remove Key-discrete key s.terminal ++ (key, entry) ∷ []);
      }

-- `_drop`, of a key that has a group.
unfoldable pub drop_group : Key → Reassembler → Reassembler
drop_group key s = elim (lookup Key-discrete key s.groups) [
  | none ↦ s
  | some group ↦ record s {
    groups = remove Key-discrete key s.groups;
    reserved = s.reserved - group.reserved;
  }
]

-- `check_clock`, then `_clock`.
unfoldable pub clock : ℕ → Reassembler → Result Reassembler
clock now s = do require (leb s.last_now now) schema; ok (record s { last_now = now })

module _ (p : Policy) (now : ℕ) where
  -- The first loop of `expire`, over the groups as they were, with the keys that it expires.
  unfoldable pub expire_groups : Dict Key Group → Reassembler → List Key × Reassembler
  expire_groups [] s = ([], s)
  expire_groups ((key, group) ∷ rest) s =
      let late = leb group.deadline_ns now in
      let s' = if late then remember p key timeout group.deadline_ns (drop_group key s) else s in
      let (keys, s'') = expire_groups rest s' in (if late then key ∷ keys else keys, s'')

  -- `expire`, past its clock check.
  unfoldable pub expire : Reassembler → List Key × Reassembler
  expire s =
      let (keys, s') = expire_groups s.groups s in
      (keys, record s' { terminal = keep (λ key entry. ltb now entry.0) s'.terminal })

-- The groups of a channel that are no video, and the video groups.
pub same_channel : ℕ → Dict Key Group → ℕ
same_channel channel [] = 0
same_channel channel ((key, group) ∷ rest) =
    (if key.channel == channel && not (transport_eq (transport_of group.first) video) then 1 else 0)
    + same_channel channel rest

pub videos : Dict Key Group → ℕ
videos [] = 0
videos ((key, group) ∷ rest) =
    (if transport_eq (transport_of group.first) video then 1 else 0) + videos rest

-- The loop of `discard_session` over the groups, and then the terminal entries.
unfoldable pub drop_session : ℕ → Dict Key Group → Reassembler → Reassembler
drop_session session [] s = s
drop_session session ((key, group) ∷ rest) s =
    drop_session session rest (if session_of key.identity == session then drop_group key s else s)

unfoldable pub discard_session : ℕ → Reassembler → Result Reassembler
discard_session session s = do
  require (ltb session 0x1_0000_0000) schema
  let dropped = drop_session session s.groups s
  ok (record dropped {
    terminal = keep (λ key entry. not (session_of key.identity == session)) dropped.terminal;
  })

pub clear : Reassembler → Reassembler
clear s = record s { groups = []; terminal = []; reserved = 0 }
