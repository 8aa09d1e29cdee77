-- ===== src/Runtime/Reassembly.antt =====
-- icd_runtime/reassembly.py: the bounded reassembler. An operation that may raise returns its result
-- beside the state, since what was written before the raise stays written.
pub mod Fragment
pub mod State
pub mod Bounds
pub mod PushBounds
mod Tests
use hil_simulation.Common.{
  ℕ, zero, suc, ◌+◌, ◌-◌, ◌*◌, Bool, true, false, ◌&&◌, ◌||◌, not, Option, some, none, List, [],
  ◌∷◌, ◌++◌, leb, ltb, ◌==◌, if◌then◌else◌, length, ℕ_discrete,
}
use hil_simulation.Common.Bytes.{Bytes}
use hil_simulation.Common.Dict.{Dict, lookup, insert}
use hil_simulation.Common.Result.{
  Code, Result, ok, err, ◌>>=◌, ◌>>◌, require, schema, authorization, buffer_full, duplicate,
  key_error,
}
use hil_simulation.Runtime.Contract.{
  Contract, Payload, Message, Direction, validate_message, Transport, transport_eq, canfd, video,
}
use hil_simulation.Runtime.Video.{VideoHeader, VideoRules, validate_frame}
use hil_simulation.Runtime.Wire.Layout.{bytes_eq}
use Fragment.{
  Part, business, stream, Key, Key-discrete, Identity, check, index_of, count_of, payload_of,
  transport_of, same_header, session_of,
}
use State.{Policy, Group, Reassembler, expire, remember, clock, drop_group, same_channel, videos}

-- `CompletedMessage` and `CompletedVideo`; the digest is `sha256` of the frame.
pub data Completed : Type 0 where
  message : Message → Bytes → Completed
  frame : VideoHeader → Bytes → ℕ → Completed

-- `b"".join(group.pieces[i] for i in range(count))`, from index `i` on; `none` where a piece is missing.
pub gather : Dict ℕ Bytes → ℕ → ℕ → Option Bytes
gather pieces zero i = some []
gather pieces (suc left) i =
    let rest = gather pieces left (i + 1) in
    elim (lookup ℕ_discrete i pieces) [
      | none ↦ none
      | some piece ↦ elim rest [ none ↦ none | some bytes ↦ some (piece ++ bytes) ]
    ]

-- The type of a catalogued channel: CANFD, ETH, or one that carries no fragments (CAN, RS232, RS422,
-- TTL, AD, DA).
pub data ChannelType : Type 0 where
  canfd_channel eth_channel other_channel : ChannelType

abbrev pub is_canfd_channel : ChannelType → Bool
is_canfd_channel canfd_channel = true
is_canfd_channel _ = false

abbrev pub is_eth_channel : ChannelType → Bool
is_eth_channel eth_channel = true
is_eth_channel _ = false

-- What the reassembler is built with: the contract, the video rules, and the payload codec's
-- `decode`; `sha256` is hashlib's.
pub record Deployment : Type 0 where
  pub contract : Contract
  pub rules : VideoRules
  pub policy : Policy
  pub channels : Dict ℕ ChannelType
  pub retain_completed : Bool
  pub payload_decode : ℕ → Bytes → Result Payload
  pub sha256 : Bytes → ℕ

-- `self._channels[channel] == medium`
abbrev pub declared : Option ChannelType → Part → Bool
declared none part = false
declared (some type) part =
    if transport_eq (transport_of part) canfd then is_canfd_channel type else is_eth_channel type

-- A local grant namespace is only for a SessionOpen that names no session.
abbrev pub namespace_ok : Option ℕ → Part → Identity → Bool
namespace_ok none part identity = true
namespace_ok (some n) (business f) identity =
    ltb n 64 && f.message_id == 1 && session_of identity == 0
namespace_ok (some n) (stream f) identity = false

module _ (p : Deployment) where
  -- The completed data, decoded and validated.
  pub finish : Part → Direction → Bytes → Result Completed
  finish (business f) direction bytes = do
    payload ← p.payload_decode f.message_id bytes
    let m : Message = record { message_id = f.message_id; header = f.header; payload = payload }
    validate_message p.contract (some direction) none m
    ok (message m bytes)
  finish (stream f) direction bytes = do
    require (length bytes == f.frame_bytes) Code.fragment
    validate_frame p.rules bytes f.header
    ok (frame f.header bytes (p.sha256 bytes))

  -- The end of `push`: the last piece is there.
  pub complete :
      Key → Part → Direction → Group → ℕ → Reassembler → Result (Option Completed) × Reassembler
  complete key part direction group now s = elim (gather group.pieces (count_of part) 0) [
    | none ↦ (err key_error, s)
    | some bytes ↦
        let after = drop_group key s in
        elim (finish part direction bytes) [
          | err code ↦ (err code, remember p.policy key code now after)
          | ok done ↦ (
            ok (some done),
            if p.retain_completed then remember p.policy key duplicate now after else after,
          )
        ]
  ]

  -- `first.header != fragment.header or first.count != fragment.count or group.reserved != reservation`
  pub conflicts : Group → Part → ℕ → Bool
  conflicts group part reservation =
      not (same_header group.first part)
      || not (count_of group.first == count_of part)
      || not (group.reserved == reservation)

  -- The whole group is dropped, and refused from now on.
  pub reject : Key → ℕ → Reassembler → Result (Option Completed) × Reassembler
  reject key now s = (err Code.fragment, remember p.policy key Code.fragment now (drop_group key s))

  -- The group with one more piece, and what follows if it is the last.
  pub add_piece :
      Key → Part → Direction → Group → ℕ → Reassembler → Result (Option Completed) × Reassembler
  add_piece key part direction group now s =
      let pieces = insert ℕ_discrete (index_of part) (payload_of part) group.pieces in
      let group' = record group { pieces = pieces } in
      let s' = record s { groups = insert Key-discrete key group' s.groups } in
      if length pieces == count_of part
      then complete key part direction group' now s'
      else (ok none, s')

  -- The part of `push` that follows once the group is there.
  pub store :
      Key → Part → Direction → ℕ → Group → ℕ → Reassembler → Result (Option Completed) × Reassembler
  store key part direction reservation group now s =
      if conflicts group part reservation
      then reject key now s
      else elim (lookup ℕ_discrete (index_of part) group.pieces) [
        | some old ↦ if bytes_eq old (payload_of part) then (ok none, s) else reject key now s
        | none ↦ add_piece key part direction group now s
      ]

  -- The quota test of a new group.
  pub has_room : Key → Part → ℕ → Reassembler → Bool
  has_room key part reservation s =
      leb (s.reserved + reservation) p.policy.total_limit
      && (if transport_eq (transport_of part) video
          then ltb (videos s.groups) p.rules.queue_frames
          else ltb (same_channel key.channel s.groups) p.policy.slots_per_channel)

  -- `self._rules[fragment.transport]["reassembly_timeout_ms"]`
  pub timeout_ms : Part → ℕ
  timeout_ms (business f) = (p.contract.rules f.transport).reassembly_timeout_ms
  timeout_ms (stream f) = p.rules.reassembly_timeout_ms

  abbrev pub new_group : Part → ℕ → ℕ → Group
  new_group part reservation now = record {
    first = part;
    deadline_ns = now + timeout_ms part * 1_000_000;
    reserved = reservation;
    pieces = [];
  }

  -- `push` behind its checks and `expire`: a key that is over, a group that is there, or a new group.
  pub admit : Key → Part → Direction → ℕ → ℕ → Reassembler → Result (Option Completed) × Reassembler
  admit key part direction reservation now s = elim (lookup Key-discrete key s.terminal) [
    | some past ↦ (err past.1, s)
    | none ↦ elim (lookup Key-discrete key s.groups) [
      | some group ↦ store key part direction reservation group now s
      | none ↦
          let group = new_group part reservation now in
          let opened = record s {
            groups = insert Key-discrete key group s.groups;
            reserved = s.reserved + reservation;
          } in
          if has_room key part reservation s
          then store key part direction reservation group now opened
          else (err buffer_full, s)
    ]
  ]

  -- The checks that `push` makes before it touches its state, and the key of the group.
  pub prepare : Part → ℕ → Direction → Bool → Option ℕ → Result (Key × ℕ)
  prepare part channel direction authorized namespace = do
    require authorized authorization
    require (declared (lookup ℕ_discrete channel p.channels) part) authorization
    (identity, reservation) ← check p.contract p.rules part direction
    require (namespace_ok namespace part identity) schema
    ok (
      record {
        channel = channel;
        direction = direction;
        transport = transport_of part;
        identity = identity;
        namespace = namespace;
      },
      reservation,
    )

  pub push :
      Part
      → ℕ
      → Direction
      → Bool
      → ℕ
      → Option ℕ
      → Reassembler
      → Result (Option Completed) × Reassembler
  push part channel direction authorized now namespace s =
      elim (prepare part channel direction authorized namespace) [
        | err code ↦ (err code, s)
        | ok (key, reservation) ↦ elim (clock now s) [
          | err code ↦ (err code, s)
          | ok s' ↦ admit key part direction reservation now (expire p.policy now s').1
        ]
      ]
