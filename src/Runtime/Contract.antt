-- ===== src/Runtime/Contract.antt =====
-- icd_runtime/contract.py: the catalogue entries, and the validation of headers and messages.
-- The JSON Schema validators (package jsonschema) are the fields `*_schema`.
pub mod Data
pub use Data.*
use hil_simulation.Common.{
  ℕ, ◌+◌, leb, Bool, true, false, ◌&&◌, ◌||◌, ◌≡◌, not, Option, none, some, List, [], ◌∷◌, ◌==◌,
  if◌then◌else◌, arith,
}
use hil_simulation.Common.Result.{
  Result, ok, err, ◌>>=◌, ◌>>◌, require, >>=-eq-ok, require-eq-ok, schema, unsupported,
  authorization, hash, stale_session, model, state, key_error,
}

unfoldable pub has_transport : Transport → List Transport → Bool
has_transport t [] = false
has_transport t (x ∷ xs) = if transport_eq t x then true else has_transport t xs

unfoldable pub contains_id : ℕ → List ℕ → Bool
contains_id m [] = false
contains_id m (x ∷ xs) = if m == x then true else contains_id m xs

-- `self._messages[message_id]`, of a catalogue that lists each id once.
unfoldable pub find_entry : ℕ → List Entry → Option Entry
find_entry mid [] = none
find_entry mid (e ∷ es) = if mid == e.id then some e else find_entry mid es

pub find_entry-id :
    (mid : ℕ) (es : List Entry) {e : Entry} → find_entry mid es ≡ some e → e.id ≡ mid
unfolding find_entry
find_entry-id mid [] h = cc
find_entry-id mid (x ∷ es) {e} h =
    ground (arith, λ (p : find_entry mid es ≡ some e). find_entry-id mid es p)

-- `self._can_ids[can_id]`, as the wire codec builds it: the last entry with that id has it.
unfoldable pub find_can_id : ℕ → List Entry → Option ℕ
find_can_id cid [] = none
find_can_id cid (e ∷ es) =
    let rest = find_can_id cid es in
    elim rest [
      | some mid ↦ some mid
      | none ↦ elim e.can_id [
        | none ↦ none
        | some other_id ↦ if cid == other_id then some e.id else none
      ]
    ]

abbrev pub allows_direction : Option Direction → Direction → Bool
allows_direction none d = true
allows_direction (some want) d = direction_eq want d

abbrev pub allows_model : Option ℕ → List ℕ → Bool
allows_model none ids = true
allows_model (some m) ids = contains_id m ids

abbrev pub bool_eq : Bool → Bool → Bool
bool_eq true b = b
bool_eq false b = not b

-- `payload` of messages 34 and 141, which the schema gives its fields.
abbrev pub chunk_of : Payload → Result ResourceChunk
chunk_of (resource_chunk x) = ok x
chunk_of _ = err key_error

abbrev pub ack_of : Payload → Result ResourceAck
ack_of (resource_ack x) = ok x
ack_of _ = err key_error

module _ (c : Contract) where
  unfoldable pub entry : ℕ → Result Entry
  entry mid = elim (find_entry mid c.messages) [ none ↦ err unsupported | some e ↦ ok e ]

  unfoldable pub find_can : ℕ → Result ℕ
  unfolding find_can_id
  find_can cid = elim (find_can_id cid c.messages) [ none ↦ err unsupported | some mid ↦ ok mid ]

  unfoldable pub session_rule : ℕ → Header → Result (Unit {0})
  session_rule mid h =
      if mid == 1
      then require (h.session_id == 0 && h.sequence == 1 && h.target_step == 0) schema
      else require (not (h.session_id == 0 && not (mid == 130))) stale_session

  unfoldable pub validate_header : ℕ → Header → Result (Unit {0})
  unfolding entry session_rule
  validate_header mid h = do
    e ← entry mid
    require (c.header_schema h) schema
    require (h.valid_for_ms == e.valid_for) schema
    session_rule mid h

  unfoldable pub validate_payload : ℕ → Payload → Result (Unit {0})
  unfolding entry
  validate_payload mid p = do
    e ← entry mid
    require (c.payload_schema mid p) schema
    require (not (mid == 1 || mid == 129) || is_value c.baseline_sha256 (baseline_of p)) hash
    require (not (mid == 129) || is_value 1000 (lease_of p)) schema

  unfoldable pub validate_message : Option Direction → Option ℕ → Message → Result (Unit {0})
  unfolding contains_id
  validate_message direction model_id m = do
    e ← entry m.message_id
    require (c.message_schema m) schema
    require (allows_direction direction e.direction) authorization
    require (allows_model model_id e.model_ids) model
    validate_header m.message_id m.header
    validate_payload m.message_id m.payload
    require (not (m.message_id == 130 && m.header.session_id == 0) || rejects_open m.payload)
        stale_session

  -- The progress that a ResourceAck may report of a ResourceChunk.
  pub progress_ok : ResourceChunk → ResourceAck → Bool
  progress_ok sent progress =
      if progress.succeeded
      then leb (sent.offset_bytes + sent.chunk_length) progress.next_offset
        && bool_eq progress.complete (progress.next_offset == sent.size_bytes)
      else not progress.complete

  pub validate_resource_feedback : Message → Message → Result (Unit {0})
  unfolding progress_ok
  validate_resource_feedback request reply = do
    validate_message (some to_36) none request
    validate_message (some from_36) none reply
    require (request.message_id == 34 && reply.message_id == 141) state
    sent ← chunk_of request.payload
    progress ← ack_of reply.payload
    require
        (reply.header.session_id == request.header.session_id
          && reply.header.transaction_id == request.header.transaction_id
          && progress.resource_sha256 == sent.resource_sha256
          && progress.stored_bytes == progress.next_offset
          && leb progress.next_offset sent.size_bytes)
        state
    require (progress_ok sent progress) state

  -- A message that passes has an entry, a valid header and a valid payload.
  pub validate_message-eq-ok :
      (d : Option Direction) (mo : Option ℕ) (m : Message)
      → validate_message d mo m ≡ ok tt
      → (e : Entry) × (entry m.message_id ≡ ok e)
        × (allows_direction d e.direction ≡ true)
        × (validate_header m.message_id m.header ≡ ok tt)
        × (validate_payload m.message_id m.payload ≡ ok tt)
  unfolding validate_message
  validate_message-eq-ok d mo m h =
      let (e, found, h1) = >>=-eq-ok (entry m.message_id) _ h in
      let (_, h2) = require-eq-ok _ _ _ h1 in
      let (way, h3) = require-eq-ok _ _ _ h2 in
      let (_, h4) = require-eq-ok _ _ _ h3 in
      let (u, head, h5) = >>=-eq-ok (validate_header m.message_id m.header) _ h4 in
      let (v, pay, h6) = >>=-eq-ok (validate_payload m.message_id m.payload) _ h5 in
      (e, found, way, head, pay)

  pub entry-id : (mid : ℕ) {e : Entry} → entry mid ≡ ok e → e.id ≡ mid
  unfolding entry
  entry-id mid h = grind (arith, find_entry-id)
