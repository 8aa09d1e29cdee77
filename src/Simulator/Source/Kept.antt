-- ===== src/Simulator/Source/Kept.antt =====
-- input_simulator/session.py: the bytes of the evidence that a source keeps, against its two counters.
use hil_simulation.Common.{
  ℕ, ◌+◌, ◌-◌, ◌≤◌, ◌≡◌, Option, some, none, List, [], ◌∷◌, ◌++◌, arith, ℕ_discrete,
}
use hil_simulation.Common.Dict.{Dict, lookup, remove, total}
use hil_simulation.Common.Dict.Laws.{total-remove_found}
use hil_simulation.Runtime.Contract.{Message}
use hil_simulation.Simulator.Source.State.{Profile, Exchange, Prepared}
use hil_simulation.Simulator.Source.Requests.{frames_bytes}

module _ (u : Profile) where
  abbrev pub reply_bytes : Option Message → ℕ
  reply_bytes none = 0
  reply_bytes (some reply) = u.json_bytes reply

  -- The bytes of the requests and the replies in the records.
  abbrev pub records_total : List Exchange → ℕ
  records_total [] = 0
  records_total (e ∷ es) = u.json_bytes e.request + reply_bytes e.reply + records_total es

  -- The bytes of a prepared input: its message, its snapshot, its frames, and 512 for the rest.
  abbrev pub input_size : Prepared → ℕ
  input_size p = u.json_bytes p.message + u.snapshot_bytes p.message + frames_bytes u p.frames + 512

  unfoldable pub inputs_total : Dict ℕ (Prepared × ℕ) → ℕ
  unfolding total
  inputs_total d = total (λ item. input_size item.0) d

  -- Each input stands beside its number of bytes.
  abbrev pub Sized : Dict ℕ (Prepared × ℕ) → Type 0
  Sized [] = Unit
  Sized ((key, item) ∷ d) = (item.1 ≡ input_size item.0) × Sized d

  -- The counter of the records is the number of their bytes, and that of the inputs not below theirs.
  pub record Kept (records : List Exchange) (record_bytes : ℕ) (inputs : Dict ℕ (Prepared × ℕ))
      (input_bytes : ℕ) : Type 0 where
    pub recorded : record_bytes ≡ records_total records
    pub sized : Sized inputs
    pub stored : inputs_total inputs ≤ input_bytes

  pub records_total-append :
      (xs : List Exchange) (e : Exchange)
      → records_total (xs ++ e ∷ [])
        ≡ records_total xs + (u.json_bytes e.request + reply_bytes e.reply)
  records_total-append [] e = omega arith
  records_total-append (x ∷ xs) e = omega (arith, records_total-append xs e)

  Sized-remove : (key : ℕ) (d : Dict ℕ (Prepared × ℕ)) → Sized d → Sized (remove ℕ_discrete key d)
  unfolding remove
  Sized-remove key [] h = tt
  Sized-remove key ((i, item) ∷ d) h = ground (arith, Sized-remove key d h.1)

  lookup-Sized :
      (key : ℕ) (item : Prepared × ℕ) (d : Dict ℕ (Prepared × ℕ))
      → Sized d
      → lookup ℕ_discrete key d ≡ some item
      → item.1 ≡ input_size item.0
  unfolding lookup
  lookup-Sized key item [] h e = cc
  lookup-Sized key item ((i, x) ∷ d) h e = ground (arith, lookup-Sized key item d h.1)

  pub stored_more :
      (key : ℕ) (p : Prepared) (size : ℕ) {records : List Exchange} {inputs : Dict ℕ (Prepared × ℕ)}
      {record_bytes input_bytes : ℕ}
      → size ≡ input_size p
      → Kept records record_bytes inputs input_bytes
      → Kept records record_bytes ((key, (p, size)) ∷ inputs) (input_bytes + size)
  unfolding inputs_total
  stored_more key p size {records} {inputs} e h = record {
    recorded = h.recorded;
    sized = (e, h.sized);
    stored = omega (arith, h.stored, e);
  }

  pub discarded :
      (key : ℕ) (item : Prepared × ℕ) {records : List Exchange} {inputs : Dict ℕ (Prepared × ℕ)}
      {record_bytes input_bytes : ℕ}
      → lookup ℕ_discrete key inputs ≡ some item
      → Kept records record_bytes inputs input_bytes
      → Kept records record_bytes (remove ℕ_discrete key inputs) (input_bytes - item.1)
  unfolding inputs_total
  discarded key item {records} {inputs} found h = record {
    recorded = h.recorded;
    sized = Sized-remove key inputs h.sized;
    stored = omega (
      arith,
      h.stored,
      lookup-Sized key item inputs h.sized found,
      total-remove_found ℕ_discrete (λ (x : Prepared × ℕ). input_size x.0) key item inputs found,
    );
  }
