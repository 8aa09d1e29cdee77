-- ===== src/Runtime/Chunks.antt =====
-- Splitting a logical payload: `[raw[i:i + n] for i in range(0, len(raw), n)]` of wire.py, and the
-- loop over `frame[index * n:(index + 1) * n]` of video.py, which make the same pieces.
use hil_simulation.Common.{
  ℕ, zero, suc, ◌+◌, ◌-◌, ◌*◌, ◌/◌, ◌%◌, ◌≤◌, ◌<◌, ◌≡◌, refl, sym, ap, ◌∙◌, min, some, List, [],
  ◌∷◌, ◌++◌, arith, length, take, drop, get_elem?, length-take, length-drop, take-append-drop,
  drop-drop, drop_all,
}

-- The number of steps of `range(0, len, size)`, and `(len + size - 1) // size`.
abbrev pub ceil_div : ℕ → ℕ → ℕ
ceil_div len size = (len + size - 1) / size

module _ {ℓ} {A : Type ℓ} where
  -- `raw[i * size:(i + 1) * size]`
  abbrev pub chunk_at : ℕ → List A → ℕ → List A
  chunk_at size raw i = take size (drop (i * size) raw)

  -- The chunks from index `i` on, `k` of them.
  unfoldable pub chunks_from : ℕ → List A → ℕ → ℕ → List (List A)
  chunks_from size raw zero i = []
  chunks_from size raw (suc k) i = chunk_at size raw i ∷ chunks_from size raw k (i + 1)

  -- The pieces, of a positive size, as every catalogue has it: a step of 0 is an error of `range`.
  unfoldable pub chunks : ℕ → List A → List (List A)
  unfolding chunks_from
  chunks size raw = chunks_from size raw (ceil_div (length raw) size) 0

  pub join : List (List A) → List A
  join [] = []
  join (x ∷ xs) = x ++ join xs

module _ {ℓ} {A : Type ℓ} (size : ℕ) (raw : List A) where
  length-chunks_from : (k i : ℕ) → length (chunks_from size raw k i) ≡ k
  unfolding chunks_from
  length-chunks_from zero i = refl
  length-chunks_from (suc k) i = ap suc (length-chunks_from k (i + 1))

  pub length-chunks : length (chunks size raw) ≡ ceil_div (length raw) size
  unfolding chunks
  length-chunks = length-chunks_from (ceil_div (length raw) size) 0

  get_elem?-chunks_from :
      (k i j : ℕ) {ch : List A}
      → get_elem? (chunks_from size raw k i) j ≡ some ch
      → (j < k) × (ch ≡ chunk_at size raw (i + j))
  unfolding chunks_from
  get_elem?-chunks_from zero i j h = cc
  get_elem?-chunks_from (suc k) i zero h =
      let e : i + 0 ≡ i = omega arith in (omega arith, rw e (cc))
  get_elem?-chunks_from (suc k) i (suc j) h =
      let e : i + suc j ≡ i + 1 + j = omega arith in
      let (lt, same) = get_elem?-chunks_from k (i + 1) j h in (omega arith, rw e same)

  join-chunks_from :
      (k i : ℕ)
      → length raw ≤ (i + k) * size
      → join (chunks_from size raw k i) ≡ drop (i * size) raw
  unfolding join chunks_from
  join-chunks_from zero i h = sym (drop_all (i * size) raw (omega arith))
  join-chunks_from (suc k) i h =
      let e : (i + 1) * size ≡ i * size + size = omega arith in
      let rest : join (chunks_from size raw k (i + 1)) ≡ drop size (drop (i * size) raw) =
        join-chunks_from k (i + 1) (omega arith) ∙ rw (e, drop-drop) in
      rw rest (take-append-drop size (drop (i * size) raw))

pub ceil_div_bounds :
    (len size : ℕ)
    → 0 < size
    → (len ≤ ceil_div len size * size) × (0 < len → (ceil_div len size - 1) * size < len)
ceil_div_bounds len size h =
    let q : ℕ = ceil_div len size in
    let whole : q * size + (len + size - 1) % size ≡ len + size - 1 = omega arith in
    let rest : (len + size - 1) % size < size = omega arith in
    (omega arith, λ nonempty. last_starts q whole rest nonempty)
  where
    -- With no piece the remainder would be the whole; otherwise one piece less falls short.
    last_starts :
        (q : ℕ)
        → q * size + (len + size - 1) % size ≡ len + size - 1
        → (len + size - 1) % size < size
        → 0 < len
        → (q - 1) * size < len
    last_starts zero whole rest nonempty = omega arith
    last_starts (suc q) whole rest nonempty =
        let e : suc q - 1 ≡ q = omega arith in rw e (omega arith)

module _ {ℓ} {A : Type ℓ} (size : ℕ) (raw : List A) where
  -- A piece that is there is the piece at its index.
  pub get_elem?-chunks :
      (j : ℕ) {ch : List A}
      → get_elem? (chunks size raw) j ≡ some ch
      → (j < ceil_div (length raw) size) × (ch ≡ chunk_at size raw j)
  unfolding chunks
  get_elem?-chunks j h =
      let e : 0 + j ≡ j = omega arith in
      let (lt, same) = get_elem?-chunks_from size raw (ceil_div (length raw) size) 0 j h in
      (lt, rw e at same)

  pub length-chunk_at : (j : ℕ) → length (chunk_at size raw j) ≡ min size (length raw - j * size)
  length-chunk_at j =
      omega (arith, length-take size (drop (j * size) raw), length-drop (j * size) raw)

  -- The pieces together are the payload.
  pub join-chunks : 0 < size → join (chunks size raw) ≡ raw
  unfolding chunks
  join-chunks h =
      let b = ceil_div_bounds (length raw) size h in
      let e : 0 * size ≡ 0 = omega arith in
      join-chunks_from size raw (ceil_div (length raw) size) 0 (omega (arith, b.0)) ∙ rw e
