-- ===== src/Runtime/Budget.antt =====
-- icd_runtime/resource_budget.py: pacing of background datagrams at a bit rate.
pub mod Rate
mod Tests
use hil_simulation.Common.{
  ℕ, ◌+◌, ◌-◌, ◌*◌, ◌/◌, ◌≤◌, ◌<◌, ◌≡◌, Bool, true, false, ◌&&◌, not, List, [], ◌∷◌, max, leb, ltb,
  length, arith, Option, some, none, All, refl, leb→le,
}
use hil_simulation.Common.Bytes.{Bytes}
use hil_simulation.Common.Result.{
  Result, ok, err, ◌>>=◌, ◌>>◌, require, schema, capacity, >>=-eq-ok, require-eq-ok,
}
use hil_simulation.Runtime.Chunks.{ceil_div}

-- `_last_ns` starts at -1, which no time is below: here 0.
pub record Budget : Type 0 where
  pub bits_per_second : ℕ
  pub next_ns : ℕ
  pub last_ns : ℕ

-- `__init__`, with `policy["max_resource_bps"]` and the optional argument.
pub init : ℕ → Option ℕ → Result Budget
init maximum none = do
  require (leb 1 maximum) capacity
  ok (record { bits_per_second = maximum; next_ns = 0; last_ns = 0 })
init maximum (some rate) = do
  require (leb 1 rate && leb rate maximum) capacity
  ok (record { bits_per_second = rate; next_ns = 0; last_ns = 0 })

-- Bits of one datagram on the wire: headers, FCS, preamble and gap.
abbrev pub packet_bits : Bytes → ℕ
packet_bits p = (max (length p + 46) 64 + 20) * 8

abbrev pub all_bounded : List Bytes → Bool
all_bounded [] = true
all_bounded (p ∷ ps) = leb 40 (length p) && leb (length p) 1200 && all_bounded ps

abbrev pub sum_bits : List Bytes → ℕ
sum_bits [] = 0
sum_bits (p ∷ ps) = packet_bits p + sum_bits ps

abbrev pub is_empty : List Bytes → Bool
is_empty [] = true
is_empty (p ∷ ps) = false

pub wire_bits : List Bytes → Result ℕ
wire_bits packets = do
  require (not (is_empty packets)) schema
  require (all_bounded packets) capacity
  ok (sum_bits packets)

abbrev pub nanoseconds : ℕ
nanoseconds = 1_000_000_000

pub preview : Budget → List Bytes → ℕ → Result ℕ
preview b packets now_ns = do
  require (leb b.last_ns now_ns) schema
  bits ← wire_bits packets
  ok (max now_ns b.next_ns + ceil_div (bits * nanoseconds) b.bits_per_second)

pub reserve : Budget → List Bytes → ℕ → Result (ℕ × Budget)
reserve b packets now_ns = do
  due ← preview b packets now_ns
  ok (due, record b { last_ns = now_ns; next_ns = due })

-- A sequence of calls, each at its time; a refused call changes nothing.
pub run : Budget → List (List Bytes × ℕ) → Budget
run b [] = b
run b ((packets, now_ns) ∷ rest) = elim (reserve b packets now_ns) [
  | ok r ↦ run r.1 rest
  | err e ↦ run b rest
]

-- The bits of the calls that `run` accepts.
pub granted : Budget → List (List Bytes × ℕ) → ℕ
granted b [] = 0
granted b ((packets, now_ns) ∷ rest) = elim (reserve b packets now_ns) [
  | ok r ↦ sum_bits packets + granted r.1 rest
  | err e ↦ granted b rest
]
