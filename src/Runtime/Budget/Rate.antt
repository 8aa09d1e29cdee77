-- ===== src/Runtime/Budget/Rate.antt =====
-- icd_runtime/resource_budget.py: the reserved time grows at least at the configured rate.
use hil_simulation.Common.{
  ℕ, ◌+◌, ◌*◌, ◌≤◌, ◌<◌, ◌≡◌, List, [], ◌∷◌, max, leb, arith, refl, ap, leb→le, inl, inr,
}
use hil_simulation.Common.Bytes.{Bytes}
use hil_simulation.Common.Result.{ok, >>=-eq-ok, require-eq-ok, Result-cases}
use hil_simulation.Runtime.Chunks.{ceil_div, ceil_div_bounds}
use hil_simulation.Runtime.Budget.{
  Budget, sum_bits, wire_bits, nanoseconds, preview, reserve, run, granted,
}

wire_bits-eq-ok :
    (packets : List Bytes) {bits : ℕ} → wire_bits packets ≡ ok bits → bits ≡ sum_bits packets
unfolding wire_bits
wire_bits-eq-ok packets {bits} h = ground arith

mul_mono : (m a b : ℕ) → a ≤ b → m * a ≤ m * b
mul_mono m a b h = grind arith

-- What an accepted reservation did: the clock did not go back, and the new end of the reserved time
-- is past now, and past the old end by the time that the bits take.
pub record Reserved (b : Budget) (packets : List Bytes) (now_ns : ℕ) (due : ℕ) (b' : Budget)
    : Type 0 where
  pub clock : b.last_ns ≤ now_ns
  pub after : b' ≡ record b { last_ns = now_ns; next_ns = due }
  pub not_past : now_ns ≤ due
  pub paced :
      sum_bits packets * nanoseconds + b.bits_per_second * b.next_ns ≤ b.bits_per_second * due

reserve-Reserved :
    (b : Budget) (packets : List Bytes) (now_ns : ℕ) {due : ℕ} {b' : Budget}
    → 0 < b.bits_per_second
    → reserve b packets now_ns ≡ ok (due, b')
    → Reserved b packets now_ns due b'
unfolding reserve preview
reserve-Reserved b packets now_ns {due} {b'} rate h =
    let (x, seen, h1) = >>=-eq-ok (preview b packets now_ns) _ h in
    let (clock, p1) = require-eq-ok (leb b.last_ns now_ns) _ _ seen in
    let (bits, counted, p2) = >>=-eq-ok (wire_bits packets) _ p1 in
    let e : bits ≡ sum_bits packets = wire_bits-eq-ok packets counted in
    let same : x ≡ due = ground arith in
    let wait : ℕ = ceil_div (bits * nanoseconds) b.bits_per_second in
    let due_is : max now_ns b.next_ns + wait ≡ due = ground arith in
    let enough : bits * nanoseconds ≤ wait * b.bits_per_second =
      (ceil_div_bounds (bits * nanoseconds) b.bits_per_second rate).0 in
    let later : b.bits_per_second * (b.next_ns + wait) ≤ b.bits_per_second * due =
      mul_mono b.bits_per_second (b.next_ns + wait) due (omega arith) in
    let whole : sum_bits packets * nanoseconds ≤ wait * b.bits_per_second = rw (← e) enough in
    record {
      clock = leb→le _ _ clock;
      after = ground arith;
      not_past = omega arith;
      paced = omega arith;
    }

rate_step :
    (b : Budget) (packets : List Bytes) (now_ns : ℕ) (rest : List (List Bytes × ℕ))
    → 0 < b.bits_per_second
    → ((b' : Budget)
        → b'.bits_per_second ≡ b.bits_per_second
        → granted b' rest * nanoseconds + b.bits_per_second * b'.next_ns
          ≤ b.bits_per_second * (run b' rest).next_ns)
    → granted b ((packets, now_ns) ∷ rest) * nanoseconds + b.bits_per_second * b.next_ns
      ≤ b.bits_per_second * (run b ((packets, now_ns) ∷ rest)).next_ns
unfolding run granted
rate_step b packets now_ns rest rate ih = elim (Result-cases (reserve b packets now_ns)) [
  | inl ((due, b'), done) ↦
      let r : Reserved b packets now_ns due b' = reserve-Reserved b packets now_ns rate done in
      let h = ih b' (rw r.after) in
      let nx : b'.next_ns ≡ due = rw r.after in
      rw (done, run, granted) (omega (arith, r.paced, h, ap (λ (t : ℕ). b.bits_per_second * t) nx))
  | inr (e, refused) ↦ rw (refused, run, granted) (ih b refl)
]

-- For a positive rate, over any sequence of calls, refused ones included, the bits that were granted, at the configured
-- rate, take no more than the time by which the reserved end moved.
pub rate_bound :
    (calls : List (List Bytes × ℕ)) (b : Budget)
    → 0 < b.bits_per_second
    → granted b calls * nanoseconds + b.bits_per_second * b.next_ns
      ≤ b.bits_per_second * (run b calls).next_ns
unfolding run granted
rate_bound [] b rate = omega arith
rate_bound ((packets, now_ns) ∷ rest) b rate =
    rate_step b packets now_ns rest rate (λ b' e. rw (← e) (rate_bound rest b' (omega arith)))
