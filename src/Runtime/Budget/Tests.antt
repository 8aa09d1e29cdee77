-- ===== src/Runtime/Budget/Tests.antt =====
-- icd_runtime/resource_budget.py: a run of two granted calls and a refused one.
use hil_simulation.Common.{ℕ, ◌+◌, ◌*◌, ◌≤◌, List, [], ◌∷◌, replicate, arith}
use hil_simulation.Common.Bytes.{Bytes}
use hil_simulation.Runtime.Budget.{Budget, run, granted, nanoseconds}
use hil_simulation.Runtime.Budget.Rate.{rate_bound}

abbrev budget : Budget
budget = record { bits_per_second = 1_000_000; next_ns = 0; last_ns = 0 }

-- Two packets, no packet, and one packet that comes late.
abbrev calls : List (List Bytes × ℕ)
calls =
    ((replicate 100 1 ∷ replicate 60 2 ∷ []), 10)
    ∷ ([], 20)
    ∷ ((replicate 1000 3 ∷ []), 9_000_000)
    ∷ []

rate_bound_example :
    granted budget calls * nanoseconds + 1_000_000 * 0 ≤ 1_000_000 * (run budget calls).next_ns
rate_bound_example = rate_bound calls budget (omega arith)
