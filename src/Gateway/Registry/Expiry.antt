-- ===== src/Gateway/Registry/Expiry.antt =====
-- icd_gateway/session.py: what `expire` leaves of the sessions, the admissions and the nonces.
use hil_simulation.Common.{
  ℕ, ◌≡◌, ap, ◌∙◌, Bool, ◌||◌, Option, Option-cases, inl, inr, true, false, some, none, List, ltb,
  ℕ_discrete, arith,
}
use hil_simulation.Common.Dict.{lookup}
use hil_simulation.Common.Dict.Laws.{Distinct, lookup-keep}
use hil_simulation.Common.Result.{ok}
use hil_simulation.Gateway.Registry.State.{
  Pair-discrete, Admission, Registry, clock, check_clock, ensure_open, expire, purge,
  retained_until,
}

-- An `expire` that returns.
purged :
    (now : ℕ) (s : Registry) {late : List ℕ}
    → (expire now s).0 ≡ ok late
    → (expire now s).1 ≡ purge now (record s { last_now = now })
unfolding expire clock check_clock ensure_open
purged now s {late} done = ground arith

-- The feedback of a resource request is waited for until after that time.
abbrev pub awaits : ℕ → Option ℕ → Bool
awaits now none = false
awaits now (some deadline) = ltb now deadline

retained-awaits :
    (now : ℕ) (a : Admission)
    → ltb now (retained_until a) ≡ (ltb now a.deadline_ns || awaits now a.resource_deadline_ns)
retained-awaits now a = elim (Option-cases a.resource_deadline_ns) [
  | inl e ↦ rw e (ground arith)
  | inr (d, e) ↦ rw e (ground arith)
]

module _ (now : ℕ) (s : Registry) {late : List ℕ} where
  -- When each session has one entry and `expire` returns, exactly the sessions whose lease ends after that time are left, each as it
  -- was.
  pub session-expire :
      (sid : ℕ)
      → Distinct ℕ_discrete s.sessions
      → (expire now s).0 ≡ ok late
      → lookup ℕ_discrete sid (expire now s).1.sessions ≡ elim (lookup ℕ_discrete sid s.sessions) [
        | none ↦ none
        | some x ↦ elim (ltb now x.deadline_ns) [ true ↦ some x | false ↦ none ]
      ]
  unfolding purge
  session-expire sid once done =
      ap (λ (r : Registry). lookup ℕ_discrete sid r.sessions) (purged now s done)
      ∙ lookup-keep ℕ_discrete (λ j x. ltb now x.deadline_ns) sid s.sessions once
      ∙ ground arith

  -- When each admission has one entry and `expire` returns, exactly the admissions are left, each as it
  -- was, whose retention ends after that time or that wait for resource feedback until after that
  -- time; all others are gone, a resource deadline that has passed notwithstanding.
  pub admission-expire :
      (key : ℕ × ℕ)
      → Distinct Pair-discrete s.records
      → (expire now s).0 ≡ ok late
      → lookup Pair-discrete key (expire now s).1.records
        ≡ elim (lookup Pair-discrete key s.records) [
          | none ↦ none
          | some a ↦ elim (ltb now a.deadline_ns || awaits now a.resource_deadline_ns) [
            | true ↦ some a
            | false ↦ none
          ]
        ]
  unfolding purge
  admission-expire key once done =
      ap (λ (r : Registry). lookup Pair-discrete key r.records) (purged now s done)
      ∙ lookup-keep Pair-discrete (λ j a. ltb now (retained_until a)) key s.records once
      ∙ ground (arith, retained-awaits now)
