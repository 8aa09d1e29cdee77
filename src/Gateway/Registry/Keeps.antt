-- ===== src/Gateway/Registry/Keeps.antt =====
-- icd_gateway/session.py: what every operation does to the sessions and to the session counter, as a
-- closure: a property of both that the five changes keep is kept by every operation.
use hil_simulation.Common.{
  ℕ, ◌+◌, ◌≤◌, ◌<◌, ◌≡◌, Bool, some, [], ltb, length, ℕ_discrete, arith, Option-cases, inl, inr,
}
use hil_simulation.Common.Dict.{Dict, lookup, insert, remove, keep}
use hil_simulation.Common.Exec.{Exec, ◌>>=◌, Keeps, Keeps-bind}
use hil_simulation.Gateway.Registry.State.{
  Session, Setup, Registry, clock, check_clock, ensure_open, expire, purge, get, revoke, retire,
  close, next_feedback_sequence,
}

pub record Closed (u : Setup) (P : ℕ → Dict ℕ Session → Type 0) : Type 0 where
  pub kept : (test : ℕ → Session → Bool) (n : ℕ) (d : Dict ℕ Session) → P n d → P n (keep test d)
  pub removed : (sid n : ℕ) (d : Dict ℕ Session) → P n d → P n (remove ℕ_discrete sid d)
  pub emptied : (n : ℕ) (d : Dict ℕ Session) → P n d → P n []
  pub allocated :
      (x : Session) (n : ℕ) (d : Dict ℕ Session)
      → length d < u.max_sessions
      → P n d
      → P (n + 1) (insert ℕ_discrete n x d)
  pub renewed :
      (sid : ℕ) (x x' : Session) (n : ℕ) (d : Dict ℕ Session)
      → lookup ℕ_discrete sid d ≡ some x
      → x.last_rx ≤ x'.last_rx
      → P n d
      → P n (insert ℕ_discrete sid x' d)

module _ (u : Setup) (P : ℕ → Dict ℕ Session → Type 0) (z : Closed u P) where
  abbrev pub On : Registry → Type 0
  On s = P s.next_id s.sessions

  pub clock-Keeps : (now : ℕ) → Keeps On (clock now)
  unfolding clock check_clock ensure_open
  clock-Keeps now s h = ground arith

  purge-On : (now : ℕ) (s : Registry) → On s → On (purge now s)
  unfolding purge
  purge-On now s h = z.kept (λ sid session. ltb now session.deadline_ns) s.next_id s.sessions h

  pub expire-Keeps : (now : ℕ) → Keeps On (expire now)
  unfolding expire
  expire-Keeps now = Keeps-bind On (clock now) _ (clock-Keeps now) (λ _ s h. purge-On now s h)

  pub revoke-Keeps : (sid : ℕ) → Keeps On (revoke sid)
  unfolding revoke ensure_open
  revoke-Keeps sid s h = ground (arith, z.removed sid s.next_id s.sessions h)

  pub retire-Keeps : (sid : ℕ) → Keeps On (retire sid)
  unfolding retire ensure_open
  retire-Keeps sid s h = ground (arith, revoke-Keeps sid s h)

  pub close-On : (s : Registry) → On s → On (close s)
  unfolding close
  close-On s h = ground (arith, z.emptied s.next_id s.sessions h)

  pub get-Keeps :
      {A : Type 0} (sid : ℕ) (f : Session → Exec Registry A)
      → ((x : Session) (s : Registry)
          → lookup ℕ_discrete sid s.sessions ≡ some x
          → On s
          → On (f x s).1)
      → Keeps On (get sid >>= f)
  unfolding get ensure_open
  get-Keeps sid f kf s h = elim (Option-cases (lookup ℕ_discrete sid s.sessions)) [
    | inl absent ↦ ground arith
    | inr (x, found) ↦ ground (arith, kf x s found h)
  ]

  pub next_feedback_sequence-Keeps : (sid : ℕ) → Keeps On (next_feedback_sequence sid)
  unfolding next_feedback_sequence
  next_feedback_sequence-Keeps sid = get-Keeps sid _ (λ x s found h. ground (
    arith,
    z.renewed sid x (record x { last_tx = x.last_tx + 1 }) s.next_id s.sessions found (omega arith)
        h,
  ))
