-- ===== src/Gateway/ModelQueue/Steps.antt =====
-- icd_gateway/model_queue.py: `expire`, `begin_step` and `enqueue` keep the accounting of the queue.
use hil_simulation.Common.{
  ℕ, ◌+◌, ◌≤◌, ◌≡◌, refl, sym, ap, ◌∙◌, subst, Bool, not, ◌++◌, leb, ◌==◌, length, ℕ_discrete,
  arith,
}
use hil_simulation.Common.Dict.{lookup, insert, total}
use hil_simulation.Common.Dict.Laws.{Distinct}
use hil_simulation.Common.Result.{state, model, out_of_order, range}
use hil_simulation.Common.Exec.{
  ◌>>=◌, ◌>>◌, pure, gets, some_or, Keeps, Keeps-bind, Keeps-check, Keeps-some_or,
}
use hil_simulation.Gateway.Registry.State.{Pair-discrete, expire as registry_expire}
use hil_simulation.Gateway.ModelQueue.State.{
  StepBatch, Queue, World, stored, on_registry, on_queue, clock, check_clock, values_of,
}
use hil_simulation.Gateway.ModelQueue.{
  Deployment, expire, begin_step, take_due, stale_pending, stale_writers,
}
use hil_simulation.Gateway.ModelQueue.Bounds.{
  IsValid, Keyed, Entries, boundary-IsValid, discard_all-IsValid,
}

-- `IsValid` looks at the entries and at the stored bytes only.
pub moved :
    (capacity : ℕ) (q q' : Queue)
    → q.pending ≡ q'.pending
    → q.stored_bytes ≡ q'.stored_bytes
    → IsValid capacity q
    → IsValid capacity q'
moved capacity q q' same bytes v = record {
  distinct = subst (λ d. Distinct Pair-discrete d) same v.distinct;
  keyed = subst Keyed same v.keyed;
  counted = sym bytes ∙ v.counted ∙ ap (total stored) same;
  bounded = subst (λ (d : Entries). length d ≤ capacity) same v.bounded;
}

module _ (d : Deployment) (capacity : ℕ) where
  -- The accounting of the queue, in the state that it shares with the registry.
  abbrev pub IsSound : World → Type 0
  IsSound w = IsValid capacity w.queue

  clock-Keeps : (now : ℕ) → Keeps IsSound (clock now)
  unfolding clock check_clock
  clock-Keeps now w v =
      ground (arith, moved capacity w.queue (record w.queue { last_now = now }) refl refl v)

  on_queue-Keeps :
      (f : Queue → Queue) (w : World) → IsValid capacity (f w.queue) → IsSound (on_queue f w).1
  on_queue-Keeps f w v = v

  expire-Keeps_queue : (now : ℕ) → Keeps IsSound (expire d now)
  unfolding expire
  expire-Keeps_queue now = Keeps-bind IsSound (clock now) _ (clock-Keeps now) (λ _.
      Keeps-bind IsSound (on_registry (registry_expire now)) _ (λ w v. v)
        (λ late w v.
          discard_all-IsValid capacity
            (stale_pending w.registry.sessions w.queue.pending
              (stale_writers w.registry.sessions w.queue.writers))
            v))

  -- The last part of `begin_step`, once the boundary may begin.
  boundary-Keeps :
      (model_id step now : ℕ)
      → Keeps {A = StepBatch} IsSound (
          expire d now >>= λ rejected.
          on_queue (λ q. record q { steps = insert ℕ_discrete model_id step q.steps })
          >> (gets (λ w. w.queue) >>= λ q.
              on_queue (λ q'. (take_due d model_id step now (values_of q.pending) q).1)
              >> pure (record {
                ready = (take_due d model_id step now (values_of q.pending) q).0.ready;
                rejected =
                    rejected ++ (take_due d model_id step now (values_of q.pending) q).0.rejected;
              })))
  boundary-Keeps model_id step now =
      Keeps-bind IsSound (expire d now) _ (expire-Keeps_queue now) (λ rejected w v.
        let q : Queue = record w.queue { steps = insert ℕ_discrete model_id step w.queue.steps } in
        boundary-IsValid d capacity model_id step now {q = q}
          (moved capacity w.queue q refl refl v))

  begin_step-Keeps :
      (model_id step : ℕ) (running : Bool) (now : ℕ)
      → Keeps IsSound (begin_step d model_id step running now)
  unfolding begin_step
  begin_step-Keeps model_id step running now =
      Keeps-bind IsSound (clock now) _ (clock-Keeps now) (λ _.
        Keeps-check IsSound running state _ (λ w v.
          Keeps-bind IsSound (some_or model (lookup ℕ_discrete model_id w.queue.steps)) _
            (Keeps-some_or IsSound model (lookup ℕ_discrete model_id w.queue.steps))
            (λ current. Keeps-check IsSound (not (step == 0)) out_of_order _ (
              Keeps-check IsSound (leb step d.setup.policy.max_run_duration_steps) range _ (
                Keeps-check IsSound (step == current + 1) out_of_order _
                  (boundary-Keeps model_id step now))))
            w v))

  -- `begin_step` keeps the accounting, whether it returns or raises: each key has one entry, which is
  -- under its own key, the stored bytes are the sum over the entries, and there are at most `capacity`
  -- entries.
  pub begin_step-IsValid :
      (model_id step : ℕ) (running : Bool) (now : ℕ) (w : World)
      → IsValid capacity w.queue
      → IsValid capacity (begin_step d model_id step running now w).1.queue
  begin_step-IsValid model_id step running now w v = begin_step-Keeps model_id step running now w v

  -- The queue's `expire` keeps the accounting, whether it returns or raises: each key has one entry,
  -- which is under its own key, the stored bytes are the sum over the entries, and there are at most
  -- `capacity` entries.
  pub expire-IsValid_queue :
      (now : ℕ) (w : World) → IsValid capacity w.queue → IsValid capacity (expire d now w).1.queue
  expire-IsValid_queue now w v = expire-Keeps_queue now w v
