-- ===== src/Gateway/ModelQueue/Enqueue.antt =====
-- icd_gateway/model_queue.py: `enqueue` keeps the accounting of the queue.
use hil_simulation.Common.{
  ℕ, ◌+◌, ◌*◌, ◌-◌, ◌<◌, ◌≡◌, refl, sym, subst, Bool, true, false, ◌&&◌, Option, some, none, List,
  [], ◌∷◌, leb, ltb, ◌==◌, length, ℕ_discrete, arith, Bool-cases, inl, inr, ltb→lt,
}
use hil_simulation.Common.Dict.{lookup, insert}
use hil_simulation.Common.Dict.Laws.{insert-Distinct, total-insert_new, length-insert_new}
use hil_simulation.Common.Result.{
  Code, Result, ok, err, state, target_missing, control_owner, buffer_full, late, range, expired,
}
use hil_simulation.Common.Exec.{
  Exec, continue, ◌>>=◌, ◌>>◌, pure, lift, check, some_or, Keeps, Keeps-check, Keeps-some_or,
}
use hil_simulation.Runtime.Contract.{Message, validate_message, to_36, entry}
use hil_simulation.Gateway.Registry.State.{Pair-discrete, get, expire as registry_expire}
use hil_simulation.Gateway.Registry.Accept.{require_admitted, claim_admitted, millisecond}
use hil_simulation.Gateway.ModelQueue.State.{
  Value, Source, Lane, Pending, Queue, World, stored, on_registry, on_queue, clock, check_clock,
}
use hil_simulation.Gateway.ModelQueue.{
  Deployment, enqueue, session_model, check_step, check_source, own_role, claim_paths, add_pending,
  declared, is_none,
}
use hil_simulation.Gateway.ModelQueue.Bounds.{IsValid, Keyed, Entries}
use hil_simulation.Gateway.ModelQueue.Steps.{moved}

claim_paths-pending :
    (d : Deployment) (p : Pending) (vs : List Value) (q : Queue)
    → (q.pending ≡ (claim_paths d p vs q).pending)
      × (q.stored_bytes ≡ (claim_paths d p vs q).stored_bytes)
unfolding claim_paths
claim_paths-pending d p [] q = (refl, refl)
claim_paths-pending d p (v ∷ vs) q = claim_paths-pending d p vs _

insert-Keyed : (p : Pending) (d : Entries) → Keyed d → Keyed (insert Pair-discrete p.key p d)
unfolding insert
insert-Keyed p [] h = (refl, tt)
insert-Keyed p ((key, x) ∷ rest) h = ground (arith, insert-Keyed p rest h.1, h.0, h.1)

add_pending-IsValid :
    (d : Deployment) (capacity : ℕ) (p : Pending) (q : Queue)
    → lookup Pair-discrete p.key q.pending ≡ none
    → length q.pending < capacity
    → IsValid capacity q
    → IsValid capacity (add_pending d p q)
unfolding add_pending
add_pending-IsValid d capacity p q absent room v =
    let added : Queue = record q {
      pending = insert Pair-discrete p.key p q.pending;
      stored_bytes = q.stored_bytes + stored p;
    } in
    let (same, bytes) = claim_paths-pending d p p.values added in
    moved capacity added (add_pending d p q) same bytes (record {
      distinct = insert-Distinct Pair-discrete p.key p q.pending v.distinct;
      keyed = insert-Keyed p q.pending v.keyed;
      counted =
          omega (arith, v.counted, total-insert_new Pair-discrete stored p.key p q.pending absent);
      bounded = omega (arith, room, length-insert_new Pair-discrete p.key p q.pending absent);
    })

module _ (d : Deployment) (m : Message) where
  abbrev capacity : ℕ
  capacity = d.setup.policy.queue_capacity

  abbrev pub key : ℕ × ℕ
  key = (m.header.session_id, m.header.sequence)

  -- The accounting holds and the message's key has no entry.
  abbrev IsReady : World → Type 0
  IsReady w = IsValid capacity w.queue × (lookup Pair-discrete key w.queue.pending ≡ none)

  abbrev IsSound : World → Type 0
  IsSound w = IsValid capacity w.queue

  claimed-IsSound :
      (p : Pending) (now : ℕ) (w : World)
      → p.key ≡ key
      → length w.queue.pending < capacity
      → IsReady w
      → IsSound
          ((on_registry (claim_admitted d.setup m now) >> (on_queue (add_pending d p) >> pure p))
            w).1
  claimed-IsSound p now w mine room h =
      let absent = subst (λ k. lookup Pair-discrete k w.queue.pending ≡ none) (sym mine) h.1 in
      let added = add_pending-IsValid d capacity p w.queue absent room h.0 in
      ground (arith, added, h.0)

  -- The last part of `enqueue`, from the tests of the paths on.
  commit-IsSound :
      (p : Pending) (free : Bool) (now : ℕ) (w : World)
      → p.key ≡ key
      → IsReady w
      → IsSound
          ((check free control_owner
              >> (check (ltb (length w.queue.pending) capacity) buffer_full
                  >> (on_registry (claim_admitted d.setup m now)
                      >> (on_queue (add_pending d p) >> pure p))))
            w).1
  commit-IsSound p false now w mine h = h.0
  commit-IsSound p true now w mine h = elim (Bool-cases (ltb (length w.queue.pending) capacity)) [
    | inr full ↦ rw full (h.0)
    | inl room ↦ rw room (claimed-IsSound p now w mine (ltb→lt _ _ room) h)
  ]

  -- From a ready state to a sound one, whatever the first part does.
  abbrev Ends : {A : Type 0} → Exec World A → Type 0
  Ends f = (w : World) → IsReady w → IsSound (f w).1

  Ends-bind :
      {A B : Type 0} (f : Exec World A) (g : A → Exec World B)
      → Keeps IsReady f
      → ((a : A) → Ends (g a))
      → Ends (f >>= g)
  Ends-bind {A} {B} f g kf eg w h = go (f w).0 (f w).1 (kf w h)
    where
      go : (r : Result A) (w' : World) → IsReady w' → IsSound (continue g r w').1
      go (ok a) w' h' = eg a w' h'
      go (err code) w' h' = h'.0

  clock-IsReady : (now : ℕ) → Keeps IsReady (clock now)
  unfolding clock check_clock
  clock-IsReady now w h =
      ground
        (arith, moved capacity w.queue (record w.queue { last_now = now }) refl refl h.0, h.0, h.1)

  check-IsReady : (b : Bool) (code : Code) → Keeps IsReady (check b code)
  check-IsReady true code w h = h
  check-IsReady false code w h = h

  check_step-IsReady : (step current : ℕ) → Keeps IsReady (check_step d step current)
  unfolding check_step
  check_step-IsReady step current =
      Keeps-check IsReady (leb step d.setup.policy.max_run_duration_steps) range _ (
        Keeps-check IsReady (ltb current step) late _
          (check-IsReady (leb (step - current) d.setup.policy.max_ahead_steps) range))

  check_source-IsReady :
      (role mid model_id : ℕ) (source : Option Source) (lane : Option Lane) (received_ns now : ℕ)
      → Keeps IsReady (check_source d role mid model_id source lane received_ns now)
  unfolding check_source
  check_source-IsReady role mid model_id source lane received_ns now w h =
      elim (Bool-cases (role == d.controller)) [
        | inl yes_controller ↦ rw yes_controller (
            Keeps-check IsReady (declared d mid model_id source lane) control_owner _
              (check-IsReady
                (ltb (now - received_ns) (d.setup.policy.control_timeout_ms * millisecond)) expired)
              w h)
        | inr no_controller ↦
            rw no_controller (check-IsReady (is_none source && is_none lane) control_owner w h)
      ]

  -- From a queue whose accounting holds and that has no entry under the message's key, `enqueue` leaves
  -- one whose accounting holds, whether it returns or raises: each key has one entry, which is under its
  -- own key, the stored bytes are the sum over the entries, and there are at most `queue_capacity`
  -- entries.
  pub enqueue-IsValid :
      (running : Bool) (now : ℕ) (source : Option Source) (lane : Option Lane) (w : World)
      → IsValid capacity w.queue
      → lookup Pair-discrete key w.queue.pending ≡ none
      → IsValid capacity (enqueue d m running now source lane w).1.queue
  unfolding enqueue
  enqueue-IsValid running now source lane w v absent =
      Ends-bind (clock now) _ (clock-IsReady now)
        (λ _. Ends-bind (check running state) _ (check-IsReady running state) (λ _.
          Ends-bind (lift (validate_message d.setup.contract (some to_36) none m)) _ (λ w h. h)
            (λ _.
              Ends-bind (on_registry (registry_expire now)) _ (λ w h. h)
                (λ _.
                  Ends-bind (on_registry (session_model d m.header.session_id)) _ (λ w h. h)
                    (λ model_id w h.
                      Ends-bind (some_or target_missing (lookup ℕ_discrete model_id w.queue.steps))
                        _
                        (Keeps-some_or IsReady target_missing
                          (lookup ℕ_discrete model_id w.queue.steps))
                        (λ current.
                          Ends-bind (lift (d.map_message model_id m)) _ (λ w h. h)
                            (λ values.
                              Ends-bind (lift (entry d.setup.contract m.message_id)) _ (λ w h. h)
                                (λ e.
                                  Ends-bind (on_registry (get m.header.session_id)) _ (λ w h. h)
                                    (λ session.
                                      Ends-bind (lift (own_role d e.role session.roles)) _
                                        (λ w h. h)
                                        (λ role.
                                          Ends-bind (on_registry (require_admitted d.setup m now)) _
                                            (λ w h. h)
                                            (λ received_ns.
                                              Ends-bind
                                                (lift (d.payload_encode m.message_id m.payload)) _
                                                (λ w h. h)
                                                (λ bytes.
                                                  Ends-bind
                                                    (check_step d m.header.target_step current) _
                                                    (check_step-IsReady m.header.target_step
                                                      current)
                                                    (λ _.
                                                      Ends-bind
                                                        (check_source d role m.message_id model_id
                                                          source lane received_ns now)
                                                        _
                                                        (check_source-IsReady role m.message_id
                                                          model_id source lane received_ns now)
                                                        (λ _ w h.
                                                          commit-IsSound _ _ now w refl h)))))))))
                        w h)))))
        w (v, absent)
