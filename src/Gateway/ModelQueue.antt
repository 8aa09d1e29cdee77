-- ===== src/Gateway/ModelQueue.antt =====
-- icd_gateway/model_queue.py: `enqueue`, `expire` and `begin_step`.
pub mod State
pub mod Bounds
pub mod Steps
pub mod Enqueue
mod Tests
use hil_simulation.Common.{
  ℕ, zero, suc, ◌+◌, ◌-◌, ◌*◌, Bool, true, false, ◌&&◌, ◌||◌, not, Option, some, none, List, [],
  ◌∷◌, ◌++◌, leb, ltb, ◌==◌, length, ℕ_discrete, if◌then◌else◌, get_elem?,
}
use hil_simulation.Common.Bytes.{Bytes}
use hil_simulation.Common.Dict.{Dict, lookup, insert}
use hil_simulation.Common.Result.{
  Code, Result, ok, err, schema, state, stale_session, model, authorization, target_missing, range,
  late, control_owner, expired, buffer_full, out_of_order, key_error,
}
use hil_simulation.Common.Exec.{Exec, ◌>>=◌, ◌>>◌, pure, lift, gets, modify, check, some_or}
use hil_simulation.Runtime.Contract.{
  Entry, Identity, Message, Payload, to_36, entry, contains_id, validate_message,
}
use hil_simulation.Gateway.Registry.State.{
  Setup, Registry, Session, Grant, Pair-discrete, get, expire as registry_expire,
}
use hil_simulation.Gateway.Registry.Accept.{grant_at, require_admitted, claim_admitted, millisecond}
use State.{
  Value, Source, demo_mission, px4_sitl, physical_uut, Lane, flight_control, actuator, Writer,
  Pending, Rejected, StepBatch, Queue, World, Triple-discrete, stored, on_registry, on_queue, clock,
  drop_pending, discard_session, values_of,
}

-- What the queue is built with. `map_message` is the binding map of a model
-- (icd_gateway/model_bindings.py), `payload_encode` the payload codec; `controller` and `quadrotor`
-- are the numbers of "CONTROLLER" and "quadrotor_hil".
pub record Deployment : Type 0 where
  pub setup : Setup
  pub map_message : ℕ → Message → Result (List Value)
  pub payload_encode : ℕ → Payload → Result Bytes
  pub controller : ℕ
  pub quadrotor : ℕ

abbrev pub lane_of : ℕ → Lane
lane_of mid = if mid == 7 || mid == 8 || mid == 9 then flight_control else actuator

abbrev pub lane_eq : Lane → Lane → Bool
lane_eq flight_control flight_control = true
lane_eq actuator actuator = true
lane_eq _ _ = false

abbrev pub source_eq : Source → Source → Bool
source_eq demo_mission demo_mission = true
source_eq px4_sitl px4_sitl = true
source_eq physical_uut physical_uut = true
source_eq _ _ = false

abbrev pub option_eq : {A : Type 0} → (A → A → Bool) → Option A → Option A → Bool
option_eq eq none none = true
option_eq eq (some a) (some b) = eq a b
option_eq eq _ _ = false

abbrev pub writer_eq : Writer → Writer → Bool
writer_eq a b =
    a.session == b.session
    && a.role == b.role
    && option_eq source_eq a.source b.source
    && option_eq lane_eq a.lane b.lane

abbrev pub is_demo : Source → Bool
is_demo demo_mission = true
is_demo _ = false

abbrev pub is_none {ℓ} : {A : Type ℓ} → Option A → Bool
is_none none = true
is_none (some a) = false

-- The union of sets of sessions, in order.
abbrev pub insert_sorted : ℕ → List ℕ → List ℕ
insert_sorted x [] = x ∷ []
insert_sorted x (y ∷ ys) =
    let rest = insert_sorted x ys in
    if x == y then y ∷ ys else (if ltb x y then x ∷ y ∷ ys else y ∷ rest)

abbrev pub stale_writers : Dict ℕ Session → Dict (ℕ × ℕ) Writer → List ℕ
stale_writers live [] = []
stale_writers live ((key, w) ∷ rest) =
    let others = stale_writers live rest in
    if is_none (lookup ℕ_discrete w.session live) then insert_sorted w.session others else others

abbrev pub stale_pending : Dict ℕ Session → Dict (ℕ × ℕ) Pending → List ℕ → List ℕ
stale_pending live [] sids = sids
stale_pending live ((key, p) ∷ rest) sids =
    let others = stale_pending live rest sids in
    if is_none (lookup ℕ_discrete p.key.0 live) then insert_sorted p.key.0 others else others

abbrev pub reject_all : Code → List Pending → List Rejected
reject_all code [] = []
reject_all code (p ∷ ps) = record { pending = p; error = code } ∷ reject_all code ps

-- The loop of `expire` over the stale sessions.
pub discard_all : List ℕ → Queue → List Rejected × Queue
discard_all [] q = ([], q)
discard_all (sid ∷ sids) q =
    let (removed, q') = discard_session sid q in
    let (rejected, q'') = discard_all sids q' in (reject_all stale_session removed ++ rejected, q'')

module _ (d : Deployment) where
  unfoldable pub expire : ℕ → Exec World (List Rejected)
  expire now = do
    clock now
    on_registry (registry_expire now)
    w ← gets (λ w. w)
    let live = w.registry.sessions
    let stale = stale_pending live w.queue.pending (stale_writers live w.queue.writers)
    let done = discard_all stale w.queue
    on_queue (λ q. done.1)
    pure done.0

  -- `registry.identity(sid)["model_id"]`
  pub session_model : ℕ → Exec Registry ℕ
  session_model sid = do
    session ← get sid
    grant ← grant_at d.setup session.grant
    pure grant.identity.model_id

  -- The tests of the target step against the model's step.
  pub check_step : ℕ → ℕ → Exec World (Unit {0})
  check_step step current = do
    check (leb step d.setup.policy.max_run_duration_steps) range
    check (ltb current step) late
    check (leb (step - current) d.setup.policy.max_ahead_steps) range

  -- The source and the lane that a message of a controller must declare, and no other may.
  abbrev pub declared : ℕ → ℕ → Option Source → Option Lane → Bool
  declared mid model_id (some source) (some lane) =
      lane_eq lane (lane_of mid) && (not (is_demo source) || model_id == d.quadrotor)
  declared mid model_id _ _ = false

  pub check_source : ℕ → ℕ → ℕ → Option Source → Option Lane → ℕ → ℕ → Exec World (Unit {0})
  check_source role mid model_id source lane received_ns now =
      if role == d.controller
      then (check (declared mid model_id source lane) control_owner
          >> check (ltb (now - received_ns) (d.setup.policy.control_timeout_ms * millisecond))
              expired)
      else check (is_none source && is_none lane) control_owner

  -- One path: it has no other writer, and no message of the same step writes it.
  abbrev pub path_free : ℕ → ℕ → Writer → Queue → Value → Bool
  path_free model_id step writer q v =
      (elim (lookup Pair-discrete (model_id, v.path) q.writers) [
        | none ↦ true
        | some owner ↦ writer_eq owner writer
      ])
      && is_none (lookup Triple-discrete (model_id, step, v.path) q.reservations)

  abbrev pub paths_free : ℕ → ℕ → Writer → Queue → List Value → Bool
  paths_free model_id step writer q [] = true
  paths_free model_id step writer q (v ∷ vs) =
      path_free model_id step writer q v && paths_free model_id step writer q vs

  -- The writers and the reservations of a new entry.
  pub claim_paths : Pending → List Value → Queue → Queue
  claim_paths p [] q = q
  claim_paths p (v ∷ vs) q = claim_paths p vs (record q {
    writers = insert Pair-discrete (p.model_id, v.path) p.writer q.writers;
    reservations = insert Triple-discrete (p.model_id, p.target_step, v.path) p.key q.reservations;
  })

  -- The commit of `enqueue`.
  pub add_pending : Pending → Queue → Queue
  add_pending p q = claim_paths p p.values (record q {
    pending = insert Pair-discrete p.key p q.pending;
    stored_bytes = q.stored_bytes + stored p;
  })

  -- `role not in roles`: the role of a message that any session may send is in no session's roles.
  abbrev pub own_role : Option ℕ → List ℕ → Result ℕ
  own_role none roles = err authorization
  own_role (some role) roles = if contains_id role roles then ok role else err authorization

  -- `running` is `state == "RUNNING"`.
  pub enqueue : Message → Bool → ℕ → Option Source → Option Lane → Exec World Pending
  enqueue m running now source lane = do
    clock now
    check running state
    lift (validate_message d.setup.contract (some to_36) none m)
    let sid = m.header.session_id
    on_registry (registry_expire now)
    model_id ← on_registry (session_model sid)
    steps ← gets (λ w. w.queue.steps)
    current ← some_or target_missing (lookup ℕ_discrete model_id steps)
    values ← lift (d.map_message model_id m)
    e ← lift (entry d.setup.contract m.message_id)
    session ← on_registry (get sid)
    role ← lift (own_role e.role session.roles)
    received_ns ← on_registry (require_admitted d.setup m now)
    lift (d.payload_encode m.message_id m.payload)
    let step = m.header.target_step
    check_step step current
    check_source role m.message_id model_id source lane received_ns now
    let writer : Writer = record { session = sid; role = role; source = source; lane = lane }
    q ← gets (λ w. w.queue)
    check (paths_free model_id step writer q values) control_owner
    check (ltb (length q.pending) d.setup.policy.queue_capacity) buffer_full
    let p : Pending = record {
      key = (sid, m.header.sequence);
      model_id = model_id;
      message_id = m.message_id;
      target_step = step;
      received_ns = received_ns;
      json_bytes = d.setup.encoded_bytes m;
      values = values;
      writer = writer;
    }
    on_registry (claim_admitted d.setup m now)
    on_queue (add_pending p)
    pure p

  -- What becomes of an entry when its model begins a step.
  abbrev pub too_old : Pending → ℕ → Bool
  too_old p now =
      p.writer.role == d.controller
      && leb (d.setup.policy.control_timeout_ms * millisecond) (now - p.received_ns)

  -- The loop of `begin_step`, over the entries as they were.
  pub take_due : ℕ → ℕ → ℕ → List Pending → Queue → StepBatch × Queue
  take_due model_id step now [] q = (record { ready = []; rejected = [] }, q)
  take_due model_id step now (p ∷ ps) q =
      let due = p.model_id == model_id && leb p.target_step step in
      let q' = if due then drop_pending p q else q in
      let (batch, q'') = take_due model_id step now ps q' in
      let refuse : Code → StepBatch =
        λ code. record batch { rejected = record { pending = p; error = code } ∷ batch.rejected } in
      let accept : StepBatch = record batch { ready = p ∷ batch.ready } in
      (
        if not due
            then batch
            else (if ltb p.target_step step
                then refuse late
                else (if too_old p now then refuse expired else accept)),
        q'',
      )

  pub begin_step : ℕ → ℕ → Bool → ℕ → Exec World StepBatch
  begin_step model_id step running now = do
    clock now
    check running state
    steps ← gets (λ w. w.queue.steps)
    current ← some_or model (lookup ℕ_discrete model_id steps)
    check (not (step == 0)) out_of_order
    check (leb step d.setup.policy.max_run_duration_steps) range
    check (step == current + 1) out_of_order
    rejected ← expire now
    on_queue (λ q. record q { steps = insert ℕ_discrete model_id step q.steps })
    q ← gets (λ w. w.queue)
    let done = take_due model_id step now (values_of q.pending) q
    on_queue (λ q'. done.1)
    pure (record { ready = done.0.ready; rejected = rejected ++ done.0.rejected })
