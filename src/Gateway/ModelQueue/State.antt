-- ===== src/Gateway/ModelQueue/State.antt =====
-- icd_gateway/model_queue.py: the queue's data, `_clock`, `_remove`, `discard_session` and `clear`.
use hil_simulation.Common.{
  ℕ, ◌+◌, ◌-◌, Bool, true, not, Option, List, [], ◌∷◌, leb, ◌==◌, ℕ_discrete, if◌then◌else◌,
}
use hil_simulation.Common.Dict.{Dict, remove, keep}
use hil_simulation.Common.Result.{Code, schema, state}
use hil_simulation.Common.Exec.{Exec, ◌>>=◌, ◌>>◌, gets, modify, check}
use hil_simulation.Gateway.Registry.State.{Registry, Pair-discrete}

-- A value that a message writes: its target path, by a number, and the length of its JSON.
pub record Value : Type 0 where
  pub path : ℕ
  pub json_bytes : ℕ

pub data Source : Type 0 where
  demo_mission px4_sitl physical_uut : Source

pub data Lane : Type 0 where
  flight_control actuator : Lane

-- `(sid, role, control_source, input_lane)`
pub record Writer : Type 0 where
  pub session : ℕ
  pub role : ℕ
  pub source : Option Source
  pub lane : Option Lane

-- `PendingInput`; of the message's JSON there is its length, and no hash.
pub record Pending : Type 0 where
  pub key : ℕ × ℕ
  pub model_id : ℕ
  pub message_id : ℕ
  pub target_step : ℕ
  pub received_ns : ℕ
  pub json_bytes : ℕ
  pub values : List Value
  pub writer : Writer

pub record Rejected : Type 0 where
  pub pending : Pending
  pub error : Code

pub record StepBatch : Type 0 where
  pub ready : List Pending
  pub rejected : List Rejected

-- `steps` has one entry for each model with a binding map. `last_now` starts at -1: here 0.
pub record Queue : Type 0 where
  pub steps : Dict ℕ ℕ
  pub pending : Dict (ℕ × ℕ) Pending
  pub writers : Dict (ℕ × ℕ) Writer
  pub reservations : Dict (ℕ × ℕ × ℕ) (ℕ × ℕ)
  pub stored_bytes : ℕ
  pub last_now : ℕ
  pub closed : Bool

-- The queue, and the registry that it shares with the receiver.
pub record World : Type 0 where
  pub registry : Registry
  pub queue : Queue

unfoldable pub Triple-discrete : Discrete (ℕ × ℕ × ℕ)
Triple-discrete = hlevel ℕ_discrete

abbrev pub sum_json : List Value → ℕ
sum_json [] = 0
sum_json (v ∷ vs) = v.json_bytes + sum_json vs

-- `PendingInput.stored_bytes`
abbrev pub stored : Pending → ℕ
stored p = p.json_bytes + sum_json p.values

-- A method of the registry that the queue calls.
abbrev pub on_registry : {A : Type 0} → Exec Registry A → Exec World A
on_registry m w = ((m w.registry).0, record w { registry = (m w.registry).1 })

abbrev pub on_queue : (Queue → Queue) → Exec World (Unit {0})
on_queue f = modify (λ w. record w { queue = f w.queue })

unfoldable pub check_clock : ℕ → Exec World (Unit {0})
check_clock now = do
  q ← gets (λ w. w.queue)
  check (not q.closed) state
  check (leb q.last_now now) schema

-- `_clock`
unfoldable pub clock : ℕ → Exec World (Unit {0})
unfolding check_clock
clock now = do check_clock now; on_queue (λ q. record q { last_now = now })

-- The reservations that `_remove` deletes; one that is not there is an error of the source's dict, and
-- nothing here.
pub release : ℕ → ℕ → List Value → Dict (ℕ × ℕ × ℕ) (ℕ × ℕ) → Dict (ℕ × ℕ × ℕ) (ℕ × ℕ)
release model_id step [] d = d
release model_id step (v ∷ vs) d =
    release model_id step vs (remove Triple-discrete (model_id, step, v.path) d)

-- `_remove`
unfoldable pub drop_pending : Pending → Queue → Queue
drop_pending p q = record q {
  pending = remove Pair-discrete p.key q.pending;
  stored_bytes = q.stored_bytes - stored p;
  reservations = release p.model_id p.target_step p.values q.reservations;
}

-- `_pending.values()` of a session.
unfoldable pub of_session : ℕ → Dict (ℕ × ℕ) Pending → List Pending
of_session sid [] = []
of_session sid ((key, p) ∷ rest) =
    let others = of_session sid rest in if p.key.0 == sid then p ∷ others else others

unfoldable pub drop_all_pending : List Pending → Queue → Queue
drop_all_pending [] q = q
drop_all_pending (p ∷ ps) q = drop_all_pending ps (drop_pending p q)

-- `discard_session`: what it removes, and the queue after it.
unfoldable pub discard_session : ℕ → Queue → List Pending × Queue
discard_session sid q =
    let removed = of_session sid q.pending in
    let dropped = drop_all_pending removed q in
    (removed, record dropped { writers = keep (λ key w. not (w.session == sid)) dropped.writers })

abbrev pub values_of : Dict (ℕ × ℕ) Pending → List Pending
values_of [] = []
values_of ((key, p) ∷ rest) = p ∷ values_of rest

pub clear : Queue → List Pending × Queue
clear q = (
  values_of q.pending,
  record q { pending = []; writers = []; reservations = []; stored_bytes = 0 },
)

unfoldable pub close : Queue → List Pending × Queue
unfolding clear
close q = let (removed, cleared) = clear q in (removed, record cleared { closed = true })
