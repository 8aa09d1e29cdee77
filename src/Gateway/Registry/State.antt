-- ===== src/Gateway/Registry/State.antt =====
-- icd_gateway/session.py: the registry's data, its clock, `expire`, `revoke`, `close` and look-ups.
use hil_simulation.Common.{
  ℕ, ◌+◌, Bool, true, false, ◌&&◌, not, Option, some, none, List, [], ◌∷◌, ◌++◌, leb, ltb, ◌==◌,
  max, ℕ_discrete, if◌then◌else◌,
}
use hil_simulation.Common.Dict.{Dict, lookup, insert, remove, keep}
use hil_simulation.Common.Result.{Code, schema, state, stale_session}
use hil_simulation.Common.Exec.{Exec, ◌>>=◌, ◌>>◌, pure, gets, modify, check, some_or}
use hil_simulation.Runtime.Contract.{Contract, Identity, Message, Transport}

-- `PeerBinding`; the names of a channel and of a peer are numbers, since they are only compared.
pub record Binding : Type 0 where
  pub channel : ℕ
  pub transport : Transport
  pub peer : ℕ

unfoldable pub Transport-discrete : Discrete Transport
Transport-discrete = hlevel

unfoldable pub Binding-discrete : Discrete Binding
Binding-discrete = hlevel (ℕ_discrete, Transport-discrete)

unfoldable pub Pair-discrete : Discrete (ℕ × ℕ)
Pair-discrete = hlevel ℕ_discrete

-- `SourceGrant`; roles are numbers.
pub record Grant : Type 0 where
  pub identity : Identity
  pub roles : List ℕ
  pub bindings : List Binding

-- `_Session`
pub record Session : Type 0 where
  pub grant : ℕ
  pub roles : List ℕ
  pub nonce : ℕ
  pub deadline_ns : ℕ
  pub last_rx : ℕ
  pub last_tx : ℕ

-- `_Record`
pub record Admission : Type 0 where
  pub digest : ℕ
  pub deadline_ns : ℕ
  pub received_ns : ℕ
  pub responses : Option (List Message)
  pub queued : Bool
  pub resource_deadline_ns : Option ℕ

-- `Decision`
pub record Decision : Type 0 where
  pub session_id : ℕ
  pub replay : Option (List Message)

-- The times and sizes of `catalogue["policy"]` that the gateway reads.
pub record Policy : Type 0 where
  pub session_lease_ms : ℕ
  pub duplicate_retention_ms : ℕ
  pub duplicate_cache_messages : ℕ
  pub resource_commit_timeout_ms : ℕ
  pub control_timeout_ms : ℕ
  pub max_run_duration_steps : ℕ
  pub max_ahead_steps : ℕ
  pub queue_capacity : ℕ

-- What `__init__` fixes: the grants, and the grant of each link. `digest` is SHA-256 of a message's
-- canonical JSON, and `encoded_bytes` the length of that JSON.
pub record Setup : Type 0 where
  pub contract : Contract
  pub policy : Policy
  pub max_sessions : ℕ
  pub grants : List Grant
  pub links : Dict Binding ℕ
  pub digest : Message → ℕ
  pub encoded_bytes : Message → ℕ

-- `_last_now` starts at -1, which no time is below: here 0. `cancelled` are the calls of the attached
-- resource worker's `cancel_session`, in order.
pub record Registry : Type 0 where
  pub sessions : Dict ℕ Session
  pub opens : Dict (ℕ × ℕ) (ℕ × ℕ × ℕ)
  pub records : Dict (ℕ × ℕ) Admission
  pub next_id : ℕ
  pub last_now : ℕ
  pub worker_attached : Bool
  pub queue_attached : Bool
  pub cancelled : List ℕ
  pub closed : Bool

-- The state after `__init__`, whose first id is `secrets.randbelow(2**31) + 1`.
abbrev pub initial : ℕ → Registry
initial random = record {
  sessions = [];
  opens = [];
  records = [];
  next_id = random + 1;
  last_now = 0;
  worker_attached = false;
  queue_attached = false;
  cancelled = [];
  closed = false;
}

unfoldable pub ensure_open : Exec Registry (Unit {0})
ensure_open s = check (not s.closed) state s

unfoldable pub check_clock : ℕ → Exec Registry (Unit {0})
unfolding ensure_open
check_clock now s = (ensure_open >> check (leb s.last_now now) schema) s

-- `_clock`
unfoldable pub clock : ℕ → Exec Registry (Unit {0})
unfolding check_clock
clock now = do check_clock now; modify (λ s. record s { last_now = now })

-- The resource worker's `cancel_session`, if one is attached.
abbrev pub cancel : List ℕ → Registry → Registry
cancel ids s = record s {
  cancelled = if s.worker_attached then s.cancelled ++ ids else s.cancelled;
}

-- `[sid for sid, session in sessions.items() if now >= session.deadline_ns]`
unfoldable pub late_sessions : ℕ → Dict ℕ Session → List ℕ
late_sessions now [] = []
late_sessions now ((sid, session) ∷ rest) =
    let others = late_sessions now rest in
    if leb session.deadline_ns now then sid ∷ others else others

-- `max(deadline_ns, resource_deadline_ns or 0)`
abbrev pub retained_until : Admission → ℕ
retained_until a = elim a.resource_deadline_ns [
  | none ↦ a.deadline_ns
  | some d ↦ max a.deadline_ns d
]

-- `expire`, past its clock.
unfoldable pub purge : ℕ → Registry → Registry
purge now s = cancel (late_sessions now s.sessions) (record s {
  sessions = keep (λ sid session. ltb now session.deadline_ns) s.sessions;
  records = keep (λ key admission. ltb now (retained_until admission)) s.records;
  opens = keep (λ key entry. ltb now entry.2) s.opens;
})

unfoldable pub expire : ℕ → Exec Registry (List ℕ)
unfolding clock
expire now = do
  clock now
  late ← gets (λ s. late_sessions now s.sessions)
  modify (purge now)
  pure late

-- `_get`
unfoldable pub get : ℕ → Exec Registry Session
unfolding ensure_open
get sid = do
  ensure_open
  found ← gets (λ s. lookup ℕ_discrete sid s.sessions)
  some_or stale_session found

unfoldable pub revoke : ℕ → Exec Registry (Unit {0})
unfolding ensure_open
revoke sid = do
  ensure_open
  modify (λ s. record s { sessions = remove ℕ_discrete sid s.sessions })
  modify (λ s. if leb 1 sid && ltb sid 0x1_0000_0000 then cancel (sid ∷ []) s else s)

-- `retire`, without the model queue's `discard_session`, which follows it.
unfoldable pub retire : ℕ → Exec Registry (Unit {0})
unfolding ensure_open revoke
retire sid = do ensure_open; check (leb 1 sid && ltb sid 0x1_0000_0000) schema; revoke sid

-- `close`, without the closing of the model queue and of the resource worker.
unfoldable pub close : Registry → Registry
close s =
    if s.closed then s else record s { sessions = []; records = []; opens = []; closed = true }

unfoldable pub attach_model_queue : Exec Registry (Unit {0})
unfolding ensure_open
attach_model_queue = do
  ensure_open
  attached ← gets (λ s. s.queue_attached)
  check (not attached) state
  modify (λ s. record s { queue_attached = true })

unfoldable pub attach_resource_worker : Exec Registry (Unit {0})
unfolding ensure_open
attach_resource_worker = do
  ensure_open
  attached ← gets (λ s. s.worker_attached)
  check (not attached) state
  modify (λ s. record s { worker_attached = true })

-- `next_feedback_sequence`
unfoldable pub next_feedback_sequence : ℕ → Exec Registry ℕ
unfolding get
next_feedback_sequence sid = do
  session ← get sid
  check (not (session.last_tx == 0xffff_ffff)) Code.capacity
  let next = session.last_tx + 1
  modify (λ s. record s {
    sessions = insert ℕ_discrete sid (record session { last_tx = next }) s.sessions;
  })
  pure next
