-- ===== src/Gateway/Registry/Controllers.antt =====
-- icd_gateway/session.py: `identity`, `roles`, `run_session_ids` and `registered_controller`.
use hil_simulation.Common.{
  ℕ, ◌+◌, Bool, ◌&&◌, Option, some, none, List, [], ◌∷◌, leb, ltb, ◌==◌, get_elem?, if◌then◌else◌,
}
use hil_simulation.Common.Dict.{Dict}
use hil_simulation.Common.Result.{
  Result, ok, err, schema, stale_session, authorization, control_owner,
}
use hil_simulation.Common.Exec.{Exec, ◌>>=◌, ◌>>◌, pure, lift, gets, check, some_or}
use hil_simulation.Runtime.Contract.{Identity, session_open, contains_id, validate_payload}
use hil_simulation.Gateway.Registry.State.{
  Binding, Grant, Session, Setup, Registry, clock, check_clock, get,
}
use hil_simulation.Gateway.Registry.Accept.{identity_eq, grant_at}

-- `RegisteredController`
pub record RegisteredController : Type 0 where
  pub session_id : ℕ
  pub identity : Identity
  pub roles : List ℕ
  pub bindings : List Binding
  pub nonce : ℕ
  pub observed_ns : ℕ
  pub deadline_ns : ℕ
  pub last_rx_sequence : ℕ

-- Two identities of one run: all fields but the source agree.
abbrev pub same_run : Identity → Identity → Bool
same_run a b =
    a.run_id == b.run_id
    && a.vehicle_id == b.vehicle_id
    && a.scenario_id == b.scenario_id
    && a.model_id == b.model_id
    && a.definition_version == b.definition_version

-- The first grant of an identity, counted from `index`.
pub find_grant : Identity → List Grant → ℕ → Option ℕ
find_grant identity [] index = none
find_grant identity (g ∷ gs) index =
    let later = find_grant identity gs (index + 1) in
    if identity_eq g.identity identity then some index else later

-- The sessions of a grant whose lease is not over.
pub live_of : ℕ → ℕ → Dict ℕ Session → List (ℕ × Session)
live_of grant now [] = []
live_of grant now ((sid, x) ∷ rest) =
    let others = live_of grant now rest in
    if x.grant == grant && ltb now x.deadline_ns then (sid, x) ∷ others else others

-- Those that hold a role.
pub with_role : ℕ → List (ℕ × Session) → List (ℕ × Session)
with_role role [] = []
with_role role ((sid, x) ∷ rest) =
    let others = with_role role rest in
    if contains_id role x.roles then (sid, x) ∷ others else others

-- The one controller among the live sessions of a producer.
pub sole_controller : List (ℕ × Session) → List (ℕ × Session) → Result (ℕ × Session)
sole_controller [] controllers = err stale_session
sole_controller (x ∷ live) [] = err authorization
sole_controller (x ∷ live) (c ∷ []) = ok c
sole_controller (x ∷ live) (c ∷ d ∷ more) = err control_owner

module _ (u : Setup) where
  pub session_identity : ℕ → Exec Registry Identity
  session_identity sid = do session ← get sid; grant ← grant_at u session.grant; pure grant.identity

  pub session_roles : ℕ → Exec Registry (List ℕ)
  session_roles sid = do session ← get sid; pure session.roles

  -- The sessions whose grant is of the same run; a grant index that is out of range is an error of the
  -- source's tuple, and selects nothing here.
  pub same_run_sessions : Identity → Dict ℕ Session → List ℕ
  same_run_sessions identity [] = []
  same_run_sessions identity ((sid, x) ∷ rest) =
      let others = same_run_sessions identity rest in
      elim (get_elem? u.grants x.grant) [
        | none ↦ others
        | some g ↦ if same_run g.identity identity then sid ∷ others else others
      ]

  pub run_session_ids : ℕ → ℕ → Exec Registry (List ℕ)
  run_session_ids origin now = do
    check (leb 1 origin && leb origin 0xffff_ffff) schema
    check (leb now 0xffff_ffff_ffff_ffff) schema
    check_clock now
    session ← get origin
    check (ltb now session.deadline_ns) stale_session
    grant ← grant_at u session.grant
    selected ← gets (λ s. same_run_sessions grant.identity s.sessions)
    clock now
    pure selected

  -- `controller` is the number of the role "CONTROLLER".
  pub registered_controller : ℕ → Identity → ℕ → Exec Registry RegisteredController
  registered_controller controller identity now = do
    lift (
        validate_payload u.contract 1
          (session_open identity (controller ∷ []) u.contract.baseline_sha256 0))
    clock now
    index ← some_or authorization (find_grant identity u.grants 0)
    grant ← grant_at u index
    check (contains_id controller grant.roles) authorization
    live ← gets (λ s. live_of index now s.sessions)
    found ← lift (sole_controller live (with_role controller live))
    pure (record {
      session_id = found.0;
      identity = grant.identity;
      roles = found.1.roles;
      bindings = grant.bindings;
      nonce = found.1.nonce;
      observed_ns = now;
      deadline_ns = found.1.deadline_ns;
      last_rx_sequence = found.1.last_rx;
    })
