-- ===== src/Gateway/Guards/External.antt =====
-- icd_gateway/semantic_guards.py: `external_control_owner`, which asks the receiver's registry for the
-- selector and for the producer of control.
use hil_simulation.Common.{ℕ, Bool, false, ◌||◌, Option, some, none, ◌==◌, if◌then◌else◌}
use hil_simulation.Common.Result.{authorization, model, hash}
use hil_simulation.Common.Exec.{Exec, ◌>>=◌, ◌>>◌, pure, lift, check}
use hil_simulation.Runtime.Contract.{Identity, Message, ControlSource, no_source, contains_id}
use hil_simulation.Gateway.Registry.State.{Setup, Registry}
use hil_simulation.Gateway.Registry.Accept.{observe_admitted}
use hil_simulation.Gateway.Registry.Controllers.{
  RegisteredController, same_run, session_identity, session_roles, registered_controller,
}
use hil_simulation.Gateway.Guards.{
  Gate, ModelView, OwnerDecision, check_message, owner_of, is_internal, source_eq, decide_owner,
}

-- `RegisteredOwnerDecision`
pub record RegisteredOwner : Type 0 where
  pub decision : OwnerDecision
  pub producer : Option RegisteredController

-- `controller` and `stimulus` are the numbers of the roles, and `same_components` says that the registry
-- has the verified contract of the gate.
module _ (g : Gate) (u : Setup) (controller stimulus : ℕ) (same_components : Bool) where
  -- The producer of the command, of the run of the selector.
  pub decide_producer :
      Message → ModelView → ControlSource → Identity → Identity → ℕ → Exec Registry RegisteredOwner
  decide_producer m view declared selector producer_identity now = do
    producer ← registered_controller u controller producer_identity now
    check (same_run producer.identity selector) authorization
    decision ← lift (decide_owner g m view declared (contains_id controller producer.roles) false)
    pure (record { decision = decision; producer = some producer })

  pub decide_local : Message → ModelView → ControlSource → Exec Registry RegisteredOwner
  decide_local m view declared = do
    decision ← lift (decide_owner g m view declared false false)
    pure (record { decision = decision; producer = none })

  pub external_control_owner :
      Message → ModelView → Identity → ControlSource → ℕ → Exec Registry RegisteredOwner
  external_control_owner m view producer_identity declared now = do
    lift (check_message g m view 6)
    check same_components hash
    at ← observe_admitted u m now
    selector ← session_identity u m.header.session_id
    roles ← session_roles u m.header.session_id
    check (contains_id stimulus roles) authorization
    check (selector.model_id == view.model_id) model
    c ← lift (owner_of g m.payload)
    if source_eq c.source no_source || is_internal g c.input_lane
        then decide_local m view declared
        else decide_producer m view declared selector producer_identity now
