-- ===== src/Simulator/Source/Feedback.antt =====
-- input_simulator/model_clock.py: what a reply tells of the model's clock and of the control lease.
use hil_simulation.Common.{
  ℕ, suc, ◌+◌, ◌*◌, Bool, true, false, ◌&&◌, ◌||◌, not, Option, some, none, List, [], ◌∷◌, leb, ltb,
  ◌==◌, max, if◌then◌else◌,
}
use hil_simulation.Common.Result.{Result, ok, err, key_error}
use hil_simulation.Common.Exec.{Exec, ◌>>=◌, ◌>>◌, pure, gets, lift, modify}
use hil_simulation.Runtime.Contract.{
  Message, Payload, Ack, Status, Stage, applied, validated, ack, status, lifecycle, reset, resume,
  Capabilities, entry, contains_id, is_value,
}
use hil_simulation.Simulator.Source.State.{Profile, Probe, Source, Snapshot, Retirement, is_live}
use hil_simulation.Simulator.Source.Attempts.{implements}

abbrev pub is_applied : Stage → Bool
is_applied applied = true
is_applied _ = false

abbrev pub is_validated : Stage → Bool
is_validated validated = true
is_validated _ = false

-- `next(p for p in probes if …)`; none is an error.
unfoldable pub find_probe : (Probe → Bool) → List Probe → Result Probe
find_probe test [] = err key_error
find_probe test (p ∷ ps) = if test p then ok p else find_probe test ps

abbrev pub publishes : Option Capabilities → ℕ → Bool
publishes none probe = false
publishes (some c) probe = contains_id probe c.probes

abbrev pub ends_epoch : Payload → Bool
ends_epoch (lifecycle c) = elim c.action [ reset ↦ true | resume ↦ true | _ ↦ false ]
ends_epoch _ = false

-- The reply is fresh, timely, and of the session of its request.
abbrev pub concerns : Message → Message → ℕ → ℕ → Bool → Source → Bool
concerns request reply started completed fresh s =
    fresh
    && is_live s.phase
    && leb started completed
    && ltb completed s.deadline_ns
    && is_value request.header.session_id s.sid
    && is_value reply.header.session_id s.sid

-- The observation of a Status, which expires from the start of its request.
abbrev pub observe : Profile → Message → Status → ℕ → ℕ → ℕ → ℕ → Snapshot
observe u request p sid valid_for started completed = record {
  session_id = sid;
  model_id = u.identity.model_id;
  model_step = p.status_step;
  model_state = p.status_state;
  started_ns = started;
  completed_ns = completed;
  deadline_ns = started + valid_for * 1_000_000;
  request = request;
  status = p;
}

-- The Status that answers a Heartbeat.
unfoldable pub remember_status :
    Profile → Message → Message → Status → ℕ → ℕ → Exec Source (Unit {0})
remember_status u request reply p started completed = do
  modify (λ s. record s { model_step_floor = max s.model_step_floor p.status_step })
  old ← gets (λ s.
      s.model_clock_retired
      || leb request.header.sequence s.model_status_request_sequence
      || ltb request.header.transaction_id s.model_status_transaction)
  if old then pure tt else (do
    e ← lift (entry u.contract 131)
    modify (λ s. record s {
      model_status =
          some (observe u request p reply.header.session_id e.valid_for started completed);
      model_status_request_sequence = request.header.sequence;
      model_status_transaction = suc request.header.transaction_id;
    }))

-- A RESET or RESUME that the lifecycle consumer has applied, in a session whose clock is not retired yet.
abbrev pub epoch_ends : Profile → Probe → Ack → Source → Bool
epoch_ends u probe a s =
    is_applied a.stage
    && a.ok_error
    && a.probe_id == probe.id
    && implements s.capabilities 4
    && publishes s.capabilities u.lifecycle_name
    && not s.model_clock_retired

abbrev pub retirement_of : Profile → Message → Message → ℕ → ℕ → Retirement
retirement_of u request reply started completed = record {
  session_id = reply.header.session_id;
  model_id = u.identity.model_id;
  request = request;
  reply = reply;
  started_ns = started;
  completed_ns = completed;
}

-- The acknowledgement of RESET or RESUME, after which the session's clock is retired.
unfoldable pub remember_epoch : Profile → Message → Message → Ack → ℕ → ℕ → Exec Source (Unit {0})
unfolding find_probe
remember_epoch u request reply a started completed = do
  probe ← lift (find_probe (λ p. p.name == u.lifecycle_name) u.probe_catalog)
  ends ← gets (epoch_ends u probe a)
  if ends
      then modify (λ s. record s {
        model_epoch_retirement = some (retirement_of u request reply started completed);
        model_clock_retired = true;
        model_status = none;
      })
      else pure tt

-- `_remember_feedback`, past its first guard.
unfoldable pub remember_reply :
    Profile → Message → Message → Payload → ℕ → ℕ → Exec Source (Unit {0})
remember_reply u request reply (status p) started completed =
    if reply.message_id == 131 && request.message_id == 2
    then remember_status u request reply p started completed
    else pure tt
remember_reply u request reply (ack a) started completed =
    if reply.message_id == 130 && request.message_id == 4 && ends_epoch request.payload
    then remember_epoch u request reply a started completed
    else pure tt
remember_reply u request reply _ started completed = pure tt

-- `_remember_feedback`
unfoldable pub remember_feedback :
    Profile → Message → Message → ℕ → ℕ → Bool → Exec Source (Unit {0})
remember_feedback u request reply started completed fresh s =
    if concerns request reply started completed fresh s
    then remember_reply u request reply reply.payload started completed s
    else pure tt s
