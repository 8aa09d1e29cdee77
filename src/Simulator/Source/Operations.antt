-- ===== src/Simulator/Source/Operations.antt =====
-- input_simulator/session.py: what a source does within one session, as a sequence of operations.
use hil_simulation.Common.{ℕ, Bool, Option, List, [], ◌∷◌}
use hil_simulation.Common.Result.{Result}
use hil_simulation.Common.Exec.{Exec, ◌>>◌, modify}
use hil_simulation.Runtime.Contract.{Message, Payload, Transport}
use hil_simulation.Simulator.Source.State.{Profile, Source, discard_input, drain_records}
use hil_simulation.Simulator.Source.Attempts.{allocate_header, claim_can_attempt}
use hil_simulation.Simulator.Source.Feedback.{remember_feedback}
use hil_simulation.Simulator.Source.LeaseFeedback.{remember_control_feedback}
use hil_simulation.Simulator.Source.Exchange.{Times}
use hil_simulation.Simulator.Source.Requests.{request, heartbeat, prepare_input}

-- `_remember_model_feedback`, with no reader of assertions.
unfoldable pub remember_model_feedback :
    Profile → Message → Message → ℕ → ℕ → Bool → Exec Source (Unit {0})
remember_model_feedback u sent reply started completed is_fresh = do
  remember_feedback u sent reply started completed is_fresh
  modify (remember_control_feedback u sent reply started completed is_fresh)

-- The operations of one session; `hears` is the feedback that the CAN link hands over.
pub data Op : Type 0 where
  allocates : ℕ → ℕ → ℕ → Option ℕ → Op
  requests : ℕ → ℕ → Payload → ℕ → Option ℕ → Times → Result Message → Op
  beats : ℕ → Payload → ℕ → Times → Result Message → Op
  prepares : ℕ → ℕ → ℕ → Message → Transport → ℕ → Option ℕ → Op
  discards : ℕ → Op
  attempts_can : Transport → Message → Op
  hears : Message → Message → ℕ → ℕ → Bool → Op
  drains : Op

abbrev pub apply : Profile → Op → Source → Source
apply u (allocates now mid at txn) s = (allocate_header u now mid at txn s).1
apply u (requests now mid payload at txn t answer) s =
    (request u now mid payload at txn t answer s).1
apply u (beats now payload at t answer) s = (heartbeat u now payload at t answer s).1
apply u (prepares key now later m transport at txn) s =
    (prepare_input u key now later m transport at txn s).1
apply u (discards key) s = (discard_input key s).1
apply u (attempts_can transport m) s = (claim_can_attempt transport m s).1
apply u (hears sent reply started completed is_fresh) s =
    (remember_model_feedback u sent reply started completed is_fresh s).1
apply u drains s = (drain_records s).1

abbrev pub run : Profile → List Op → Source → Source
run u [] s = s
run u (op ∷ ops) s = run u ops (apply u op s)
