-- ===== src/Gateway/ModelQueue/Tests.antt =====
-- icd_gateway/model_queue.py: a message that is queued, and the step that takes it.
use hil_simulation.Common.{◌≡◌, refl, true, false, none, some, [], ◌∷◌, ℕ_discrete, arith}
use hil_simulation.Common.Dict.{lookup, insert, keep, total}
use hil_simulation.Common.Result.{ok}
use hil_simulation.Runtime.Contract.{
  validate_message, entry, find_entry, validate_header, validate_payload, session_rule, contains_id,
  has_transport,
}
use hil_simulation.Runtime.Wire.Tests.{command}
use hil_simulation.Gateway.Registry.State.{
  Binding-discrete, Transport-discrete, Pair-discrete, ensure_open, late_sessions, purge, get,
  clock, check_clock, expire,
}
use hil_simulation.Gateway.Registry.Accept.{
  accept, preauthorize, link_grant, grant_at, authorize_session, accept_in_session, admit_new,
  remember, make_room, require_admitted, admitted_record, claim_admitted,
}
use hil_simulation.Gateway.Registry.Tests.{setup, started, throttle, link}
use hil_simulation.Gateway.ModelQueue.State.{
  World, Triple-discrete, clock as queue_clock, check_clock as queue_check_clock,
}
use hil_simulation.Gateway.ModelQueue.{
  Deployment, enqueue, begin_step, session_model, check_step, check_source, add_pending,
  claim_paths,
}
use hil_simulation.Gateway.ModelQueue.Bounds.{IsValid}
use hil_simulation.Gateway.ModelQueue.Steps.{begin_step-IsValid}
use hil_simulation.Gateway.ModelQueue.Enqueue.{enqueue-IsValid}

abbrev deployment : Deployment
deployment = record {
  setup = record setup {
    contract = record setup.contract { messages = record command { role = some 1 } ∷ [] };
  };
  map_message = λ model_id m. ok (record { path = 3; json_bytes = 8 } ∷ []);
  payload_encode = λ mid p. ok (7 ∷ []);
  controller = 9;
  quadrotor = 2;
}

abbrev admitted : World
admitted = record {
  registry = (accept deployment.setup throttle link 10 started).1;
  queue = record {
    steps = (1, 99) ∷ [];
    pending = [];
    writers = [];
    reservations = [];
    stored_bytes = 0;
    last_now = 0;
    closed = false;
  };
}

admitted-IsValid : IsValid 256 admitted.queue
unfolding total
admitted-IsValid = record { distinct = tt; keyed = tt; counted = refl; bounded = omega arith }

nothing_there : lookup Pair-discrete (5, 9) admitted.queue.pending ≡ none
unfolding lookup
nothing_there = refl

abbrev queued : World
queued = (enqueue deployment throttle true 20 none none admitted).1

enqueue-IsValid_example :
    IsValid 256 (enqueue deployment throttle true 20 none none admitted).1.queue
enqueue-IsValid_example =
    enqueue-IsValid deployment throttle true 20 none none admitted admitted-IsValid nothing_there

queued-IsValid : IsValid 256 queued.queue
queued-IsValid =
    enqueue-IsValid deployment throttle true 20 none none admitted admitted-IsValid nothing_there

begin_step-IsValid_example : IsValid 256 (begin_step deployment 1 100 true 30 queued).1.queue
begin_step-IsValid_example = begin_step-IsValid deployment 256 1 100 true 30 queued queued-IsValid

-- The message is taken: its 100 bytes of JSON and the 8 of its value are stored.
stored_108 : queued.queue.stored_bytes ≡ 108
unfolding enqueue accept validate_message entry find_entry validate_header validate_payload
    session_rule contains_id has_transport preauthorize expire clock check_clock ensure_open purge
    late_sessions keep link_grant grant_at authorize_session get lookup accept_in_session admit_new
    remember make_room insert Binding-discrete Transport-discrete Pair-discrete ℕ_discrete
    queue_clock queue_check_clock session_model check_step check_source add_pending claim_paths
    require_admitted admitted_record claim_admitted Triple-discrete
stored_108 = refl
