-- ===== src/Gateway/Guards/Decision.antt =====
-- icd_gateway/semantic_guards.py: `lifecycle` answers exactly with the decisions that a specification
-- allows, and a model can be stopped.
use hil_simulation.Common.{
  ℕ, ◌≡◌, ◌≢◌, ◌↔◌, refl, sym, ap, ◌∙◌, subst, Bool, true, false, not, ◌||◌, some, List, [], arith,
}
use hil_simulation.Common.Result.{ok, >>=-eq-ok, require-eq-ok, state, model}
use hil_simulation.Runtime.Contract.{
  Message, Payload, session_open, session_opened, ack, resource_chunk, resource_ack, control_owner,
  session_close, status, measurement, other, lifecycle, LifecycleCommand, ModelState, configured,
  running, paused, stopped, model_failed, Action, start, pause, resume, stop, reset, step, to_36,
  contains_id, validate_message,
}
use hil_simulation.Gateway.Guards.{
  Gate, ModelView, LifecycleDecision, state_eq, needs_configuration, check_message, next_state_of,
  decision_of, target, command_of, plan_steps, decide_lifecycle,
}
use hil_simulation.Gateway.Guards.Lifecycle.{
  Transition, stops_configured, stops_running, stops_paused, Boundary, Planned, no_steps,
  state_eq_lem, state_eq_refl, transition-Transition, Transition-transition, next_state_of_lem,
  transition-next_state_of, plan_steps-Planned, Planned-plan_steps, target-step, target-Boundary,
  Boundary-target,
}

-- A message for a model that has a contract, valid for that model, and of this kind.
pub record Addressed (g : Gate) (m : Message) (view : ModelView) (mid : ℕ) : Type 0 where
  pub known : contains_id view.model_id g.models ≡ true
  pub valid : validate_message g.contract (some to_36) (some view.model_id) m ≡ ok tt
  pub kind : m.message_id ≡ mid

-- A decision that empties no queue and leaves outputs, control and session as they are.
abbrev pub quiet : ModelState → ℕ → List ℕ → LifecycleDecision
quiet next at planned = record {
  next_state = next;
  target_step = at;
  steps = planned;
  clear_queues = false;
  safe_outputs = false;
  revoke_control = false;
  new_session = false;
  restore_initial = false;
}

-- One that empties the queues, makes the outputs safe and revokes the control.
abbrev pub safing : ModelState → ℕ → List ℕ → LifecycleDecision
safing next at planned = record (quiet next at planned) {
  clear_queues = true;
  safe_outputs = true;
  revoke_control = true;
}

-- What each action decides: START leaves all as it is, and the others make the model safe; RESUME and
-- RESET want a new session, and RESET the initial state.
abbrev pub outcome : Action → ModelState → ℕ → List ℕ → LifecycleDecision
outcome start next at planned = quiet next at planned
outcome pause next at planned = safing next at planned
outcome resume next at planned = record (safing next at planned) { new_session = true }
outcome stop next at planned = safing next at planned
outcome reset next at planned = record (safing next at planned) {
  new_session = true;
  restore_initial = true;
}
outcome step next at planned = safing next at planned

-- What the contract allows for a lifecycle command, and what the decision is then: only PAUSE and STOP
-- go without the initial configuration.
pub record IsLegal (g : Gate) (m : Message) (view : ModelView) (d : LifecycleDecision)
    : Type 0 where
  pub command : LifecycleCommand
  pub carried : m.payload ≡ lifecycle command
  pub addressed : Addressed g m view 4
  pub expected : command.expected_state ≡ view.state
  pub moves : Transition command.action view.state d.next_state
  pub ready : command.action ≢ pause → command.action ≢ stop → view.configured_once ≡ true
  pub boundary : Boundary g.max_ahead_steps view m.header.target_step
  pub planned : Planned view command.step_count d.steps command.action
  pub effects : d ≡ outcome command.action d.next_state m.header.target_step d.steps

decision_of-outcome :
    (a : Action) (next : ModelState) (at : ℕ) (planned : List ℕ)
    → decision_of a next at planned ≡ outcome a next at planned
decision_of-outcome start next at planned = refl
decision_of-outcome pause next at planned = refl
decision_of-outcome resume next at planned = refl
decision_of-outcome stop next at planned = refl
decision_of-outcome reset next at planned = refl
decision_of-outcome step next at planned = refl

ready_configured :
    (a : Action) (once : Bool)
    → (not (needs_configuration a) || once) ≡ true
    → a ≢ pause
    → a ≢ stop
    → once ≡ true
ready_configured start once h p q = h
ready_configured pause once h p q = absurd (p refl)
ready_configured resume once h p q = h
ready_configured stop once h p q = absurd (q refl)
ready_configured reset once h p q = h
ready_configured step once h p q = h

configured_ready :
    (a : Action) (once : Bool)
    → (a ≢ pause → a ≢ stop → once ≡ true)
    → (not (needs_configuration a) || once) ≡ true
configured_ready start once h = h (λ e. cc) (λ e. cc)
configured_ready pause once h = refl
configured_ready resume once h = h (λ e. cc) (λ e. cc)
configured_ready stop once h = refl
configured_ready reset once h = h (λ e. cc) (λ e. cc)
configured_ready step once h = h (λ e. cc) (λ e. cc)

module _ (g : Gate) (m : Message) (view : ModelView) (mid : ℕ) where
  check_message-Addressed : check_message g m view mid ≡ ok tt → Addressed g m view mid
  unfolding check_message
  check_message-Addressed h =
      let (known, h1) = require-eq-ok (contains_id view.model_id g.models) model _ h in
      let (u, valid, h2) =
        >>=-eq-ok (validate_message g.contract (some to_36) (some view.model_id) m) _ h1 in
      record { known = known; valid = valid; kind = ground arith }

  Addressed-check_message : Addressed g m view mid → check_message g m view mid ≡ ok tt
  unfolding check_message
  Addressed-check_message a = rw (a.known, a.valid) (ground (arith, a.kind))

command_of_lem :
    (g : Gate) (p : Payload) {c : LifecycleCommand} → command_of g p ≡ ok c → p ≡ lifecycle c
command_of_lem g (session_open identity roles baseline nonce) h = cc
command_of_lem g (session_opened grant) h = cc
command_of_lem g (ack a) h = cc
command_of_lem g (resource_chunk c) h = cc
command_of_lem g (resource_ack a) h = cc
command_of_lem g (lifecycle c) h = cc
command_of_lem g (control_owner c) h = cc
command_of_lem g (session_close reason) h = cc
command_of_lem g (status p) h = cc
command_of_lem g (measurement nonce) h = cc
command_of_lem g (other content) h = cc

module _ (g : Gate) (m : Message) (view : ModelView) where
  pub decide_lifecycle-IsLegal :
      (d : LifecycleDecision) → decide_lifecycle g m view ≡ ok d → IsLegal g m view d
  unfolding decide_lifecycle
  decide_lifecycle-IsLegal d h =
      let (u, seen, h1) = >>=-eq-ok (check_message g m view 4) _ h in
      let (c, carried, h2) = >>=-eq-ok (command_of g m.payload) _ h1 in
      let (same, h3) = require-eq-ok (state_eq c.expected_state view.state) state _ h2 in
      let (next, moves, h4) = >>=-eq-ok (next_state_of c.action view.state) _ h3 in
      let (ready, h5) =
        require-eq-ok (not (needs_configuration c.action) || view.configured_once) state _ h4 in
      let (at, aimed, h6) = >>=-eq-ok (target g m view) _ h5 in
      let (run, planned, h7) = >>=-eq-ok (plan_steps g c.action view c.step_count) _ h6 in
      let made : decision_of c.action next m.header.target_step run ≡ d =
        subst (λ t. decision_of c.action next t run ≡ d) (target-step g m view aimed) (cc) in
      subst (λ made. IsLegal g m view made) made
        (record {
          command = c;
          carried = command_of_lem g m.payload carried;
          addressed = check_message-Addressed g m view 4 seen;
          expected = state_eq_lem _ _ same;
          moves = transition-Transition c.action view.state (next_state_of_lem _ _ moves);
          ready = ready_configured c.action view.configured_once ready;
          boundary = target-Boundary g m view aimed;
          planned = plan_steps-Planned g c.action view c.step_count planned;
          effects = decision_of-outcome c.action next m.header.target_step run;
        })

  IsLegal-decide_lifecycle :
      (d : LifecycleDecision) → IsLegal g m view d → decide_lifecycle g m view ≡ ok d
  unfolding decide_lifecycle
  IsLegal-decide_lifecycle d l =
      rw
        (
          Addressed-check_message g m view 4 l.addressed,
          Boundary-target g m view l.boundary,
          l.carried,
          state_eq_refl l.command.expected_state view.state l.expected,
          transition-next_state_of _ _ (Transition-transition _ _ l.moves),
          configured_ready l.command.action view.configured_once l.ready,
          Planned-plan_steps g l.command.action view l.command.step_count l.planned,
        )
        (ap ok (
          decision_of-outcome l.command.action d.next_state m.header.target_step d.steps
          ∙ sym l.effects))

  -- A lifecycle command is answered with a decision exactly when the specification of the life of a
  -- model allows that decision.
  pub decide_lifecycle-iff-IsLegal :
      (d : LifecycleDecision) → (decide_lifecycle g m view ≡ ok d) ↔ IsLegal g m view d
  decide_lifecycle-iff-IsLegal d = (decide_lifecycle-IsLegal d, IsLegal-decide_lifecycle d)

stop_moves : (s : ModelState) → s ≢ stopped → s ≢ model_failed → Transition stop s stopped
stop_moves configured p q = stops_configured
stop_moves running p q = stops_running
stop_moves paused p q = stops_paused
stop_moves stopped p q = elim (p refl) [ ]
stop_moves model_failed p q = elim (q refl) [ ]

module _ (g : Gate) (m : Message) (view : ModelView) where
  -- A STOP that is valid for a model with a contract, expects the state of that model, which is neither
  -- stopped nor failed, and names a step of its boundary, is decided, also before the initial
  -- configuration: the model stops at that step and makes no others, its queues are emptied, its
  -- outputs made safe and its control revoked; no session is opened and no state restored.
  pub decide_lifecycle-stop :
      (c : LifecycleCommand)
      → Addressed g m view 4
      → m.payload ≡ lifecycle c
      → c.action ≡ stop
      → c.expected_state ≡ view.state
      → view.state ≢ stopped
      → view.state ≢ model_failed
      → Boundary g.max_ahead_steps view m.header.target_step
      → decide_lifecycle g m view
        ≡ ok (record {
          next_state = stopped;
          target_step = m.header.target_step;
          steps = [];
          clear_queues = true;
          safe_outputs = true;
          revoke_control = true;
          new_session = false;
          restore_initial = false;
        })
  decide_lifecycle-stop c addressed carried stops expected moving alive boundary =
      IsLegal-decide_lifecycle g m view _ (record {
        command = c;
        carried = carried;
        addressed = addressed;
        expected = expected;
        moves =
            subst (λ a. Transition a view.state stopped) (sym stops)
              (stop_moves view.state moving alive);
        ready = λ p q. absurd (q stops);
        boundary = boundary;
        planned = no_steps (λ e. cc) refl;
        effects = rw stops refl;
      })
