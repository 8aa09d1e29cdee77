-- ===== src/Gateway/Guards/Lifecycle.antt =====
-- icd_gateway/semantic_guards.py: the lifecycle decisions, against a transition relation.
use hil_simulation.Common.{
  ℕ, zero, suc, ◌+◌, ◌≤◌, ◌<◌, ◌≡◌, ◌≢◌, refl, sym, ap, ◌∙◌, subst, true, false, not, some, List,
  [], ◌∷◌, length, get_elem?, leb, leb→le, ==_refl, ==_iff, arith, Bool-cases, inl, inr,
  Option-cases,
}
use hil_simulation.Common.Result.{Code, ok, require-eq-ok, range, unsupported}
use hil_simulation.Runtime.Contract.{
  Message, ModelState, configured, running, paused, stopped, model_failed, Action, start, pause,
  resume, stop, reset, step, ControlSource, no_source, demo_mission, px4_sitl, physical_uut,
}
use hil_simulation.Gateway.Guards.{
  Gate, ModelView, state_code, state_eq, source_code, source_eq, transition, steps_from,
  next_state_of, target, plan_steps,
}

-- The life of a model.
pub data Transition : Action → ModelState → ModelState → Type 0 where
  starts : Transition start configured running
  pauses : Transition pause running paused
  resumes : Transition resume paused running
  stops_configured : Transition stop configured stopped
  stops_running : Transition stop running stopped
  stops_paused : Transition stop paused stopped
  resets_paused : Transition reset paused configured
  resets_stopped : Transition reset stopped configured
  steps : Transition step paused paused

pub transition-Transition :
    (a : Action) (s : ModelState) {t : ModelState} → transition a s ≡ some t → Transition a s t
unfolding transition
transition-Transition start configured h = subst (λ u. Transition start configured u) (cc) starts
transition-Transition start running h = cc
transition-Transition start paused h = cc
transition-Transition start stopped h = cc
transition-Transition start model_failed h = cc
transition-Transition pause configured h = cc
transition-Transition pause running h = subst (λ u. Transition pause running u) (cc) pauses
transition-Transition pause paused h = cc
transition-Transition pause stopped h = cc
transition-Transition pause model_failed h = cc
transition-Transition resume configured h = cc
transition-Transition resume running h = cc
transition-Transition resume paused h = subst (λ u. Transition resume paused u) (cc) resumes
transition-Transition resume stopped h = cc
transition-Transition resume model_failed h = cc
transition-Transition stop configured h =
    subst (λ u. Transition stop configured u) (cc) stops_configured
transition-Transition stop running h = subst (λ u. Transition stop running u) (cc) stops_running
transition-Transition stop paused h = subst (λ u. Transition stop paused u) (cc) stops_paused
transition-Transition stop stopped h = cc
transition-Transition stop model_failed h = cc
transition-Transition reset configured h = cc
transition-Transition reset running h = cc
transition-Transition reset paused h = subst (λ u. Transition reset paused u) (cc) resets_paused
transition-Transition reset stopped h = subst (λ u. Transition reset stopped u) (cc) resets_stopped
transition-Transition reset model_failed h = cc
transition-Transition step configured h = cc
transition-Transition step running h = cc
transition-Transition step paused h = subst (λ u. Transition step paused u) (cc) steps
transition-Transition step stopped h = cc
transition-Transition step model_failed h = cc

pub Transition-transition :
    (a : Action) (s : ModelState) {t : ModelState} → Transition a s t → transition a s ≡ some t
unfolding transition
Transition-transition a s starts = refl
Transition-transition a s pauses = refl
Transition-transition a s resumes = refl
Transition-transition a s stops_configured = refl
Transition-transition a s stops_running = refl
Transition-transition a s stops_paused = refl
Transition-transition a s resets_paused = refl
Transition-transition a s resets_stopped = refl
Transition-transition a s steps = refl

pub next_state_of_lem :
    (a : Action) (s : ModelState) {t : ModelState}
    → next_state_of a s ≡ ok t
    → transition a s ≡ some t
next_state_of_lem a s h = elim (Option-cases (transition a s)) [ inl e ↦ cc | inr e ↦ cc ]

pub transition-next_state_of :
    (a : Action) (s : ModelState) {t : ModelState}
    → transition a s ≡ some t
    → next_state_of a s ≡ ok t
transition-next_state_of a s h = rw (next_state_of, h) refl

decode_state : ℕ → ModelState
decode_state zero = configured
decode_state (suc zero) = running
decode_state (suc (suc zero)) = paused
decode_state (suc (suc (suc zero))) = stopped
decode_state (suc (suc (suc (suc _)))) = model_failed

decode-state_code : (s : ModelState) → decode_state (state_code s) ≡ s
unfolding decode_state
decode-state_code configured = refl
decode-state_code running = refl
decode-state_code paused = refl
decode-state_code stopped = refl
decode-state_code model_failed = refl

pub state_eq_lem : (a b : ModelState) → state_eq a b ≡ true → a ≡ b
state_eq_lem a b h =
    sym (decode-state_code a)
    ∙ ap decode_state ((==_iff (state_code a) (state_code b)).0 h)
    ∙ decode-state_code b

pub state_eq_refl : (a b : ModelState) → a ≡ b → state_eq a b ≡ true
state_eq_refl a b h = subst (λ s. state_eq a s ≡ true) h (==_refl (state_code a))

decode_source : ℕ → ControlSource
decode_source zero = no_source
decode_source (suc zero) = demo_mission
decode_source (suc (suc zero)) = px4_sitl
decode_source (suc (suc (suc _))) = physical_uut

decode-source_code : (s : ControlSource) → decode_source (source_code s) ≡ s
unfolding decode_source
decode-source_code no_source = refl
decode-source_code demo_mission = refl
decode-source_code px4_sitl = refl
decode-source_code physical_uut = refl

pub source_eq_lem : (a b : ControlSource) → source_eq a b ≡ true → a ≡ b
source_eq_lem a b h =
    sym (decode-source_code a)
    ∙ ap decode_source ((==_iff (source_code a) (source_code b)).0 h)
    ∙ decode-source_code b

source_eq_refl : (a b : ControlSource) → a ≡ b → source_eq a b ≡ true
source_eq_refl a b h = subst (λ s. source_eq a s ≡ true) h (==_refl (source_code a))

-- The steps at which a command may take effect: one ahead of a model that runs, and the present step of
-- one that does not.
pub data Boundary (ahead : ℕ) (view : ModelView) (at : ℕ) : Type 0 where
  coming :
      view.state ≡ running
      → view.model_step < at
      → at ≤ view.model_step + ahead
      → at ≤ view.max_duration_steps
      → Boundary ahead view at
  present :
      view.state ≢ running
      → at ≡ view.model_step
      → at ≤ view.max_duration_steps
      → Boundary ahead view at

state_eq-false : (a b : ModelState) → a ≢ b → state_eq a b ≡ false
state_eq-false a b h = elim (Bool-cases (state_eq a b)) [
  | inl e ↦ absurd (h (state_eq_lem a b e))
  | inr e ↦ e
]

state_eq-ne : (a b : ModelState) → state_eq a b ≡ false → a ≢ b
state_eq-ne a b h e = cc (state_eq_refl a b e)

module _ (g : Gate) (m : Message) (view : ModelView) where
  pub target-step : {at : ℕ} → target g m view ≡ ok at → at ≡ m.header.target_step
  unfolding target
  target-step {at} h = ground arith

  pub target-Boundary :
      {at : ℕ} → target g m view ≡ ok at → Boundary g.max_ahead_steps view m.header.target_step
  unfolding target
  target-Boundary {at} h = elim (Bool-cases (state_eq view.state running)) [
    | inl p ↦
        coming (state_eq_lem view.state running p) (ground arith) (ground arith) (ground arith)
    | inr p ↦ present (state_eq-ne view.state running p) (ground arith) (ground arith)
  ]

  pub Boundary-target :
      Boundary g.max_ahead_steps view m.header.target_step
      → target g m view ≡ ok m.header.target_step
  unfolding target
  Boundary-target (coming p a b c) = ground (arith, state_eq_refl view.state running p)
  Boundary-target (present p a b) = ground (arith, state_eq-false view.state running p)

-- `count` numbers from `first` on.
pub record Numbered (first count : ℕ) (steps : List ℕ) : Type 0 where
  pub many : length steps ≡ count
  pub each : (i : ℕ) → i < count → get_elem? steps i ≡ some (first + i)

steps_from-each :
    (first count i : ℕ) → i < count → get_elem? (steps_from first count) i ≡ some (first + i)
unfolding steps_from
steps_from-each first zero i h = elim h [ ]
steps_from-each first (suc count) zero h = ap (λ n. some n) (omega arith)
steps_from-each first (suc count) (suc i) h =
    steps_from-each (first + 1) count i (omega arith) ∙ ap (λ n. some n) (omega arith)

length-steps_from : (first count : ℕ) → length (steps_from first count) ≡ count
unfolding steps_from
length-steps_from first zero = refl
length-steps_from first (suc count) = ap suc (length-steps_from (first + 1) count)

steps_from-Numbered : (first count : ℕ) → Numbered first count (steps_from first count)
steps_from-Numbered first count = record {
  many = length-steps_from first count;
  each = steps_from-each first count;
}

-- The numbers determine the list.
Numbered-eq :
    (first count : ℕ) (steps : List ℕ) → Numbered first count steps → steps ≡ steps_from first count
unfolding steps_from
Numbered-eq first zero [] h = refl
Numbered-eq first zero (x ∷ xs) h = absurd (omega (arith, h.many))
Numbered-eq first (suc count) [] h = absurd (omega (arith, h.many))
Numbered-eq first (suc count) (x ∷ xs) h =
    let head : x ≡ first = ground (arith, h.each 0 (omega arith)) in
    let tail : xs ≡ steps_from (first + 1) count = Numbered-eq (first + 1) count xs (record {
      many = omega (arith, h.many);
      each = λ i lt. h.each (suc i) (omega arith) ∙ ap (λ n. some n) (omega arith);
    }) in
    rw (head, tail) refl

-- The steps that an action asks for: those of STEP, offline and within the run, and none otherwise.
pub data Planned (view : ModelView) (count : ℕ) (steps : List ℕ) : Action → Type 0 where
  offline :
      view.physical_closed_loop ≡ false
      → view.control_source ≡ no_source
      → view.model_step + count ≤ view.max_duration_steps
      → Numbered (view.model_step + 1) count steps
      → Planned view count steps step
  no_steps : {a : Action} → a ≢ step → steps ≡ [] → Planned view count steps a

pub plan_steps-Planned :
    (g : Gate) (a : Action) (view : ModelView) (count : ℕ) {steps : List ℕ}
    → plan_steps g a view count ≡ ok steps
    → Planned view count steps a
unfolding plan_steps
plan_steps-Planned g start view count h = no_steps (λ e. cc) (cc)
plan_steps-Planned g pause view count h = no_steps (λ e. cc) (cc)
plan_steps-Planned g resume view count h = no_steps (λ e. cc) (cc)
plan_steps-Planned g stop view count h = no_steps (λ e. cc) (cc)
plan_steps-Planned g reset view count h = no_steps (λ e. cc) (cc)
plan_steps-Planned g step view count h =
    let flag = require-eq-ok (not view.physical_closed_loop) unsupported _ h in
    let owner =
      require-eq-ok (source_eq view.control_source no_source) Code.control_owner _ flag.1 in
    let room =
      require-eq-ok (leb (view.model_step + count) view.max_duration_steps) range _ owner.1 in
    offline (ground arith) (source_eq_lem _ _ owner.0) (leb→le _ _ room.0) (
      subst (λ l. Numbered (view.model_step + 1) count l) (cc)
        (steps_from-Numbered (view.model_step + 1) count))

planned_none :
    (g : Gate) (a : Action) (view : ModelView) (count : ℕ)
    → a ≢ step
    → plan_steps g a view count ≡ ok []
unfolding plan_steps
planned_none g start view count h = refl
planned_none g pause view count h = refl
planned_none g resume view count h = refl
planned_none g stop view count h = refl
planned_none g reset view count h = refl
planned_none g step view count h = absurd (h refl)

pub Planned-plan_steps :
    (g : Gate) (a : Action) (view : ModelView) (count : ℕ) {steps : List ℕ}
    → Planned view count steps a
    → plan_steps g a view count ≡ ok steps
unfolding plan_steps
Planned-plan_steps g a view count {steps} (offline p q r n) =
    ground (arith, source_eq_refl _ _ q, Numbered-eq (view.model_step + 1) count steps n)
Planned-plan_steps g a view count (no_steps p e) = planned_none g a view count p ∙ ap ok (sym e)
