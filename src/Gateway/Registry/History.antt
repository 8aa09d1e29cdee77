-- ===== src/Gateway/Registry/History.antt =====
-- icd_gateway/session.py: sequences of calls of the registry's operations, in any order and with any
-- arguments, refused calls included.
use hil_simulation.Common.{
  ℕ, ◌≤◌, ◌≡◌, ◌≢◌, Bool, false, some, none, List, [], ◌∷◌, ℕ_discrete, ◌==◌, arith, refl, subst,
}
use hil_simulation.Common.Dict.{Dict, lookup}
use hil_simulation.Common.Result.{ok}
use hil_simulation.Runtime.Contract.{Message}
use hil_simulation.Gateway.Registry.State.{
  Binding, Session, Decision, Setup, Registry, initial, expire, revoke, retire, close,
  attach_model_queue, attach_resource_worker, next_feedback_sequence, ensure_open,
}
use hil_simulation.Gateway.Registry.Accept.{
  accept, preview_open, preauthorize, require_admitted, observe_admitted, claim_admitted,
}
use hil_simulation.Gateway.Registry.Feedback.{
  record_response, record_completion, defer_resource_response, finish_resource_response,
}
use hil_simulation.Gateway.Registry.Deferral.{check_resource_deferral}
use hil_simulation.Gateway.Registry.Keeps.{
  Closed, On, expire-Keeps, revoke-Keeps, retire-Keeps, close-On, next_feedback_sequence-Keeps,
}
use hil_simulation.Gateway.Registry.KeepsAccept.{
  accept-Keeps, preview_open-Keeps, preauthorize-Keeps,
}
use hil_simulation.Gateway.Registry.KeepsFeedback.{
  require_admitted-Keeps, observe_admitted-Keeps, claim_admitted-Keeps, record_response-Keeps,
  record_completion-Keeps, check_resource_deferral-Keeps, defer_resource_response-Keeps,
  finish_resource_response-Keeps,
}
use hil_simulation.Gateway.Registry.Sessions.{IsLive, IsSpent, IsLive-Closed, IsSpent-Closed}
use hil_simulation.Gateway.Registry.Fresh.{accept-fresh}

-- A call of a method of `SessionRegistry`, with its arguments.
pub data Call : Type 0 where
  expire_call close_call : ℕ → Call
  revoke_call retire_call next_call : ℕ → Call
  attach_queue_call attach_worker_call : Call
  preauthorize_call : ℕ → ℕ → Binding → ℕ → Call
  accept_call preview_call : Message → Binding → ℕ → Call
  require_call observe_call claim_call : Message → ℕ → Call
  respond_call defer_call : Message → List Message → ℕ → Call
  complete_call : Bool → Bool → ℕ → Message → List Message → ℕ → Call
  finish_call deferral_call : Message → Message → ℕ → Call

module _ (u : Setup) where
  -- The state that a call leaves.
  unfoldable pub execute : Call → Registry → Registry
  execute (expire_call now) s = (expire now s).1
  execute (close_call now) s = close s
  execute (revoke_call sid) s = (revoke sid s).1
  execute (retire_call sid) s = (retire sid s).1
  execute (next_call sid) s = (next_feedback_sequence sid s).1
  execute attach_queue_call s = (attach_model_queue s).1
  execute attach_worker_call s = (attach_resource_worker s).1
  execute (preauthorize_call mid sid b now) s = (preauthorize u mid sid b now s).1
  execute (accept_call m b now) s = (accept u m b now s).1
  execute (preview_call m b now) s = (preview_open u m b now s).1
  execute (require_call m now) s = (require_admitted u m now s).1
  execute (observe_call m now) s = (observe_admitted u m now s).1
  execute (claim_call m now) s = (claim_admitted u m now s).1
  execute (respond_call m replies now) s = (record_response u m replies now s).1
  execute (defer_call m replies now) s = (defer_resource_response u m replies now s).1
  execute (complete_call owned served probe m replies now) s =
      (record_completion u owned served probe m replies now s).1
  execute (finish_call m reply now) s = (finish_resource_response u m reply now s).1
  execute (deferral_call m response now) s = (check_resource_deferral u m response now s).1

  -- The state after a list of calls.
  unfoldable pub run : List Call → Registry → Registry
  run [] s = s
  run (call ∷ calls) s = run calls (execute call s)

  module _ (P : ℕ → Dict ℕ Session → Type 0) (z : Closed u P) where
    abbrev InP : Registry → Type 0
    InP = On u P z

    attach_queue-On : (s : Registry) → InP s → InP (attach_model_queue s).1
    unfolding attach_model_queue ensure_open
    attach_queue-On s h = ground arith

    attach_worker-On : (s : Registry) → InP s → InP (attach_resource_worker s).1
    unfolding attach_resource_worker ensure_open
    attach_worker-On s h = ground arith

    execute-On : (call : Call) (s : Registry) → InP s → InP (execute call s)
    unfolding execute
    execute-On (expire_call now) = expire-Keeps u P z now
    execute-On (close_call now) = close-On u P z
    execute-On (revoke_call sid) = revoke-Keeps u P z sid
    execute-On (retire_call sid) = retire-Keeps u P z sid
    execute-On (next_call sid) = next_feedback_sequence-Keeps u P z sid
    execute-On attach_queue_call = attach_queue-On
    execute-On attach_worker_call = attach_worker-On
    execute-On (preauthorize_call mid sid b now) = preauthorize-Keeps u P z mid sid b now
    execute-On (accept_call m b now) = accept-Keeps u P z m b now
    execute-On (preview_call m b now) = preview_open-Keeps u P z m b now
    execute-On (require_call m now) = require_admitted-Keeps u P z m now
    execute-On (observe_call m now) = observe_admitted-Keeps u P z m now
    execute-On (claim_call m now) = claim_admitted-Keeps u P z m now
    execute-On (respond_call m replies now) = record_response-Keeps u P z m replies now
    execute-On (defer_call m replies now) = defer_resource_response-Keeps u P z m replies now
    execute-On (complete_call owned served probe m replies now) =
        record_completion-Keeps u P z owned served probe m replies now
    execute-On (finish_call m reply now) = finish_resource_response-Keeps u P z m reply now
    execute-On (deferral_call m response now) = check_resource_deferral-Keeps u P z m response now

    run-On : (calls : List Call) (s : Registry) → InP s → InP (run calls s)
    unfolding run
    run-On [] s h = h
    run-On (call ∷ calls) s h = run-On calls (execute call s) (execute-On call s h)

  initial-IsLive : (random : ℕ) → IsLive u (initial random).next_id (initial random).sessions
  unfolding lookup
  initial-IsLive random = record { distinct = tt; unallocated = λ sid h. refl; few = omega arith }

  -- After any calls on a new registry, every session has one entry and an id that the counter has
  -- passed, and there are at most `max_sessions` sessions.
  pub run-IsLive :
      (calls : List Call) (random : ℕ)
      → IsLive u (run calls (initial random)).next_id (run calls (initial random)).sessions
  run-IsLive calls random =
      run-On (IsLive u) (IsLive-Closed u) calls (initial random) (initial-IsLive random)

  -- What an accepted sequence leaves.
  accept-IsSpent :
      (m : Message) (b : Binding) (now : ℕ) (s : Registry) {d : Decision}
      → IsLive u s.next_id s.sessions
      → (m.message_id == 1) ≡ false
      → (accept u m b now s).0 ≡ ok d
      → d.replay ≡ none
      → IsSpent u m.header.session_id m.header.sequence
          (accept u m b now s).1.next_id
          (accept u m b now s).1.sessions
  accept-IsSpent m b now s {d} v other done new =
      let (x, y, here, there, above, admitted) = accept-fresh u m b now s other done new in
      let live = accept-Keeps u (IsLive u) (IsLive-Closed u) m b now s v in
      record {
        live = live;
        allocated = ground (arith, live.unallocated m.header.session_id, there);
        passed = λ z h. ground (arith, admitted.last);
      }

  -- From a state that satisfies `IsLive`, a message that `accept` takes as a new one, and then any
  -- calls: a second message of the same session whose sequence is not above the first one's is refused,
  -- or answered from the cache. Neither message is a SessionOpen.
  pub at_most_once :
      (m m' : Message) (b b' : Binding) (now now' : ℕ) (calls : List Call) (s : Registry)
      {d d' : Decision}
      → IsLive u s.next_id s.sessions
      → (m.message_id == 1) ≡ false
      → (m'.message_id == 1) ≡ false
      → m'.header.session_id ≡ m.header.session_id
      → m'.header.sequence ≤ m.header.sequence
      → (accept u m b now s).0 ≡ ok d
      → d.replay ≡ none
      → (accept u m' b' now' (run calls (accept u m b now s).1)).0 ≡ ok d'
      → d'.replay ≢ none
  at_most_once m m' b b' now now' calls s {d} {d'} v other other' same below done new done' new' =
      let after : Registry = run calls (accept u m b now s).1 in
      let spent =
        run-On (IsSpent u m.header.session_id m.header.sequence)
          (IsSpent-Closed u m.header.session_id m.header.sequence) calls (accept u m b now s).1
          (accept-IsSpent m b now s v other done new) in
      let late =
        expire-Keeps u (IsSpent u m.header.session_id m.header.sequence)
          (IsSpent-Closed u m.header.session_id m.header.sequence) now' after spent in
      let (x, y, here, there, above, admitted) =
        accept-fresh u m' b' now' after other' done' new' in
      let here' =
        subst (λ sid. lookup ℕ_discrete sid (expire now' after).1.sessions ≡ some x) same here in
      omega (arith, late.passed x here', above, below)
