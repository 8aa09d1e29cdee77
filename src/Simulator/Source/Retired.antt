-- ===== src/Simulator/Source/Retired.antt =====
-- input_simulator/model_clock.py: a retired clock stays retired for the rest of the session.
use hil_simulation.Common.{ℕ, ◌≡◌, ◌≢◌, sym, ◌∙◌, subst, Bool, true, not, List, arith, if-both}
use hil_simulation.Common.Result.{ok, err, err≢ok, state, stale_session}
use hil_simulation.Common.Exec.{Keeps, bind-eq-ok, check_fixed, check}
use hil_simulation.Runtime.Contract.{
  Message, Payload, session_open, session_opened, ack, resource_chunk, resource_ack, lifecycle,
  control_owner, session_close, status, measurement, other,
}
use hil_simulation.Simulator.Source.State.{Profile, Source, Snapshot, operation, clock}
use hil_simulation.Simulator.Source.Feedback.{
  remember_feedback, remember_reply, remember_status, remember_epoch, concerns,
}
use hil_simulation.Simulator.Source.LeaseFeedback.{remember_control_feedback}
use hil_simulation.Simulator.Source.StatusView.{read_status}
use hil_simulation.Simulator.Source.Observed.{observed, snapshot}
use hil_simulation.Simulator.Source.Operations.{Op, run}
use hil_simulation.Simulator.Source.Inner.{clock-Keeps}
use hil_simulation.Simulator.Source.Keeps.{Free, Free-Outer, run-Keeps}

abbrev Retired : Source → Type 0
Retired s = s.model_clock_retired ≡ true

module _ (u : Profile) where
  remember_reply-Keeps :
      (sent reply : Message) (p : Payload) (a b : ℕ)
      → Keeps Retired (remember_reply u sent reply p a b)
  unfolding remember_reply remember_status remember_epoch
  remember_reply-Keeps sent reply (status p) a b s h = ground (arith, h)
  remember_reply-Keeps sent reply (ack p) a b s h = ground (arith, h)
  remember_reply-Keeps sent reply (session_open _ _ _ _) a b s h = h
  remember_reply-Keeps sent reply (session_opened _) a b s h = h
  remember_reply-Keeps sent reply (resource_chunk _) a b s h = h
  remember_reply-Keeps sent reply (resource_ack _) a b s h = h
  remember_reply-Keeps sent reply (lifecycle _) a b s h = h
  remember_reply-Keeps sent reply (control_owner _) a b s h = h
  remember_reply-Keeps sent reply (session_close _) a b s h = h
  remember_reply-Keeps sent reply (measurement _) a b s h = h
  remember_reply-Keeps sent reply (other _) a b s h = h

  remember_feedback-Keeps :
      (sent reply : Message) (a b : ℕ) (is_fresh : Bool)
      → Keeps Retired (remember_feedback u sent reply a b is_fresh)
  unfolding remember_feedback
  remember_feedback-Keeps sent reply a b is_fresh s h =
      if-both (λ r. Retired r.1) (concerns sent reply a b is_fresh s)
        (remember_reply u sent reply reply.payload a b s) (ok tt, s)
        (remember_reply-Keeps sent reply reply.payload a b s h) h

  control_told :
      (sent reply : Message) (a b : ℕ) (is_fresh : Bool) (s : Source)
      → Retired s
      → Retired (remember_control_feedback u sent reply a b is_fresh s)
  unfolding remember_control_feedback
  control_told sent reply a b is_fresh s h = ground (arith, h)

  Retired-Free : Free u Retired
  Retired-Free = record {
    inner = record {
      timed = λ now s h. h;
      claims = λ m s h. ground (arith, h);
      beat = λ last s h. h;
      told = remember_feedback-Keeps;
      controlled = control_told;
      heard = λ m s h. h;
    };
    commits = λ header mid s h. h;
    recorded = λ m reply started completed s h. h;
    extended = λ deadline s h. h;
    stored = λ d m s h. h;
    drained = λ s h. h;
    can_claimed = λ a b s h. h;
  }

  read_status-Retired : (now : ℕ) (s : Source) → Retired s → read_status u now s ≡ err stale_session
  unfolding read_status
  read_status-Retired now s h = ground (arith, h)

  -- Once the model clock of a session is retired, no snapshot returns a step, whatever operations
  -- of the session follow.
  pub snapshot-run-retired :
      (ops : List Op) (now : ℕ) (s : Source) (seen : Snapshot)
      → s.model_clock_retired ≡ true
      → (snapshot u now (run u ops s)).0 ≢ ok seen
  unfolding snapshot operation observed
  snapshot-run-retired ops now s seen h done =
      let t = run u ops s in
      let kept = run-Keeps u Retired (Free-Outer u Retired Retired-Free) ops s h in
      let (a, valid, rest, after) =
        bind-eq-ok (λ s. check (not s.closed) state s) (λ _. observed u now) t done in
      let open_now : (observed u now t).0 ≡ ok seen =
        subst (λ t. (observed u now t).0 ≡ ok seen) (check_fixed (not t.closed) state t) rest in
      let (b, timed, read, later) = bind-eq-ok (clock now) _ t open_now in
      let late = clock-Keeps u Retired Retired-Free.inner now t kept in
      let refused = read_status-Retired now (clock now t).1 late in err≢ok (sym refused ∙ read)
