-- ===== src/Simulator/Source/Learns.antt =====
-- input_simulator/model_clock.py: feedback changes what is observed of the clock and of the lease, and nothing
-- else.
use hil_simulation.Common.{
  ℕ, suc, Bool, true, false, ◌&&◌, ◌||◌, not, Option, some, none, leb, ltb, ◌==◌, max,
  if◌then◌else◌, if-both, option-both,
}
use hil_simulation.Common.Exec.{Exec, pure, Keeps, Keeps-bind, modify, lift}
use hil_simulation.Runtime.Contract.{
  Message, Payload, session_open, session_opened, ack, resource_chunk, resource_ack, lifecycle,
  control_owner, session_close, status, measurement, other, Status, Ack, OwnerCommand,
  ControlSource, entry,
}
use hil_simulation.Simulator.Source.State.{Profile, Source, Snapshot, Lease, Retirement}
use hil_simulation.Simulator.Source.Attempts.{implements}
use hil_simulation.Simulator.Source.Feedback.{
  remember_feedback, remember_reply, remember_status, remember_epoch, find_probe, concerns, observe,
  ends_epoch, epoch_ends, retirement_of,
}
use hil_simulation.Simulator.Source.LeaseFeedback.{
  contradicts, remember_control_feedback, remember_control_reply, remember_input,
  check_source_status, drives, loses_lease, revoke_lease, remember_owner, grant_lease, grant_under,
  renew_lease, renews, renewed_lease, new_lease, owner_matches, applied_consumer,
}

-- A property that is not about the observations.
pub record Learns (P : Source → Type 0) : Type 0 where
  pub observes :
      (o : Option Snapshot) (floor q t : ℕ) (b : Bool) (e : Option Retirement) (s : Source)
      → P s
      → P (record s {
        model_status = o;
        model_step_floor = floor;
        model_status_request_sequence = q;
        model_status_transaction = t;
        model_clock_retired = b;
        model_epoch_retirement = e;
      })
  pub leads :
      (l : Option Lease) (n : ℕ) (w : Option ControlSource) (s : Source)
      → P s
      → P (record s {
        control_lease = l;
        control_boundary_sequence = n;
        control_requested_source = w;
      })

module _ (u : Profile) (P : Source → Type 0) (z : Learns P) where
  when : (b : Bool) (m : Exec Source (Unit {0})) → Keeps P m → Keeps P (if b then m else pure tt)
  when true m k s h = k s h
  when false m k s h = h

  unless : (b : Bool) (m : Exec Source (Unit {0})) → Keeps P m → Keeps P (if b then pure tt else m)
  unless true m k s h = h
  unless false m k s h = k s h

  status_told :
      (sent reply : Message) (p : Status) (i j : ℕ) → Keeps P (remember_status u sent reply p i j)
  unfolding remember_status
  status_told sent reply p i j s h =
      let floor = max s.model_step_floor p.status_step in
      let s1 : Source = record s { model_step_floor = floor } in
      let h1 =
        z.observes s.model_status floor s.model_status_request_sequence s.model_status_transaction
          s.model_clock_retired s.model_epoch_retirement s h in
      unless
        (s.model_clock_retired
          || leb sent.header.sequence s.model_status_request_sequence
          || ltb sent.header.transaction_id s.model_status_transaction)
        _
        (Keeps-bind {B = Unit {0}} P (lift (entry u.contract 131)) _ (λ s h. h)
          (λ e s h.
            z.observes (some (observe u sent p reply.header.session_id e.valid_for i j))
              s.model_step_floor sent.header.sequence (suc sent.header.transaction_id)
              s.model_clock_retired s.model_epoch_retirement s h))
        s1 h1

  epoch_told :
      (sent reply : Message) (a : Ack) (i j : ℕ) → Keeps P (remember_epoch u sent reply a i j)
  unfolding remember_epoch
  epoch_told sent reply a i j =
      Keeps-bind {B = Unit {0}} P
        (lift (find_probe (λ p. p.name == u.lifecycle_name) u.probe_catalog)) _ (λ s h. h)
        λ probe s h.
          when (epoch_ends u probe a s)
            (modify (λ s. record s {
              model_epoch_retirement = some (retirement_of u sent reply i j);
              model_clock_retired = true;
              model_status = none;
            }))
            (λ s h.
              z.observes none s.model_step_floor s.model_status_request_sequence
                s.model_status_transaction true (some (retirement_of u sent reply i j)) s h)
            s h

  replied :
      (sent reply : Message) (p : Payload) (i j : ℕ) → Keeps P (remember_reply u sent reply p i j)
  unfolding remember_reply
  replied sent reply (status p) i j s h =
      when (reply.message_id == 131 && sent.message_id == 2) (remember_status u sent reply p i j)
        (status_told sent reply p i j) s h
  replied sent reply (ack a) i j s h =
      when (reply.message_id == 130 && sent.message_id == 4 && ends_epoch sent.payload)
        (remember_epoch u sent reply a i j) (epoch_told sent reply a i j) s h
  replied sent reply (session_open _ _ _ _) i j s h = h
  replied sent reply (session_opened _) i j s h = h
  replied sent reply (resource_chunk _) i j s h = h
  replied sent reply (resource_ack _) i j s h = h
  replied sent reply (lifecycle _) i j s h = h
  replied sent reply (control_owner _) i j s h = h
  replied sent reply (session_close _) i j s h = h
  replied sent reply (measurement _) i j s h = h
  replied sent reply (other _) i j s h = h

  pub remember_feedback-Keeps :
      (sent reply : Message) (i j : ℕ) (is_fresh : Bool)
      → Keeps P (remember_feedback u sent reply i j is_fresh)
  unfolding remember_feedback
  remember_feedback-Keeps sent reply i j is_fresh s h =
      if-both (λ r. P r.1) (concerns sent reply i j is_fresh s)
        (remember_reply u sent reply reply.payload i j s) (pure tt s)
        (replied sent reply reply.payload i j s h) h

  granted :
      (sent reply : Message) (a : Ack) (c : OwnerCommand) (i j : ℕ) (o : Option Snapshot)
      (s : Source)
      → P s
      → P (grant_under u sent reply a c i j o s)
  unfolding grant_under
  granted sent reply a c i j none s h = h
  granted sent reply a c i j (some seen) s h =
      if-both P (applied_consumer u 6 a s && owner_matches u sent a c seen i j s) _ _
        (z.leads (some (new_lease u sent reply c seen i j)) s.control_boundary_sequence
          s.control_requested_source s h)
        h

  owned :
      (sent reply : Message) (a : Ack) (p : Payload) (i j : ℕ) (s : Source)
      → P s
      → P (remember_owner u sent reply a p i j s)
  unfolding remember_owner grant_lease
  owned sent reply a (control_owner c) i j s h =
      if-both P (sent.message_id == 6) (grant_lease u sent reply a c i j s) s
        (granted sent reply a c i j s.model_status s h) h
  owned sent reply a (session_open _ _ _ _) i j s h = h
  owned sent reply a (session_opened _) i j s h = h
  owned sent reply a (ack _) i j s h = h
  owned sent reply a (resource_chunk _) i j s h = h
  owned sent reply a (resource_ack _) i j s h = h
  owned sent reply a (lifecycle _) i j s h = h
  owned sent reply a (session_close _) i j s h = h
  owned sent reply a (status _) i j s h = h
  owned sent reply a (measurement _) i j s h = h
  owned sent reply a (other _) i j s h = h

  renewed :
      (sent reply : Message) (a : Ack) (i j : ℕ) (s : Source)
      → P s
      → P (renew_lease u sent reply a i j s)
  unfolding renew_lease
  renewed sent reply a i j s h =
      option-both P s.control_lease s
        (λ lease.
          if renews sent a lease (applied_consumer u sent.message_id a s) i j
          then record s { control_lease = some (renewed_lease u sent reply i j lease) }
          else s)
        h
        (λ lease.
          if-both P (renews sent a lease (applied_consumer u sent.message_id a s) i j) _ s
            (z.leads (some (renewed_lease u sent reply i j lease)) s.control_boundary_sequence
              s.control_requested_source s h)
            h)

  put_in :
      (sent reply : Message) (a : Ack) (i j : ℕ) (s : Source)
      → P s
      → P (remember_input u sent reply a i j s)
  unfolding remember_input
  put_in sent reply a i j s h =
      let r = renew_lease u sent reply a i j s in
      let o = remember_owner u sent reply a sent.payload i j s in
      if-both P (loses_lease sent a) (revoke_lease sent.header.sequence s)
        (if drives sent then r else o) (z.leads none _ none s h)
        (if-both P (drives sent) r o (renewed sent reply a i j s h)
          (owned sent reply a sent.payload i j s h))

  control_told :
      (sent reply : Message) (p : Payload) (i j : ℕ) (s : Source)
      → P s
      → P (remember_control_reply u sent reply p i j s)
  unfolding remember_control_reply check_source_status
  control_told sent reply (status p) i j s h =
      if-both P (reply.message_id == 131 && sent.message_id == 2) (check_source_status sent p s) s
        (if-both P (contradicts p s) (revoke_lease sent.header.sequence s) s
          (z.leads none _ none s h) h)
        h
  control_told sent reply (ack a) i j s h =
      if-both P (reply.message_id == 130 && implements s.capabilities sent.message_id)
        (remember_input u sent reply a i j s) s (put_in sent reply a i j s h) h
  control_told sent reply (session_open _ _ _ _) i j s h = h
  control_told sent reply (session_opened _) i j s h = h
  control_told sent reply (resource_chunk _) i j s h = h
  control_told sent reply (resource_ack _) i j s h = h
  control_told sent reply (lifecycle _) i j s h = h
  control_told sent reply (control_owner _) i j s h = h
  control_told sent reply (session_close _) i j s h = h
  control_told sent reply (measurement _) i j s h = h
  control_told sent reply (other _) i j s h = h

  pub remember_control_feedback-P :
      (sent reply : Message) (i j : ℕ) (is_fresh : Bool) (s : Source)
      → P s
      → P (remember_control_feedback u sent reply i j is_fresh s)
  unfolding remember_control_feedback
  remember_control_feedback-P sent reply i j is_fresh s h =
      if-both P (concerns sent reply i j is_fresh s && not s.model_clock_retired)
        (remember_control_reply u sent reply reply.payload i j s) s
        (control_told sent reply reply.payload i j s h) h
