-- ===== src/Simulator/Source/Inner.antt =====
-- input_simulator/session.py: what the parts of an operation do to the state, as a closure: a property that
-- the single changes keep is kept by every part.
use hil_simulation.Common.{ℕ, max, Bool, false, not, Option, some, arith, ltb}
use hil_simulation.Common.Result.{state}
use hil_simulation.Common.Exec.{Exec, lift, Keeps, Keeps-bind, Keeps-check}
use hil_simulation.Runtime.Contract.{Message}
use hil_simulation.Simulator.Source.State.{Profile, Source, operation, clock}
use hil_simulation.Simulator.Source.Attempts.{
  preview_header, check_first_attempt, check_heartbeat_transaction, claim_heartbeat_attempt,
  claim_first_attempt, claimed,
}
use hil_simulation.Simulator.Source.Feedback.{remember_feedback}
use hil_simulation.Simulator.Source.LeaseFeedback.{remember_control_feedback}
use hil_simulation.Simulator.Source.Replies.{check_reply}
use hil_simulation.Simulator.Source.Exchange.{attempt, take_reply}

-- The changes before and after a transmission.
pub record Inner (u : Profile) (P : Source → Type 0) : Type 0 where
  pub timed : (now : ℕ) (s : Source) → P s → P (record s { last_now = now })
  pub claims : (m : Message) (s : Source) → P s → P (claimed m s)
  pub beat : (last : Option (ℕ × ℕ)) (s : Source) → P s → P (record s { heartbeat_attempt = last })
  pub told :
      (sent reply : Message) (started completed : ℕ) (is_fresh : Bool)
      → Keeps P (remember_feedback u sent reply started completed is_fresh)
  pub controlled :
      (sent reply : Message) (started completed : ℕ) (is_fresh : Bool) (s : Source)
      → P s
      → P (remember_control_feedback u sent reply started completed is_fresh s)
  pub heard : (n : ℕ) (s : Source) → P s → P (record s { last_rx_sequence = n })

module _ (u : Profile) (P : Source → Type 0) (z : Inner u P) where
  pub clock-Keeps : (now : ℕ) → Keeps P (clock now)
  unfolding clock
  clock-Keeps now s h = ground (arith, z.timed now s h)

  pub check_first_attempt-Keeps : (m : Message) (b : Bool) → Keeps P (check_first_attempt m b)
  unfolding check_first_attempt
  check_first_attempt-Keeps m b s h = ground (arith, h)

  pub claim_heartbeat_attempt-Keeps : (m : Message) → Keeps P (claim_heartbeat_attempt m)
  unfolding claim_heartbeat_attempt check_heartbeat_transaction
  claim_heartbeat_attempt-Keeps m s h =
      ground (arith, z.beat (some (m.header.session_id, m.header.transaction_id)) s h)

  pub claim_first_attempt-Keeps : (m : Message) → Keeps P (claim_first_attempt m)
  unfolding claim_first_attempt
  claim_first_attempt-Keeps m =
      Keeps-bind P (check_first_attempt m false) _ (check_first_attempt-Keeps m false)
        (λ _ s h. z.claims m s h)

  pub attempt-Keeps : (m : Message) → Keeps P (attempt m)
  unfolding attempt
  attempt-Keeps m =
      Keeps-bind P (check_first_attempt m false) _ (check_first_attempt-Keeps m false) λ _.
        Keeps-bind P (claim_heartbeat_attempt m) _ (claim_heartbeat_attempt-Keeps m)
          λ _. claim_first_attempt-Keeps m

  pub take_reply-Keeps :
      (sent : Message) (a b : ℕ) (reply : Message) → Keeps P (take_reply u sent a b reply)
  unfolding take_reply
  take_reply-Keeps sent a b reply s h =
      Keeps-bind {B = Message} P (lift (check_reply u sent reply s.seen_sessions a b)) _ (λ s h. h)
        (λ _ s h.
          let is_fresh = ltb s.last_rx_sequence reply.header.sequence in
          Keeps-bind {B = Message} P (remember_feedback u sent reply a b is_fresh) _
            (z.told sent reply a b is_fresh)
            (λ _ s h.
              let s' = remember_control_feedback u sent reply a b is_fresh s in
              z.heard (max s'.last_rx_sequence reply.header.sequence) s'
                (z.controlled sent reply a b is_fresh s h))
            s h)
        s h

  pub preview_header-Keeps :
      (now mid at : ℕ) (txn : Option ℕ) → Keeps P (preview_header u now mid at txn)
  unfolding preview_header
  preview_header-Keeps now mid at txn = λ s h. ground (arith, clock-Keeps now s h)

module _ (P : Source → Type 0) where
  pub operation-Keeps :
      {A : Type 0} (body : Exec Source A) → Keeps P body → Keeps P (operation body)
  unfolding operation
  operation-Keeps body kept s h = Keeps-check P (not s.closed) state body kept s h
