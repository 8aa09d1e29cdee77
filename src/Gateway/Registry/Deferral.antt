-- ===== src/Gateway/Registry/Deferral.antt =====
-- icd_gateway/session.py: `check_resource_deferral`, which asks beforehand what `defer_resource_response`
-- will ask.
use hil_simulation.Common.{ℕ, ◌+◌, ◌*◌, Bool, ◌&&◌, some, none, ltb, ◌==◌}
use hil_simulation.Common.Result.{state, buffer_full, expired}
use hil_simulation.Common.Exec.{Exec, ◌>>=◌, ◌>>◌, lift, gets, check}
use hil_simulation.Runtime.Contract.{Message, received, from_36, validate_message}
use hil_simulation.Gateway.Registry.State.{Setup, Registry}
use hil_simulation.Gateway.Registry.Accept.{require_admitted, millisecond}
use hil_simulation.Gateway.Registry.Feedback.{
  resource_record, with_ack, stage_eq, is_unanswered, pending, wait_ms,
}

-- The RECEIVED acknowledgement of this resource request.
abbrev pub received_prefix : Message → Message → Bool
received_prefix m response =
    response.message_id == 130
    && with_ack response (λ a.
      stage_eq a.stage received
      && a.ok_error
      && a.probe_id == 0
      && a.request_message_id == 34
      && a.request_sequence == m.header.sequence)
    && response.header.session_id == m.header.session_id
    && response.header.transaction_id == m.header.transaction_id

module _ (u : Setup) where
  unfoldable pub check_resource_deferral : Message → Message → ℕ → Exec Registry (Unit {0})
  check_resource_deferral m response now = do
    a ← resource_record u m now
    require_admitted u m now
    lift (validate_message u.contract (some from_36) none response)
    check (received_prefix m response && is_unanswered a) state
    waiting ← gets (λ s. pending s.records)
    check (ltb waiting 64) buffer_full
    check (ltb now (a.received_ns + wait_ms u m * millisecond)) expired
