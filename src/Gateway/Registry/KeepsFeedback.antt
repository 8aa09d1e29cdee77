-- ===== src/Gateway/Registry/KeepsFeedback.antt =====
-- icd_gateway/session.py: the closure of Keeps.antt, for the look-up of admissions and the feedback.
use hil_simulation.Common.{
  ℕ, ◌+◌, ◌*◌, Bool, ◌&&◌, some, none, List, [], ◌∷◌, leb, ltb, ◌==◌, length, arith,
}
use hil_simulation.Common.Dict.{Dict}
use hil_simulation.Common.Result.{Code, key_error, state, capacity, buffer_full, expired}
use hil_simulation.Common.Exec.{
  ◌>>=◌, ◌>>◌, lift, check, some_or, Keeps, Keeps-bind, Keeps-check, Keeps-some_or,
}
use hil_simulation.Runtime.Contract.{
  Message, validate_message, validate_resource_feedback, to_36, from_36,
}
use hil_simulation.Gateway.Registry.State.{
  Session, Admission, Setup, Registry, clock, ensure_open, expire, get,
}
use hil_simulation.Gateway.Registry.Accept.{
  millisecond, admitted_record, require_admitted, observe_admitted, claim_admitted,
}
use hil_simulation.Gateway.Registry.Feedback.{
  find_record, put_record, check_reply, check_replies, session_of_request, record_response,
  check_correlated, record_completion, resource_record, validate_replies, defer_resource_response,
  finish_resource_response, only_received, wait_ms, is_unanswered, sum_bytes, pending,
}
use hil_simulation.Gateway.Registry.Deferral.{check_resource_deferral}
use hil_simulation.Gateway.Registry.Keeps.{Closed, On, expire-Keeps, get-Keeps, clock-Keeps}

module _ (u : Setup) (P : ℕ → Dict ℕ Session → Type 0) (z : Closed u P) where
  abbrev InP : Registry → Type 0
  InP = On u P z

  admitted_record-Keeps : (m : Message) → Keeps InP (admitted_record u m)
  unfolding admitted_record get ensure_open
  admitted_record-Keeps m s h = ground arith

  pub require_admitted-Keeps : (m : Message) (now : ℕ) → Keeps InP (require_admitted u m now)
  unfolding require_admitted
  require_admitted-Keeps m now =
      Keeps-bind InP (lift (validate_message u.contract (some to_36) none m)) _ (λ s h. h)
        (λ _.
          Keeps-bind InP (expire now) _ (expire-Keeps u P z now)
            (λ _. Keeps-bind InP (admitted_record u m) _ (admitted_record-Keeps m) (λ a s h. h)))

  pub observe_admitted-Keeps : (m : Message) (now : ℕ) → Keeps InP (observe_admitted u m now)
  unfolding observe_admitted
  observe_admitted-Keeps m now =
      Keeps-bind InP (lift (validate_message u.contract (some to_36) none m)) _ (λ s h. h)
        (λ _. Keeps-bind InP (clock now) _ (clock-Keeps u P z now) (λ _.
          get-Keeps u P z m.header.session_id _
            (λ x. λ s found h. ground (arith, admitted_record-Keeps m s h))))

  pub claim_admitted-Keeps : (m : Message) (now : ℕ) → Keeps InP (claim_admitted u m now)
  unfolding claim_admitted
  claim_admitted-Keeps m now =
      Keeps-bind InP (require_admitted u m now) _ (require_admitted-Keeps m now)
        (λ t s h. ground arith)

  check_reply-Keeps :
      (m : Message) (sid : ℕ) (reply : Message) → Keeps InP (check_reply u m sid reply)
  unfolding check_reply
  check_reply-Keeps m sid reply s h = ground arith

  check_replies-Keeps :
      (m : Message) (sid : ℕ) (replies : List Message) → Keeps InP (check_replies u m sid replies)
  unfolding check_replies
  check_replies-Keeps m sid [] s h = h
  check_replies-Keeps m sid (reply ∷ rest) s h =
      Keeps-bind InP (check_reply u m sid reply) _ (check_reply-Keeps m sid reply)
        (λ _. check_replies-Keeps m sid rest) s h

  find_record-Keeps : (key : ℕ × ℕ) (code : Code) → Keeps InP (find_record u key code)
  unfolding find_record
  find_record-Keeps key code s h = ground arith

  put_record-Keeps : (key : ℕ × ℕ) (a : Admission) → Keeps InP (put_record u key a)
  unfolding put_record
  put_record-Keeps key a s h = h

  session_of_request-Keeps : (m : Message) → Keeps InP (session_of_request u m)
  unfolding session_of_request
  session_of_request-Keeps m s h = ground arith

  -- The tests of `record_response` on the record it found, and the storing of the responses.
  answered-Keeps :
      (m : Message) (responses : List Message) (sid : ℕ) (a : Admission)
      → Keeps InP (
          check (a.digest == u.digest m) state
          >> (check
                (leb 1 (length responses)
                  && leb (length responses) 3
                  && leb (sum_bytes u.encoded_bytes responses) 4096)
                capacity
              >> (check_replies u m sid responses
                  >> (check (is_unanswered a) state
                      >> put_record u
                          (sid, m.header.sequence)
                          (record a { responses = some responses })))))
  answered-Keeps m responses sid a =
      let key : ℕ × ℕ = (sid, m.header.sequence) in
      let stored = put_record u key (record a { responses = some responses }) in
      let last = check (is_unanswered a) state >> stored in
      let replies = check_replies u m sid responses >> last in
      let last_kept =
        Keeps-check InP (is_unanswered a) state stored
          (put_record-Keeps key (record a { responses = some responses })) in
      let sized =
        leb 1 (length responses)
        && leb (length responses) 3
        && leb (sum_bytes u.encoded_bytes responses) 4096 in
      Keeps-check InP (a.digest == u.digest m) state (check sized capacity >> replies) (
        Keeps-check InP sized capacity replies (
          Keeps-bind InP (check_replies u m sid responses) (λ _. last)
            (check_replies-Keeps m sid responses) (λ _. last_kept)))

  pub record_response-Keeps :
      (m : Message) (responses : List Message) (now : ℕ)
      → Keeps InP (record_response u m responses now)
  unfolding record_response
  record_response-Keeps m responses now =
      Keeps-bind InP (expire now) _ (expire-Keeps u P z now) (λ _.
        Keeps-bind InP (session_of_request u m) _ (session_of_request-Keeps m) (λ sid.
          Keeps-bind InP (find_record u (sid, m.header.sequence) state) _
            (find_record-Keeps (sid, m.header.sequence) state)
            (λ a. answered-Keeps m responses sid a)))

  check_correlated-Keeps :
      (m : Message) (mid : ℕ) (replies : List Message)
      → Keeps InP (check_correlated u m mid replies)
  unfolding check_correlated
  check_correlated-Keeps m mid [] s h = h
  check_correlated-Keeps m mid (reply ∷ rest) s h =
      Keeps-bind InP (lift (validate_message u.contract (some from_36) none reply)) _ (λ s h. h)
        (λ _. Keeps-check InP _ _ _ (check_correlated-Keeps m mid rest)) s h

  pub record_completion-Keeps :
      (owned served : Bool) (probe : ℕ) (m : Message) (responses : List Message) (now : ℕ)
      → Keeps InP (record_completion u owned served probe m responses now)
  unfolding record_completion
  record_completion-Keeps owned served probe m responses now = Keeps-check InP _ _ _ (
      Keeps-bind InP (observe_admitted u m now) _ (observe_admitted-Keeps m now) (λ _.
        Keeps-bind InP (admitted_record u m) _ (admitted_record-Keeps m) (λ a.
          Keeps-check InP _ _ _ (
            Keeps-bind InP (check_correlated u m m.message_id responses) _
              (check_correlated-Keeps m m.message_id responses)
              (λ _. Keeps-check InP _ _ _ (
                Keeps-bind InP (clock now) _ (clock-Keeps u P z now)
                  (λ _. put_record-Keeps (m.header.session_id, m.header.sequence) _)))))))

  resource_record-Keeps : (m : Message) (now : ℕ) → Keeps InP (resource_record u m now)
  unfolding resource_record
  resource_record-Keeps m now =
      Keeps-bind InP (lift (validate_message u.contract (some to_36) none m)) _ (λ s h. h)
        (λ _. Keeps-check InP _ _ _ (
          Keeps-bind InP (expire now) _ (expire-Keeps u P z now) (λ _.
            get-Keeps u P z m.header.session_id _ (λ x s found h.
              ground
                (arith, find_record-Keeps (m.header.session_id, m.header.sequence) state s h)))))

  validate_replies-Keeps : (replies : List Message) → Keeps InP (validate_replies u replies)
  unfolding validate_replies
  validate_replies-Keeps [] s h = h
  validate_replies-Keeps (reply ∷ rest) s h =
      Keeps-bind InP (lift (validate_message u.contract (some from_36) none reply)) _ (λ s h. h)
        (λ _. validate_replies-Keeps rest) s h

  -- The end of `defer_resource_response`, from its call of `record_response` on.
  deferred-Keeps :
      (m : Message) (responses : List Message) (now deadline : ℕ)
      → Keeps InP (
          record_response u m responses now
          >> (find_record u (m.header.session_id, m.header.sequence) key_error >>= λ a.
              put_record u
                (m.header.session_id, m.header.sequence)
                (record a { resource_deadline_ns = some deadline })))
  deferred-Keeps m responses now deadline =
      let key : ℕ × ℕ = (m.header.session_id, m.header.sequence) in
      Keeps-bind InP (record_response u m responses now) _ (record_response-Keeps m responses now)
        (λ _.
          Keeps-bind InP (find_record u key key_error) _ (find_record-Keeps key key_error)
            (λ a. put_record-Keeps key (record a { resource_deadline_ns = some deadline })))

  pub defer_resource_response-Keeps :
      (m : Message) (responses : List Message) (now : ℕ)
      → Keeps InP (defer_resource_response u m responses now)
  unfolding defer_resource_response
  defer_resource_response-Keeps m responses now =
      Keeps-bind InP (resource_record u m now) _ (resource_record-Keeps m now) (λ a.
        Keeps-bind InP (validate_replies u responses) _ (validate_replies-Keeps responses) (λ _.
          Keeps-check InP (a.queued && is_unanswered a && only_received u responses) state _ (λ s h.
            let deadline = a.received_ns + wait_ms u m * millisecond in
            Keeps-check InP (ltb (pending s.records) 64) buffer_full _
              (Keeps-check InP (ltb now deadline) expired _
                (deferred-Keeps m responses now deadline))
              s h)))

  pub finish_resource_response-Keeps :
      (m reply : Message) (now : ℕ) → Keeps InP (finish_resource_response u m reply now)
  unfolding finish_resource_response
  finish_resource_response-Keeps m reply now =
      Keeps-bind InP (resource_record u m now) _ (resource_record-Keeps m now) (λ a.
        Keeps-bind InP (some_or state a.resource_deadline_ns) _
          (Keeps-some_or InP state a.resource_deadline_ns)
          (λ deadline.
            Keeps-bind InP (lift (validate_resource_feedback u.contract m reply)) _ (λ s h. h)
              (λ _. Keeps-check InP _ _ _ (
                Keeps-bind InP (some_or key_error a.responses) _
                  (Keeps-some_or InP key_error a.responses)
                  (λ prior. put_record-Keeps (m.header.session_id, m.header.sequence) _)))))

  pub check_resource_deferral-Keeps :
      (m response : Message) (now : ℕ) → Keeps InP (check_resource_deferral u m response now)
  unfolding check_resource_deferral
  check_resource_deferral-Keeps m response now =
      Keeps-bind InP (resource_record u m now) _ (resource_record-Keeps m now) (λ a.
        Keeps-bind InP (require_admitted u m now) _ (require_admitted-Keeps m now) (λ _.
          Keeps-bind InP (lift (validate_message u.contract (some from_36) none response)) _
            (λ s h. h) (λ _ s h. ground (arith, h))))
