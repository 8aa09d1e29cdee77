-- ===== src/Runtime/Reassembly/Tests.antt =====
-- icd_runtime/reassembly.py: the two fragments of a message, an expiry and a discard.
use hil_simulation.Common.{ℕ, ◌*◌, ◌≡◌, refl, true, none, [], ◌∷◌, replicate}
use hil_simulation.Common.Bytes.{Bytes}
use hil_simulation.Common.Result.{ok, err}
use hil_simulation.Runtime.Contract.{other, canfd, to_36}
use hil_simulation.Runtime.Wire.Tests.{catalogue, header}
use hil_simulation.Runtime.Video.{VideoRules}
use hil_simulation.Runtime.Reassembly.Fragment.{Part, business}
use hil_simulation.Runtime.Reassembly.State.{Policy, Reassembler, initial, expire, discard_session}
use hil_simulation.Runtime.Reassembly.{Deployment, canfd_channel, push}
use hil_simulation.Runtime.Reassembly.PushBounds.{push-IsValid}
use hil_simulation.Runtime.Reassembly.Bounds.{
  IsValid, initial-IsValid, expire-IsValid, discard_session-IsValid,
}

abbrev policy : Policy
policy = record {
  duplicate_retention_ms = 2000;
  duplicate_cache_messages = 4096;
  total_limit = 4 * 1024 * 1024;
  slots_per_channel = 4;
}

abbrev video_rules : VideoRules
video_rules = record {
  chunk_bytes = 1152;
  max_datagram_bytes = 1200;
  max_frame_bytes = 2097152;
  max_fragments = 1821;
  queue_frames = 4;
  reassembly_timeout_ms = 100;
}

abbrev deployment : Deployment
deployment = record {
  contract = catalogue;
  rules = video_rules;
  policy = policy;
  channels = (1, canfd_channel) ∷ [];
  retain_completed = true;
  payload_decode = λ mid bytes. ok (other mid);
  sha256 = λ bytes. 0;
}

abbrev part : ℕ → Bytes → Part
part i bytes = business (record {
  transport = canfd;
  direction = to_36;
  message_id = 17;
  header = header;
  index = i;
  count = 2;
  payload = bytes;
  reservation_bytes = 50;
})

-- The state after the second of the two fragments, which comes first.
abbrev one_group : Reassembler
one_group = (push deployment (part 1 (replicate 12 7)) 1 to_36 true 5 none initial).1

one_group-IsValid : IsValid policy one_group
one_group-IsValid =
    push-IsValid deployment (part 1 (replicate 12 7)) 1 to_36 true 5 none (initial-IsValid policy)

push-IsValid_example :
    IsValid policy (push deployment (part 0 (replicate 38 7)) 1 to_36 true 9 none one_group).1
push-IsValid_example =
    push-IsValid deployment (part 0 (replicate 38 7)) 1 to_36 true 9 none one_group-IsValid

expire-IsValid_example : IsValid policy (expire policy 200_000_000 one_group).1
expire-IsValid_example = expire-IsValid policy 200_000_000 one_group-IsValid

abbrev discarded : Reassembler
discarded = elim (discard_session 5 one_group) [ ok s ↦ s | err code ↦ one_group ]

discard_done : discard_session 5 one_group ≡ ok discarded
unfolding discard_session
discard_done = refl

discard_session-IsValid_example : IsValid policy discarded
discard_session-IsValid_example = discard_session-IsValid policy 5 one_group-IsValid discard_done
