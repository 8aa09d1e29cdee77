-- ===== src/Lib.antt =====
-- The input simulator and its gateway: their frozen message contract, its framing on CAN FD, UDP and
-- video, its reassembly, the sessions and the guards of the gateway, the session of a source, and the
-- framing of the WebSocket services.
--
-- A sender encodes a message (icd_runtime/wire.py) or a frame of video (icd_runtime/video.py) into
-- fragments; the gateway decodes each, a reassembler (icd_runtime/reassembly.py) puts the fragments of
-- one message together under quotas and deadlines, and the session registry
-- (icd_gateway/session.py) admits the message, remembers it for retries and records its feedback. The
-- queue (icd_gateway/model_queue.py) holds admitted inputs until their model's step, and the guards
-- (icd_gateway/semantic_guards.py) decide on lifecycle commands, control ownership and cleanup.
-- A source (input_simulator/session.py) opens a session, allocates headers, exchanges requests for
-- replies, and keeps what the replies tell of the model's clock and of the control lease
-- (input_simulator/model_clock.py).
-- Operators reach the services through WebSocket frames (python_services/shared/ws_framing.py).
-- Resources are sent in the background at a bounded rate (icd_runtime/resource_budget.py).
--
-- Files, by what they model:
--   Common.antt, Common/: lists and Booleans over the native numbers; bytes in little-endian order
--     (Bytes); dicts in insertion order, with their laws (Dict); calls that may raise (Result, which
--     holds the vocabulary of icd_runtime/errors.py), and methods that change an object and may raise
--     (Exec).
--   Runtime/Contract.antt, Runtime/Contract/Data.antt: icd_runtime/contract.py, `entry` and the
--     `validate_*` methods of messages; Data has the messages, payloads and catalogue entries.
--   Runtime/Chunks.antt: the cut of a payload into chunks, which both codecs share.
--   Runtime/Wire.antt, Runtime/Wire/: icd_runtime/wire.py, `WireCodec.encode`, `_entry`, `_fragment`
--     and `decode`. Layout has the struct layouts; Can, Udp, Fragments, Encode, Total and RoundTrip
--     hold the proofs.
--   Runtime/Video.antt, Runtime/Video/: icd_runtime/video.py, `VideoCodec`.
--   Runtime/Budget.antt, Runtime/Budget/: icd_runtime/resource_budget.py, `ResourceBudget`.
--   Runtime/Reassembly.antt, Runtime/Reassembly/: icd_runtime/reassembly.py; Fragment has `_check`,
--     State the state, `_remember`, `_drop`, `expire` and `discard_session`, and the parent `push`. Bounds and
--     PushBounds hold the proofs.
--   Gateway/Registry/: icd_gateway/session.py, `SessionRegistry`; State has the data, the clock and
--     `expire`, Accept the admission of messages, Feedback and Deferral the recording of responses. Keeps,
--     KeepsAccept and KeepsFeedback take a property of the sessions through every operation;
--     Sessions, Fresh, History and Expiry are about sequences of calls, admission and expiry.
--     Controllers has `run_session_ids` and `registered_controller`.
--   Gateway/Guards.antt, Gateway/Guards/: icd_gateway/semantic_guards.py, `SemanticGuards`; the parent has
--     `lifecycle`, `control_owner` and `cleanup`, External `external_control_owner` on the registry.
--     Lifecycle states the life of a model as a relation, Decision is about `lifecycle`, and Ownership
--     about `control_owner`.
--   Gateway/ModelQueue.antt, Gateway/ModelQueue/: icd_gateway/model_queue.py, `ModelQueue`; State has the
--     data and the removals, the parent `enqueue`, `expire` and `begin_step`, on a state that holds the
--     registry beside the queue. Bounds, Steps and Enqueue hold the proofs.
--   Services/WsFraming.antt, Services/WsFraming/: python_services/shared/ws_framing.py; Numbers has the
--     big-endian lengths and the exclusive or, RoundTrip and Readers the proofs.
--   Simulator/Source/: input_simulator/session.py and model_clock.py, `SourceSession`; State has the data
--     and the end of a session, Attempts the headers and the order of first attempts, Feedback and
--     LeaseFeedback what a reply tells, Replies, Exchange and Requests the exchange with the receiver,
--     StatusView and Observed what is observed. Operations makes sequences of calls; Inner,
--     Recording, Learns and Keeps take a property of the state through every operation; Clock, Retired,
--     Leases, HeldLease, Sequences and Bounds are about the observed clock and its end, the control
--     lease, the headers and the kept evidence, whose bytes Kept counts.
--
-- Correspondence: an object is a record of its fields, and a method a function from the state to the
-- result and the state, which stays as written when the method raises. A JSON object that passed its
-- schema is a record; text that is only compared (channels, peers, hashes, nonces, names) is a number.
-- A clock that starts at -1 starts at 0 here, and no time is below 0. Tests of the dynamic types of
-- arguments are left to the types. No definition has fuel: every loop is structural recursion over the
-- list it walks, or over the number of chunks.
--
-- Taken from outside: JSON Schema validation, the CRCs of binascii, SHA-256 and canonical JSON are
-- arguments. The payload codec (icd_runtime/payload.py) is an argument too, of which the round trip
-- asks that payloads have the catalogued size.
--
-- Not modelled: the loading of the contract from files; `WireCodec.rewrite`; the payload codec;
-- `discard_inactive_sessions`; of the registry, the validation of grants, and the configuration and
-- lifecycle responses; `run_configure` and `initial_state` of the guards, which compute with floats; of the
-- source, its locks and threads, its dispatcher, its recorder and the guards of approved targets;
-- the queue's `preview_expiry`; the gateway's receiver, binding maps, services and storage; the
-- simulator's dispatch, runs and evidence; servers, sockets and scripts, which are input and output.
pub mod Common
pub mod Runtime
pub mod Gateway
pub mod Services
pub mod Simulator
