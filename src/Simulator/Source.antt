-- ===== src/Simulator/Source.antt =====
-- input_simulator/session.py and model_clock.py: one session of a stimulus source, and what it observes of
-- the model's clock and of the control lease. One owner calls it: the locks, the dispatcher that may own
-- it and the guards of approved targets are not here.
pub mod State
pub mod Attempts
pub mod Feedback
pub mod LeaseFeedback
pub mod Replies
pub mod Exchange
pub mod Requests
pub mod Operations
pub mod Inner
pub mod Recording
pub mod Keeps
pub mod Learns
pub mod Kept
pub mod Bounds
pub mod Sequences
pub mod Retired
pub mod Clock
pub mod Leases
pub mod HeldLease
mod Tests
pub mod StatusView
pub mod Observed
