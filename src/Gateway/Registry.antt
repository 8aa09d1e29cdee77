-- ===== src/Gateway/Registry.antt =====
-- icd_gateway/session.py: the receiver-side session registry.
pub mod State
pub mod Accept
pub mod Feedback
pub mod Deferral
pub mod Controllers
pub mod Fresh
pub mod Keeps
pub mod KeepsAccept
pub mod KeepsFeedback
pub mod Sessions
pub mod History
pub mod Expiry
pub mod Tests
