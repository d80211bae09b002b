-- ===== src/Session.antt =====
-- rust/access_core/src/session.rs: the session engine.
pub mod Outcomes
pub mod Stages
pub mod Engine
pub mod Messages
pub mod Answers
pub mod Establish
pub mod Request
pub mod Redeem
pub mod History
