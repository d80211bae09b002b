-- ===== src/Protocol.antt =====
-- rust/access_core/src/protocol.rs: signed messages, credentials, trust and replay protection.
pub mod Claims
pub mod Replay
pub mod Journal
pub mod Identity
pub mod Cose
pub mod Envelope
pub mod Credential
