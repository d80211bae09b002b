-- ===== src/Lib.antt =====
-- The ACCESS authorization core of the rendezvous and docking demonstration: a chaser proves its
-- identity and credentials to a station, obtains single-use entitlements, and redeems each at a gate
-- before a protected docking state is entered.
--
-- The program is the crate rust/access_core. Its parts, and the modules that model them:
--   * rust/access_core/src/state_machine.rs, the reducer of the docking states: StateMachine.
--   * rust/access_core/src/protocol.rs, signed messages and credentials, and the replay cache:
--     Protocol, with Protocol.Claims (the data), Protocol.Identity (keys and trust stores),
--     Protocol.Cose (`sign_payload`, `verify_signed_payload`), Protocol.Envelope (`sign_envelope`,
--     `verify_envelope`), Protocol.Credential, Protocol.Replay (`ReplayCache` over a
--     `ReplayStateBackend`) and Protocol.Journal (`FileReplayStateBackend`).
--   * rust/access_core/src/protocol_profile.rs, the mission's rules: Profile.
--   * rust/access_core/src/cedar.rs, the policy engine around `cedar-policy`: Cedar.
--   * rust/access_core/src/session.rs, the engine that joins them: Session, with Session.Outcomes and
--     Session.Stages (data and tables), Session.Engine (the state and its set-up), Session.Messages
--     (the messages of a handshake), Session.Establish (`establish_session`), Session.Answers and
--     Session.Request (`request_transition`), Session.Redeem (`redeem_transition`) and
--     Session.History (any sequence of these operations and resets, and, in its Lives, restarts of
--     the process that reopen the journals).
--   * rust/access_core/src/bin, the three executables: Services, with Services.Errors (the texts of
--     errors), Services.Verifier (access_entitlement_verifier.rs, the client's check of a grant),
--     Services.Authority (access_authority.rs, the engine behind a line protocol) with its
--     Services.Authority.Setup (the configuration and the engine built of it), and Services.Signer
--     (access_signer.rs, the process that holds a seed).
-- The engine calls the profile, then the policy engine, and seals what they allow in a signed grant;
-- the gate verifies the grant against its own trust and replay cache, asks the profile again, and
-- only then lets the reducer step. The authority drives one engine, signs through the signer's
-- process, and answers each line of its stdin; the verifier checks the grants that it issues. Each
-- module's comment names the code that it is about.
--
-- How the code is modelled. A function that returns a `Result` returns `Result` of Common.Result, and
-- `?` is its bind. A method with `&mut self` is an `Exec` of Common.Exec: a function from the state
-- to a result and the state after, so that what was written before an error stays written. Maps are
-- association lists, sets of identifiers are lists. A `u64` or `i64` is a number, and where the code
-- saturates or wraps, Common.Int writes that out. `String` is the native string, and its UTF-8 bytes
-- are those of Utf8. Every loop is a recursion on a list; there is no fuel.
--
-- What the crate takes from elsewhere is the record Platform: `ed25519-dalek`, `coset`, `ciborium`,
-- `hex`, `chrono`, `sha2`, `cedar-policy`, the random source and IEEE floats. Nothing is assumed of
-- its fields, except where a theorem takes a record of Platform.Laws, which states documented
-- behaviour of those crates, or the documented behaviour of a backend's commits (IsDurable, IsLasting)
-- or of a file's lines (IsTextFile). Tests has a platform for which these laws hold, and runs the model on
-- it. Cryptographic strength is not modelled: authentic means that the signature verifies under the
-- trusted key.
--
-- Not modelled: the file system, JSON, the environment, child processes and the clock, whose results
-- are the parameters JournalFile, Host, AuthorityOs, VerifierJson, AuthorityJson and SignerJson; the
-- writing of the responses to stdout, which the loops return instead; and the ROS, web and simulation
-- code, which is not Rust.
mod Common
pub mod Utf8
pub mod StateMachine
pub mod Protocol
pub mod Platform
pub mod Profile
pub mod Cedar
pub mod Session
pub mod Services
pub mod Tests
