-- ===== src/Services/Errors.antt =====
-- The `Display` that `thiserror` derives for the errors of rust/access_core/src/protocol.rs,
-- state_machine.rs and session.rs.
use access.Common.{[], ◌∷◌, String}
use access.Common.Text.{format}
use access.StateMachine.{
  TransitionError, invalid_transition, identity_required, docking_authorization_required,
}
use access.Protocol.Claims.{
  ProtocolError, invalid_envelope, invalid_algorithm, untrusted_signer, invalid_signature,
  invalid_claims, issuer_mismatch, recipient_mismatch, stale, weak_nonce, replay, subject_mismatch,
  credential_expired, signing_failed, persistent_state,
}
use access.Cedar.{policy_error_text}
use access.Session.Outcomes.{
  SessionError, protocol, transition, session_binding, credential_missing, grant_mismatch,
  authorization_policy, protocol_profile, random_source, profile_error_text,
}

unfoldable pub protocol_error_text : ProtocolError → String
protocol_error_text invalid_envelope = "invalid COSE_Sign1 envelope"
protocol_error_text invalid_algorithm = "only EdDSA is accepted"
protocol_error_text untrusted_signer = "unknown or malformed key identifier"
protocol_error_text invalid_signature = "signature verification failed"
protocol_error_text invalid_claims = "invalid CBOR claims"
protocol_error_text issuer_mismatch = "protected key identifier and claim issuer differ"
protocol_error_text recipient_mismatch = "message recipient does not match local identity"
protocol_error_text stale = "message is outside the freshness window"
protocol_error_text weak_nonce = "nonce must contain at least 128 bits"
protocol_error_text replay = "nonce has already been consumed"
protocol_error_text subject_mismatch = "credential subject does not match the expected holder"
protocol_error_text credential_expired = "credential is not currently valid"
protocol_error_text (signing_failed detail) = format ("signing operation failed: " ∷ detail ∷ [])
protocol_error_text (persistent_state detail) =
    format ("persistent replay state failed: " ∷ detail ∷ [])

unfoldable pub transition_error_text : TransitionError → String
transition_error_text invalid_transition = "event is invalid from the current docking state"
transition_error_text identity_required = "verified identity is required for final approach"
transition_error_text TransitionError.session_required =
    "authorized session is required for soft capture"
transition_error_text docking_authorization_required =
    "docking authorization is required for hard dock"

unfoldable pub session_error_text : SessionError → String
unfolding protocol_error_text transition_error_text policy_error_text
session_error_text (protocol e) =
    format ("protocol verification failed: " ∷ protocol_error_text e ∷ [])
session_error_text (transition e) =
    format ("protected transition failed: " ∷ transition_error_text e ∷ [])
session_error_text session_binding = "session challenge or identifier binding failed"
session_error_text credential_missing = "credential presentation is missing"
session_error_text grant_mismatch = "authorization grant does not match the requested stage"
session_error_text (authorization_policy e) =
    format ("ACCESS authorization policy evaluation failed: " ∷ policy_error_text e ∷ [])
session_error_text (protocol_profile e) =
    format ("protocol policy validation failed: " ∷ profile_error_text e ∷ [])
session_error_text random_source = "operating-system random source failed"
