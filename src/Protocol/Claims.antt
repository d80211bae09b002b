-- ===== src/Protocol/Claims.antt =====
-- rust/access_core/src/protocol.rs: the claims of messages and credentials, and the errors.
use access.Common.{ℕ, Option, List, String, Bytes}
use access.Common.Tests.{Eq}
use access.Common.Int.{ℤ}

pub data MessageType : Type 0 where
  access_request session_offer session_proof authorization_grant : MessageType

pub data AuthorizedStage : Type 0 where
  hold approach final_approach soft_capture hard_dock : AuthorizedStage

unfoldable pub AuthorizedStage-discrete : Discrete AuthorizedStage
AuthorizedStage-discrete = hlevel

instance unfoldable pub stage_eq : Eq AuthorizedStage
unfolding AuthorizedStage-discrete
stage_eq = record { dec = AuthorizedStage-discrete }

unfoldable pub MessageType-discrete : Discrete MessageType
MessageType-discrete = hlevel

instance unfoldable pub message_type_eq : Eq MessageType
unfolding MessageType-discrete
message_type_eq = record { dec = MessageType-discrete }

pub record ProtocolClaims : Type 0 where
  pub message_type : MessageType
  pub issuer : String
  pub recipient : String
  pub issued_at_s : ℤ
  pub nonce : Bytes
  pub session_id : Option String
  pub authorized_stage : Option AuthorizedStage
  pub challenge_nonce : Option Bytes
  pub credentials : List Bytes
  pub grant_id : Option String
  pub expires_at_s : Option ℤ
  pub protocol_profile_id : Option String
  pub protocol_profile_version : Option ℕ
  pub rule_id : Option String
  pub authorization_policy_bundle_id : Option String
  pub authorization_policy_bundle_version : Option ℕ
  pub authorization_policy_sha256 : Option String

pub record CredentialClaims : Type 0 where
  pub issuer : String
  pub subject : String
  pub profile_id : String
  pub credential_type : String
  pub schema_id : String
  pub issuer_group : String
  pub issued_at_s : ℤ
  pub expires_at_s : ℤ
  pub status_checked_at_s : ℤ

pub data ProtocolError : Type 0 where
  invalid_envelope invalid_algorithm untrusted_signer invalid_signature : ProtocolError
  invalid_claims issuer_mismatch recipient_mismatch stale weak_nonce : ProtocolError
  replay subject_mismatch credential_expired : ProtocolError
  signing_failed persistent_state : String → ProtocolError

-- `MIN_NONCE_BYTES`
abbrev pub min_nonce_bytes : ℕ
min_nonce_bytes = 16
