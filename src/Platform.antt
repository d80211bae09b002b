-- ===== src/Platform.antt =====
-- What the code takes from elsewhere: the crates `ed25519-dalek`, `coset`, `ciborium`, `hex`,
-- `chrono`, `sha2` and `cedar-policy`, the operating system's random source, IEEE floats, and the
-- durable backend that an integration supplies. Each is a field, by the name the source calls it.
pub mod Laws
use access.Common.{ℕ, Bool, Option, List, String, Bytes}
use access.Common.Int.{ℤ}
use access.Common.Result.{Result}
use access.Protocol.Claims.{ProtocolClaims, CredentialClaims}
use access.Protocol.Replay.{ReplayStateBackend}

-- The JSON object that `context` of rust/access_core/src/cedar.rs builds, by its keys.
pub record ContextValue : Type 0 where
  pub registered_vehicle : Bool
  pub docking_certified : Bool
  pub holder_proof_valid : Bool
  pub session_authorized : Bool
  pub readiness_fresh : Bool
  pub initial_hold_confirmed : Bool
  pub retreat_available : Bool
  pub relative_navigation_valid : Bool
  pub approach_corridor_clear : Bool
  pub closing_rate_within_limit : Bool
  pub alignment_within_limit : Bool
  pub capture_system_ready : Bool
  pub soft_capture_confirmed : Bool
  pub latches_ready : Bool
  pub relative_motion_stable : Bool
  pub range_mm : ℤ
  pub closing_rate_mmps : ℤ

pub record Platform : Type 1 where
  -- ed25519-dalek; keys are made of exactly 32 bytes
  pub VerifyingKey : Type 0
  pub Signature : Type 0
  pub SigningKey : Type 0
  pub verifying_key_from_bytes : Bytes → Option VerifyingKey
  pub signature_from_slice : Bytes → Option Signature
  pub verify_strict : VerifyingKey → Bytes → Signature → Bool
  pub signing_key_from_bytes : Bytes → SigningKey
  pub verifying_key : SigningKey → VerifyingKey
  pub sign : SigningKey → Bytes → Bytes
  -- coset: `CoseSign1Builder` with a protected EdDSA header, a key id, a payload and a signature;
  -- the bytes to be signed, before and after the message is built
  pub CoseSign1 : Type 0
  pub to_be_signed : Bytes → Bytes → Bytes → Bytes
  pub build : Bytes → Bytes → Bytes → CoseSign1
  pub alg_is_eddsa : CoseSign1 → Bool
  pub key_id : CoseSign1 → Bytes
  pub payload : CoseSign1 → Option Bytes
  pub signature : CoseSign1 → Bytes
  pub tbs_data : CoseSign1 → Bytes → Bytes
  pub to_tagged_vec : CoseSign1 → Option Bytes
  pub from_tagged_slice : Bytes → Option CoseSign1
  -- ciborium: `into_writer` and `from_reader` at the two claim types
  pub claims_to_cbor : ProtocolClaims → Option Bytes
  pub claims_from_cbor : Bytes → Option ProtocolClaims
  pub credential_to_cbor : CredentialClaims → Option Bytes
  pub credential_from_cbor : Bytes → Option CredentialClaims
  -- hex
  pub hex_encode : Bytes → String
  pub hex_decode : String → Option Bytes
  -- chrono: `DateTime::parse_from_rfc3339(value).timestamp()`
  pub parse_from_rfc3339 : String → Option ℤ
  -- sha2
  pub sha256 : Bytes → Bytes
  -- `f64`: `(value * 1000.0).ceil() as i64`
  pub F64 : Type 0
  pub times_1000 : F64 → F64
  pub ceil : F64 → F64
  pub f64_as_i64 : F64 → ℤ
  -- the `Debug` form of a `str`, quoted and escaped
  pub debug_str : String → String
  -- cedar-policy
  pub PolicySet : Type 0
  pub EntityUid : Type 0
  pub Context : Type 0
  pub Request : Type 0
  pub Response : Type 0
  pub parse_policy_set : String → Result String PolicySet
  pub policy_set_is_empty : PolicySet → Bool
  pub parse_entity_uid : String → Result String EntityUid
  pub context_from_json : ContextValue → Result String Context
  pub new_request : EntityUid → EntityUid → EntityUid → Context → Result String Request
  pub is_authorized : Request → PolicySet → Response
  pub diagnostics : Response → String
  pub has_errors : Response → Bool
  pub allows : Response → Bool
  -- the outcome of the k-th call of a `RandomSource::fill` on a buffer: the buffer filled, or none
  pub RandomSource : Type 0
  pub os_random_source : RandomSource
  pub fill : RandomSource → ℕ → Bytes → Option Bytes
  -- the state behind a `dyn ReplayStateBackend`, and its methods
  pub Backend : Type 0
  pub backend : ReplayStateBackend Backend
