-- ===== src/Session/Outcomes.antt =====
-- rust/access_core/src/session.rs: scenarios, events, outcomes and errors of the engine.
use access.Common.{ℕ, Bool, false, Option, none, List, [], ◌∷◌, String}
use access.Common.Int.{ℤ}
use access.Protocol.Claims.{ProtocolError}
use access.StateMachine.{TransitionError}
use access.Profile.{
  ProtocolProfileError, profile_expired, trust_bundle_mismatch, no_matching_rule,
  credential_required, holder_proof_required, session_required, readiness_stale, invalid_timestamp,
}
use access.Cedar.{AccessDecision, AccessPolicyError}

-- `MAX_CLOCK_SKEW_S`
abbrev pub max_clock_skew_s : ℤ
max_clock_skew_s = ℤ.pos 30

pub data AccessScenario : Type 0 where
  nominal expired_credential corridor_violation latch_not_ready : AccessScenario

pub record AccessEvent : Type 0 where
  pub code : String
  pub detail : String
  pub from : Option String
  pub to : Option String
  pub message_type : Option String

pub record TransitionOutcome : Type 0 where
  pub approved : Bool
  pub previous_state : ℕ
  pub resulting_state : ℕ
  pub reason : String
  pub session_id : Option String
  pub protocol_profile_id : Option String
  pub protocol_profile_version : Option ℕ
  pub rule_id : Option String
  pub grant_id : Option String
  pub entitlement_ttl_s : Option ℕ
  pub grant_expires_at_s : Option ℤ
  pub signed_grant_hex : Option String
  pub authorization_decision : Option AccessDecision
  pub events : List AccessEvent

pub record SessionOutcome : Type 0 where
  pub session_id : String
  pub protocol_profile_id : String
  pub protocol_profile_version : ℕ
  pub authorization_decision : AccessDecision
  pub events : List AccessEvent

pub data SessionError : Type 0 where
  protocol : ProtocolError → SessionError
  transition : TransitionError → SessionError
  session_binding credential_missing grant_mismatch : SessionError
  authorization_policy : AccessPolicyError → SessionError
  protocol_profile : ProtocolProfileError → SessionError
  random_source : SessionError

abbrev pub event : String → String → Option String → Option String → Option String → AccessEvent
event code detail from to message_type = record {
  code = code;
  detail = detail;
  from = from;
  to = to;
  message_type = message_type;
}

unfoldable pub denied : ℕ → String → String → TransitionOutcome
denied previous reason detail = record {
  approved = false;
  previous_state = previous;
  resulting_state = previous;
  reason = reason;
  session_id = none;
  protocol_profile_id = none;
  protocol_profile_version = none;
  rule_id = none;
  grant_id = none;
  entitlement_ttl_s = none;
  grant_expires_at_s = none;
  signed_grant_hex = none;
  authorization_decision = none;
  events = event reason detail none none none ∷ [];
}

-- The `Display` of a profile error.
abbrev pub profile_error_text : ProtocolProfileError → String
profile_error_text profile_expired = "protocol profile is outside its validity interval"
profile_error_text trust_bundle_mismatch =
    "configured trust bundle does not satisfy protocol profile"
profile_error_text no_matching_rule = "no protocol rule matches this transition"
profile_error_text credential_required = "required credential profile is missing or invalid"
profile_error_text holder_proof_required = "fresh holder proof is required"
profile_error_text session_required = "authorized session is required"
profile_error_text readiness_stale = "readiness evidence is stale"
profile_error_text invalid_timestamp = "protocol profile timestamp is invalid"

abbrev pub denial_reason : ProtocolProfileError → String
denial_reason profile_expired = "DENY_PROTOCOL_PROFILE_EXPIRED"
denial_reason trust_bundle_mismatch = "DENY_TRUST_BUNDLE"
denial_reason no_matching_rule = "DENY_NO_MATCHING_PROTOCOL_RULE"
denial_reason credential_required = "DENY_CREDENTIAL_REQUIRED"
denial_reason holder_proof_required = "DENY_HOLDER_PROOF"
denial_reason session_required = "DENY_SESSION_NOT_AUTHORIZED"
denial_reason readiness_stale = "DENY_READINESS_STALE"
denial_reason invalid_timestamp = "DENY_PROTOCOL_PROFILE_INVALID"

unfoldable pub policy_denied : ℕ → ProtocolProfileError → TransitionOutcome
unfolding denied
policy_denied previous error = denied previous (denial_reason error) (profile_error_text error)
