-- ===== src/Cedar.antt =====
-- rust/access_core/src/cedar.rs: the policy engine around the `cedar-policy` crate.
pub mod Decisions
pub mod Facts
use access.Common.{
  ℕ, Bool, true, false, not, Option, none, some, List, [], ◌∷◌, String, any, get, unwrap_or, ◌==◌,
}
use access.Common.Tests.{string_eq}
use access.Common.Int.{ℤ, i64_max}
use access.Common.Result.{Result, ok, err, ◌>>=◌, ◌>>◌, bail_if, map_err}
use access.Common.Text.{format}
use access.Platform.{Platform, ContextValue}
use access.Profile.{VerifiedCredentialEvidence, ReadinessEvidence}
use access.Utf8.{as_bytes}

pub record AccessPolicyMetadata : Type 0 where
  pub bundle_id : String
  pub bundle_version : ℕ
  pub policy_sha256 : String

pub record AccessDecision : Type 0 where
  pub gate : String
  pub decision : String
  pub diagnostics : String
  pub policy : AccessPolicyMetadata

pub data AccessPolicyError : Type 0 where
  invalid_policy invalid_request denied : String → AccessPolicyError
  evaluation : String → String → AccessPolicyError

-- The `Display` that `thiserror` derives.
unfoldable pub policy_error_text : AccessPolicyError → String
policy_error_text (invalid_policy detail) =
    format ("ACCESS authorization policy set is invalid: " ∷ detail ∷ [])
policy_error_text (invalid_request detail) =
    format ("ACCESS authorization request is invalid: " ∷ detail ∷ [])
policy_error_text (denied gate) =
    format ("ACCESS authorization policy denied the request at gate " ∷ gate ∷ [])
policy_error_text (evaluation gate detail) =
    format ("ACCESS authorization evaluation failed at gate " ∷ gate ∷ ": " ∷ detail ∷ [])

module _ (p : Platform) where
  pub record CedarPolicyEngine : Type 0 where
    pub policies : p.PolicySet
    pub metadata : AccessPolicyMetadata

  -- `CedarPolicyEngine::from_source`
  unfoldable pub from_source : String → ℕ → String → Result AccessPolicyError CedarPolicyEngine
  from_source bundle_id bundle_version source = do
    policies ← map_err invalid_policy (p.parse_policy_set source)
    bail_if (p.policy_set_is_empty policies)
        (invalid_policy "policy set must contain at least one policy")
    ok (record {
      policies = policies;
      metadata = record {
        bundle_id = bundle_id;
        bundle_version = bundle_version;
        policy_sha256 = format ("sha-256:" ∷ p.hex_encode (p.sha256 (as_bytes source)) ∷ []);
      };
    })

  -- `value.checks.get(name)` of the evidence, if any, and false where it is missing
  abbrev pub check : Option (ReadinessEvidence p) → String → Bool
  check none name = false
  check (some value) name = unwrap_or false (get value.checks name)

  abbrev pub has_profile : List VerifiedCredentialEvidence → String → Bool
  has_profile credentials profile = any (λ credential. credential.profile_id == profile) credentials

  abbrev pub millis : p.F64 → ℤ
  millis value = p.f64_as_i64 (p.ceil (p.times_1000 value))

  abbrev pub range_mm_of : Option (ReadinessEvidence p) → ℤ
  range_mm_of none = i64_max
  range_mm_of (some value) = millis value.range_m

  abbrev pub closing_rate_mmps_of : Option (ReadinessEvidence p) → ℤ
  closing_rate_mmps_of none = i64_max
  closing_rate_mmps_of (some value) = millis value.closing_rate_mps

  unfoldable pub context :
      List VerifiedCredentialEvidence
      → Bool
      → Bool
      → Option (ReadinessEvidence p)
      → Bool
      → ContextValue
  context credentials holder_proof_valid session_authorized readiness readiness_fresh = record {
    registered_vehicle = has_profile credentials "registered-vehicle-v1";
    docking_certified = has_profile credentials "idss-compatible-v1";
    holder_proof_valid = holder_proof_valid;
    session_authorized = session_authorized;
    readiness_fresh = readiness_fresh;
    initial_hold_confirmed = check readiness "initial_hold_confirmed";
    retreat_available = check readiness "retreat_available";
    relative_navigation_valid = check readiness "relative_navigation_valid";
    approach_corridor_clear = check readiness "approach_corridor_clear";
    closing_rate_within_limit = check readiness "closing_rate_within_limit";
    alignment_within_limit = check readiness "alignment_within_limit";
    capture_system_ready = check readiness "capture_system_ready";
    soft_capture_confirmed = check readiness "soft_capture_confirmed";
    latches_ready = check readiness "latches_ready";
    relative_motion_stable = check readiness "relative_motion_stable";
    range_mm = range_mm_of readiness;
    closing_rate_mmps = closing_rate_mmps_of readiness;
  }

  -- `CedarPolicyEngine::authorize`
  unfoldable pub authorize :
      CedarPolicyEngine
      → String
      → String
      → String
      → String
      → ContextValue
      → Result AccessPolicyError AccessDecision
  authorize self gate vehicle_id action station_id context_value = do
    principal ←
        map_err invalid_request
          (p.parse_entity_uid (format ("Vehicle::" ∷ p.debug_str vehicle_id ∷ [])))
    action_uid ←
        map_err invalid_request (p.parse_entity_uid (format ("Action::" ∷ p.debug_str action ∷ [])))
    resource ←
        map_err invalid_request
          (p.parse_entity_uid (format ("Station::" ∷ p.debug_str station_id ∷ [])))
    built ← map_err invalid_request (p.context_from_json context_value)
    request ← map_err invalid_request (p.new_request principal action_uid resource built)
    let response = p.is_authorized request self.policies
    bail_if (p.has_errors response) (evaluation gate (p.diagnostics response))
    bail_if (not (p.allows response)) (denied gate)
    ok (record {
      gate = gate;
      decision = "allow";
      diagnostics = p.diagnostics response;
      policy = self.metadata;
    })

  unfoldable pub authorize_session :
      CedarPolicyEngine
      → String
      → String
      → List VerifiedCredentialEvidence
      → Bool
      → Result AccessPolicyError AccessDecision
  unfolding context
  authorize_session self vehicle_id station_id credentials holder_proof_valid =
      authorize self "initial_claims" vehicle_id "authorize_session" station_id
        (context credentials holder_proof_valid false none false)

  unfoldable pub authorize_transition :
      CedarPolicyEngine
      → String
      → String
      → String
      → List VerifiedCredentialEvidence
      → Bool
      → Bool
      → ReadinessEvidence p
      → Bool
      → Result AccessPolicyError AccessDecision
  unfolding context
  authorize_transition self vehicle_id station_id action credentials holder_proof_valid
        session_authorized readiness readiness_fresh =
      authorize self "stage_transition" vehicle_id action station_id
        (context credentials holder_proof_valid session_authorized (some readiness) readiness_fresh)
