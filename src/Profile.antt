-- ===== src/Profile.antt =====
-- rust/access_core/src/protocol_profile.rs: the protocol profile and its evaluation.
pub mod Admits
pub mod Evaluate
pub mod Monotone
use access.Common.{
  ℕ, Bool, true, false, not, ◌&&◌, ◌||◌, Option, none, some, List, [], ◌∷◌, String, ltb, contains,
  find, unwrap_or, ◌==◌, ◌!=◌,
}
use access.Common.Tests.{string_eq}
use access.Common.Int.{ℤ, pos, ltb_ℤ, saturating_sub, saturating_mul}
use access.Common.Result.{Result, ok, err, ◌>>=◌, ◌>>◌, ok_or, bail_if}
use access.Platform.{Platform}

pub record TrustBundleRequirements : Type 0 where
  pub bundle_id : String
  pub minimum_version : ℕ
  pub maximum_age_s : ℤ

pub record CredentialProfile : Type 0 where
  pub profile_id : String
  pub credential_type : String
  pub schema_id : String
  pub issuer_groups : List String
  pub maximum_status_age_s : Option ℤ

pub record ReadinessRule : Type 0 where
  pub maximum_age_ms : ℤ

pub record StageRuleProfile : Type 0 where
  pub rule_id : String
  pub action : String
  pub from_stage : String
  pub to_stage : String
  pub holder_proof_required : Bool
  pub required_session_status : String
  pub maximum_proof_age_s : Option ℤ
  pub readiness : ReadinessRule
  pub entitlement_ttl_s : ℕ

pub record ProtocolProfile : Type 0 where
  pub schema_version : String
  pub profile_id : String
  pub profile_version : ℕ
  pub valid_from : String
  pub valid_until : String
  pub trust_bundle : TrustBundleRequirements
  pub credential_profiles : List CredentialProfile
  pub stage_rules : List StageRuleProfile

pub record VerifiedCredentialEvidence : Type 0 where
  pub profile_id : String
  pub credential_type : String
  pub schema_id : String
  pub issuer_group : String
  pub status_checked_at_s : ℤ

pub record ProtocolRuleDecision : Type 0 where
  pub profile_id : String
  pub profile_version : ℕ
  pub rule_id : String
  pub entitlement_ttl_s : ℕ

pub data ProtocolProfileError : Type 0 where
  profile_expired trust_bundle_mismatch no_matching_rule : ProtocolProfileError
  credential_required holder_proof_required session_required : ProtocolProfileError
  readiness_stale invalid_timestamp : ProtocolProfileError

-- `Option::is_none_or` and `Option::is_some_and`
abbrev pub is_none_or : {A : Type 0} → Option A → (A → Bool) → Bool
is_none_or none test = true
is_none_or (some a) test = test a

abbrev pub is_some_and : {A : Type 0} → Option A → (A → Bool) → Bool
is_some_and none test = false
is_some_and (some a) test = test a

-- The test of one credential against the profile that it names.
unfoldable pub violates : CredentialProfile → VerifiedCredentialEvidence → ℤ → Bool
violates profile credential now_s =
    credential.credential_type != profile.credential_type
    || credential.schema_id != profile.schema_id
    || not (contains profile.issuer_groups credential.issuer_group)
    || is_some_and profile.maximum_status_age_s
        (λ maximum_age. ltb_ℤ maximum_age (saturating_sub now_s credential.status_checked_at_s))

-- The loop of `ProtocolProfile::validate_credentials`.
unfoldable pub validate_credentials :
    ProtocolProfile → List VerifiedCredentialEvidence → ℤ → Result ProtocolProfileError (Unit {0})
unfolding violates
validate_credentials self [] now_s = ok tt
validate_credentials self (credential ∷ rest) now_s = do
  profile ←
      ok_or (find (λ profile. profile.profile_id == credential.profile_id) self.credential_profiles)
        credential_required
  bail_if (violates profile credential now_s) credential_required
  validate_credentials self rest now_s

module _ (p : Platform) where
  pub record ReadinessEvidence : Type 0 where
    pub observed_at_ms : ℤ
    pub range_m : p.F64
    pub closing_rate_mps : p.F64
    pub checks : List (String × Bool)

  unfoldable pub parse_timestamp : String → Result ProtocolProfileError ℤ
  parse_timestamp value = ok_or (p.parse_from_rfc3339 value) invalid_timestamp

  unfoldable pub validate_foundation :
      ProtocolProfile → ℤ → String → ℕ → ℤ → Result ProtocolProfileError (Unit {0})
  unfolding parse_timestamp
  validate_foundation self now_s trust_bundle_id trust_bundle_version trust_bundle_issued_at_s = do
    valid_from ← parse_timestamp self.valid_from
    valid_until ← parse_timestamp self.valid_until
    bail_if (ltb_ℤ now_s valid_from || ltb_ℤ valid_until now_s) profile_expired
    bail_if
        (self.trust_bundle.bundle_id != trust_bundle_id
          || ltb trust_bundle_version self.trust_bundle.minimum_version
          || ltb_ℤ self.trust_bundle.maximum_age_s (saturating_sub now_s trust_bundle_issued_at_s))
        trust_bundle_mismatch
    ok tt

  -- `stage_rules.iter().find(...)`: the first rule for a pair of stages.
  abbrev pub matching_rule : ProtocolProfile → String → String → Option StageRuleProfile
  matching_rule self from_stage to_stage =
      find (λ rule. rule.from_stage == from_stage && rule.to_stage == to_stage) self.stage_rules

  abbrev pub lacks_proof : StageRuleProfile → ℤ → Option ℤ → Bool
  lacks_proof rule now_s holder_proof_at_s =
      rule.holder_proof_required
      && is_none_or holder_proof_at_s (λ proof_at.
        ltb_ℤ (unwrap_or (pos 0) rule.maximum_proof_age_s) (saturating_sub now_s proof_at))

  abbrev pub lacks_session : StageRuleProfile → Bool → Bool
  lacks_session rule session_authorized =
      rule.required_session_status == "authorized" && not session_authorized

  -- The age of the readiness evidence in milliseconds.
  abbrev pub readiness_age : ℤ → ReadinessEvidence → ℤ
  readiness_age now_s readiness =
      saturating_sub (saturating_mul now_s (pos 1000)) readiness.observed_at_ms

  unfoldable pub evaluate :
      ProtocolProfile
      → String
      → String
      → ℤ
      → String
      → ℕ
      → ℤ
      → List VerifiedCredentialEvidence
      → Option ℤ
      → Bool
      → ReadinessEvidence
      → Result ProtocolProfileError ProtocolRuleDecision
  evaluate self from_stage to_stage now_s bundle_id bundle_version bundle_issued_at_s credentials
        holder_proof_at_s session_authorized readiness =
      do
        validate_foundation self now_s bundle_id bundle_version bundle_issued_at_s
        validate_credentials self credentials now_s
        rule ← ok_or (matching_rule self from_stage to_stage) no_matching_rule
        bail_if (lacks_proof rule now_s holder_proof_at_s) holder_proof_required
        bail_if (lacks_session rule session_authorized) session_required
        bail_if (ltb_ℤ rule.readiness.maximum_age_ms (readiness_age now_s readiness))
            readiness_stale
        ok (record {
          profile_id = self.profile_id;
          profile_version = self.profile_version;
          rule_id = rule.rule_id;
          entitlement_ttl_s = rule.entitlement_ttl_s;
        })
