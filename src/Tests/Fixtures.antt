-- ===== src/Tests/Fixtures.antt =====
-- A chaser, a station and an issuer, their trust, a profile with one rule, and engines of them.
use access.Common.{ℕ, ◌+◌, true, false, none, some, List, [], ◌∷◌, String, Bytes, replicate}
use access.Common.Int.{ℤ, pos}
use access.Protocol.Claims.{ProtocolClaims, CredentialClaims, AuthorizedStage, authorization_grant}
use access.Protocol.Identity.{IdentityKey, TrustStore, from_seed}
use access.Profile.{
  ProtocolProfile, ReadinessEvidence, VerifiedCredentialEvidence, ProtocolRuleDecision,
}
use access.Cedar.{AccessDecision, AccessPolicyMetadata}
use access.Session.Engine.{AccessEngine, new}
use access.Tests.{platform}

abbrev pub now : ℤ
now = pos 1000

abbrev pub metadata : AccessPolicyMetadata
metadata = record { bundle_id = "policies"; bundle_version = 3; policy_sha256 = "sha-256:00" }

abbrev pub profile : ProtocolProfile
profile = record {
  schema_version = "1";
  profile_id = "profile";
  profile_version = 2;
  valid_from = "start";
  valid_until = "end";
  trust_bundle = record { bundle_id = "bundle"; minimum_version = 1; maximum_age_s = pos 5000 };
  credential_profiles =
      record {
        profile_id = "registered-vehicle-v1";
        credential_type = "VehicleRegistrationCredential";
        schema_id = "space:vehicle-registration:v1";
        issuer_groups = "recognized-registrars" ∷ [];
        maximum_status_age_s = some (pos 300);
      }
      ∷ record {
        profile_id = "idss-compatible-v1";
        credential_type = "DockingCertificationCredential";
        schema_id = "space:docking-certification:v1";
        issuer_groups = "recognized-docking-authorities" ∷ [];
        maximum_status_age_s = none;
      }
      ∷ [];
  stage_rules =
      record {
        rule_id = "begin";
        action = "begin_approach";
        from_stage = "hold";
        to_stage = "approach";
        holder_proof_required = true;
        required_session_status = "authorized";
        maximum_proof_age_s = some (pos 60);
        readiness = record { maximum_age_ms = pos 2000 };
        entitlement_ttl_s = 30;
      }
      ∷ [];
}

abbrev pub evidence : List VerifiedCredentialEvidence
evidence =
    record {
      profile_id = "registered-vehicle-v1";
      credential_type = "VehicleRegistrationCredential";
      schema_id = "space:vehicle-registration:v1";
      issuer_group = "recognized-registrars";
      status_checked_at_s = pos 990;
    }
    ∷ []

abbrev pub decision : AccessDecision
decision = record {
  gate = "stage_transition";
  decision = "allow";
  diagnostics = "policy0";
  policy = metadata;
}

abbrev pub rule : ProtocolRuleDecision
rule = record {
  profile_id = "profile";
  profile_version = 2;
  rule_id = "begin";
  entitlement_ttl_s = 30;
}

-- The bytes of the k-th call of the random source.
abbrev pub nonce : ℕ → Bytes
nonce k = replicate 32 (65 + k)

module _ (messages : List ProtocolClaims) (credentials : List CredentialClaims) where
  unfoldable pub identity : String → ℕ → IdentityKey (platform messages credentials)
  unfolding platform from_seed
  identity id k = from_seed (platform messages credentials) id (k ∷ [])

  unfoldable pub trusts : String → ℕ → TrustStore (platform messages credentials)
  unfolding identity
  trusts id k = (id, (identity id k).verifying_key) ∷ []

  unfoldable pub readiness : ReadinessEvidence (platform messages credentials)
  unfolding platform
  readiness = record {
    observed_at_ms = pos 999500;
    range_m = 10;
    closing_rate_mps = 1;
    checks = ("initial_hold_confirmed", true) ∷ [];
  }

  -- An engine that no session has been opened on.
  unfoldable pub engine : AccessEngine (platform messages credentials)
  unfolding platform identity trusts new
  engine =
      new (platform messages credentials) (identity "chaser" 1) (identity "station" 2)
        (identity "issuer" 3) (trusts "chaser" 1) (trusts "station" 2) (trusts "issuer" 3)
        (trusts "station" 2)
        (record {
          protocol_profile = profile;
          authorization_policy_engine = record { policies = true; metadata = metadata };
          trust_bundle_id = "bundle";
          trust_bundle_version = 1;
          trust_bundle_issued_at_s = pos 500;
        })

  -- The same engine in a session, and with a grant pending.
  unfoldable pub in_session : AccessEngine (platform messages credentials)
  unfolding engine
  in_session = record engine {
    authorization = record {
      identity_verified = true;
      session_authorized = true;
      docking_authorized = false;
    };
    session_id = some "session";
    verified_credentials = evidence;
    holder_proof_at_s = some now;
  }

  unfoldable pub pending : AccessEngine (platform messages credentials)
  unfolding in_session
  pending = record in_session {
    pending_entitlements =
        ("grant", record { requested_state = 1; authorization_decision = decision }) ∷ [];
  }

abbrev pub grant : ProtocolClaims
grant = record {
  message_type = authorization_grant;
  issuer = "station";
  recipient = "chaser";
  issued_at_s = now;
  nonce = nonce 7;
  session_id = some "session";
  authorized_stage = some AuthorizedStage.approach;
  challenge_nonce = none;
  credentials = [];
  grant_id = some "grant";
  expires_at_s = some (pos 1030);
  protocol_profile_id = some "profile";
  protocol_profile_version = some 2;
  rule_id = some "begin";
  authorization_policy_bundle_id = some "policies";
  authorization_policy_bundle_version = some 3;
  authorization_policy_sha256 = some "sha-256:00";
}
