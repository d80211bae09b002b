-- ===== src/Session/Establish.antt =====
-- rust/access_core/src/session.rs: `establish_session`.
pub mod Closed
pub mod Opened
pub mod Established
pub mod Expired
use access.Common.{
  ℕ, Bool, true, false, Option, none, some, List, [], ◌∷◌, String, Bytes, is_empty, if◌then◌else◌,
  get,
}
use access.Common.Int.{ℤ, pos, wrapping_add, wrapping_sub}
use access.Common.Result
use access.Common.Result.{Result, ok, err, bail_if, map_err, traverse}
use access.Common.Text.{format, decimal}
use access.Common.Exec.{Exec, pure, lift, gets, modify, ◌>>=◌, ◌>>◌}
use access.Platform.{Platform}
use access.Protocol.Claims.{CredentialClaims, ProtocolError}
use access.Protocol.Identity.{IdentityKey, TrustStore}
use access.Protocol.Envelope.{VerifiedEnvelope}
use access.Protocol.Credential.{issue_credential, verify_credential}
use access.Profile.{VerifiedCredentialEvidence, validate_foundation, validate_credentials}
use access.Cedar.{AccessDecision, authorize_session}
use access.Session.Outcomes.{
  AccessScenario, nominal, expired_credential, corridor_violation, latch_not_ready, AccessEvent,
  event, SessionOutcome, SessionError, protocol, credential_missing, authorization_policy,
  protocol_profile,
}
use access.Session.Engine.{AccessEngine, Method, reset, random_nonce}
use access.Session.Messages.{send_request, send_offer, send_proof, bind_proof}

-- `scenario == AccessScenario::ExpiredCredential`
abbrev is_expired_credential : AccessScenario → Bool
is_expired_credential expired_credential = true
is_expired_credential _ = false

-- The two credentials of the demonstration, as the issuer claims them.
unfoldable pub registration_claims : String → String → ℤ → AccessScenario → CredentialClaims
registration_claims issuer subject now_s scenario = record {
  issuer = issuer;
  subject = subject;
  profile_id = "registered-vehicle-v1";
  credential_type = "VehicleRegistrationCredential";
  schema_id = "space:vehicle-registration:v1";
  issuer_group = "recognized-registrars";
  issued_at_s = wrapping_sub now_s (pos 60);
  expires_at_s =
      if is_expired_credential scenario
      then wrapping_sub now_s (pos 1)
      else wrapping_add now_s (pos 86400);
  status_checked_at_s = now_s;
}

unfoldable pub certification_claims : String → String → ℤ → CredentialClaims
certification_claims issuer subject now_s = record {
  issuer = issuer;
  subject = subject;
  profile_id = "idss-compatible-v1";
  credential_type = "DockingCertificationCredential";
  schema_id = "space:docking-certification:v1";
  issuer_group = "recognized-docking-authorities";
  issued_at_s = wrapping_sub now_s (pos 60);
  expires_at_s = wrapping_add now_s (pos 86400);
  status_checked_at_s = now_s;
}

unfoldable pub evidence_of : CredentialClaims → VerifiedCredentialEvidence
evidence_of claims = record {
  profile_id = claims.profile_id;
  credential_type = claims.credential_type;
  schema_id = claims.schema_id;
  issuer_group = claims.issuer_group;
  status_checked_at_s = claims.status_checked_at_s;
}

module _ (p : Platform) where
  -- `credential_claims.iter().map(issue_credential).collect()`
  unfoldable pub issue_credentials :
      IdentityKey p → String → ℤ → AccessScenario → Result ProtocolError (List Bytes)
  unfolding registration_claims certification_claims
  issue_credentials issuer subject now_s scenario =
      traverse (λ claims. issue_credential p claims issuer)
        (registration_claims issuer.key_id subject now_s scenario
          ∷ certification_claims issuer.key_id subject now_s
          ∷ [])

  -- The closure over the presented credentials.
  unfoldable pub verified_evidence :
      TrustStore p → String → ℤ → Bytes → Result ProtocolError VerifiedCredentialEvidence
  unfolding evidence_of
  verified_evidence trust subject now_s credential =
      Result.◌>>=◌ (verify_credential p credential trust subject now_s)
        λ claims. ok (evidence_of claims)

  -- The binding of the proof, and the verification of the credentials that it presents.
  unfoldable pub verify_presentation :
      VerifiedEnvelope → VerifiedEnvelope → ℤ → Method p (List VerifiedCredentialEvidence)
  verify_presentation offer proof now_s = do
    self ← gets (λ e. e)
    lift (bind_proof offer proof)
    lift (bail_if (is_empty proof.claims.credentials) credential_missing)
    lift (
        map_err protocol (
          traverse (verified_evidence self.credential_trust proof.signer now_s)
            proof.claims.credentials))

  -- The profile's checks and the policy's decision over the verified credentials.
  unfoldable pub authorize_claims : ℤ → Method p AccessDecision
  authorize_claims now_s = do
    self ← gets (λ e. e)
    lift (
        map_err protocol_profile (
          validate_foundation p self.config.protocol_profile now_s self.config.trust_bundle_id
            self.config.trust_bundle_version self.config.trust_bundle_issued_at_s))
    lift (
        map_err protocol_profile
          (validate_credentials self.config.protocol_profile self.verified_credentials now_s))
    modify (λ e. record e { holder_proof_at_s = some now_s })
    lift (
        map_err authorization_policy (
          authorize_session p self.config.authorization_policy_engine self.chaser.key_id
            self.station.key_id self.verified_credentials true))

  unfoldable pub establishment_events :
      AccessEngine p → String → String → AccessDecision → List AccessEvent
  establishment_events self request_signer session_id decision =
      let chaser = some self.chaser.key_id in
      let station = some self.station.key_id in
      event "TRUST_BUNDLE_LOADED" "Configured peer and issuer keys loaded" none none none
      ∷ event "ACCESS_REQUEST_VERIFIED" "Signed ACCESS request verified with replay protection"
          (some request_signer) station (some "ACCESS_REQUEST")
      ∷ event "SESSION_OFFER_VERIFIED"
          (format ("Signed challenge bound to session=" ∷ session_id ∷ [])) station chaser
          (some "SESSION_OFFER")
      ∷ event "CREDENTIAL_ISSUED"
          (format (
            "issuer=" ∷ self.credential_issuer.key_id ∷ "; type="
            ∷ "VehicleRegistrationCredential,DockingCertificationCredential" ∷ []))
          (some self.credential_issuer.key_id) chaser (some "CREDENTIAL")
      ∷ event "CREDENTIALS_VERIFIED" "Issuer signature, validity, and holder binding verified"
          chaser station (some "CREDENTIAL_PRESENTATION")
      ∷ event "HOLDER_PROOF_VERIFIED" "Fresh station challenge signed by credential subject" chaser
          station (some "SESSION_PROOF")
      ∷ event "ACCESS_INITIAL_CLAIMS_ALLOWED"
          (format (
            "bundle="
            ∷ decision.policy.bundle_id
            ∷ "@"
            ∷ decimal decision.policy.bundle_version
            ∷ "; hash="
            ∷ decision.policy.policy_sha256
            ∷ []))
          station chaser (some "ACCESS_AUTHORIZATION")
      ∷ event "SESSION_AUTHORIZED"
          (format ("session=" ∷ session_id ∷ "; replay caches active" ∷ [])) station chaser
          (some "SESSION_AUTHORIZATION")
      ∷ []

  -- `self.authorization.identity_verified = true`
  abbrev pub verify_identity : AccessEngine p → AccessEngine p
  verify_identity e = record e {
    authorization = record (e.authorization) { identity_verified = true };
  }

  -- `self.authorization.session_authorized = true; self.session_id = Some(session_id)`
  abbrev pub open_session : String → AccessEngine p → AccessEngine p
  open_session session_id e = record e {
    authorization = record (e.authorization) { session_authorized = true };
    session_id = some session_id;
  }

  -- `establish_session` up to the point where the session is opened.
  unfoldable pub prepare_session :
      ℤ → AccessScenario → Method p (String × VerifiedEnvelope × AccessDecision)
  prepare_session now_s scenario = do
    modify (reset p)
    modify (λ e. record e { scenario = scenario })
    session_nonce ← random_nonce p
    let session_id = format ("access-" ∷ p.hex_encode session_nonce ∷ [])
    request ← send_request p now_s
    modify verify_identity
    (challenge, offer) ← send_offer p session_id now_s
    self ← gets (λ e. e)
    credentials ← lift (
        map_err protocol
          (issue_credentials self.credential_issuer self.chaser.key_id now_s scenario))
    proof ← send_proof p session_id challenge credentials now_s
    evidence ← verify_presentation offer proof now_s
    modify (λ e. record e { verified_credentials = evidence })
    decision ← authorize_claims now_s
    pure (session_id, request, decision)

  unfoldable pub establish_session : ℤ → AccessScenario → Method p SessionOutcome
  unfolding establishment_events
  establish_session now_s scenario = do
    (session_id, request, decision) ← prepare_session now_s scenario
    modify (open_session session_id)
    self ← gets (λ e. e)
    pure (record {
      session_id = session_id;
      protocol_profile_id = self.config.protocol_profile.profile_id;
      protocol_profile_version = self.config.protocol_profile.profile_version;
      authorization_decision = decision;
      events = establishment_events self request.signer session_id decision;
    })
