-- ===== src/Session/Establish/Opened.antt =====
-- What a session that opens has established.
use access.Common.{
  ◌≡◌, refl, sym, ap, subst, true, false, some, [], ◌∷◌, List, String, Bytes, is_empty, arith,
}
use access.Common.Int.{ℤ}
use access.Common.Result.{ok, ok-injective, try-then, traverse, bail_if-eq-ok, map_err-eq-ok}
use access.Common.Exec.{lift-then, gets-then, modify-then, bind-then, pure-eq-ok, lift-eq-ok}
use access.Common.Exec.Keeps.{Keeps-after}
use access.Platform.{Platform}
use access.Protocol.Identity.{IdentityKey, TrustStore}
use access.Protocol.Envelope.{VerifiedEnvelope}
use access.Profile.{VerifiedCredentialEvidence, validate_foundation, validate_credentials}
use access.Cedar.{AccessDecision, authorize_session}
use access.Session.Outcomes.{AccessScenario}
use access.Session.Engine.{AccessEngine, reset}
use access.Session.Engine.Frame.{IsLoose}
use access.Common.Text.{format}
use access.Protocol.Claims.{CredentialClaims}
use access.Protocol.Credential.{verify_credential}
use access.Protocol.Credential.Laws.{IsValid, verify_credential_iff}
use access.Session.Request.Granted.{Carries, Carries-refl, Carries-IsLoose}
use access.Session.Messages.Sent.{IsAnswered, bind_proof-IsAnswered}
use access.Session.Messages.{send_offer, send_proof, bind_proof}
use access.Session.Messages.Keeps.{Keeps-send_offer, Keeps-send_proof}
use access.Session.Establish.{
  issue_credentials, verified_evidence, evidence_of, verify_identity, verify_presentation,
  authorize_claims, prepare_session,
}
use access.Session.Establish.Closed.{IsHandshakeLoose}

module _ (p : Platform) (now : ℤ) where
  -- Each credential is valid under the trust for the subject, and its evidence is of its claims.
  pub data AreVerified (trust : TrustStore p) (subject : String)
      : List Bytes → List VerifiedCredentialEvidence → Type 0 where
    nothing : AreVerified trust subject [] []
    credential :
        (encoded : Bytes) (rest : List Bytes) (claims : CredentialClaims)
        (evidence : VerifiedCredentialEvidence) (others : List VerifiedCredentialEvidence)
        → IsValid p encoded trust subject now claims
        → evidence ≡ record {
          profile_id = claims.profile_id;
          credential_type = claims.credential_type;
          schema_id = claims.schema_id;
          issuer_group = claims.issuer_group;
          status_checked_at_s = claims.status_checked_at_s;
        }
        → AreVerified trust subject rest others
        → AreVerified trust subject (encoded ∷ rest) (evidence ∷ others)

  pub verified_evidence-AreVerified :
      (trust : TrustStore p) (subject : String) (encodeds : List Bytes)
      (evidence : List VerifiedCredentialEvidence)
      → traverse (verified_evidence p trust subject now) encodeds ≡ ok evidence
      → AreVerified trust subject encodeds evidence
  unfolding verified_evidence evidence_of
  verified_evidence-AreVerified trust subject [] evidence h =
      subst (AreVerified trust subject []) (ok-injective h) nothing
  verified_evidence-AreVerified trust subject (encoded ∷ rest) evidence h =
      try-then (verified_evidence p trust subject now encoded) _ h λ first read h1.
        try-then (traverse (verified_evidence p trust subject now) rest) _ h1 λ others more h2.
          try-then (verify_credential p encoded trust subject now) _ read λ claims valid h3.
            subst (AreVerified trust subject (encoded ∷ rest)) (ok-injective h2) (
              credential encoded rest claims first others
                ((verify_credential_iff p encoded trust subject now claims).0 valid)
                (sym (ok-injective h3))
                (verified_evidence-AreVerified trust subject rest others more))

  -- The proof answers the offer, and every credential that it presents was verified.
  pub record IsPresented (offer proof : VerifiedEnvelope) (e : AccessEngine p)
      (evidence : List VerifiedCredentialEvidence) : Type 0 where
    pub bound : bind_proof offer proof ≡ ok tt
    pub presented : is_empty proof.claims.credentials ≡ false
    pub verified :
        traverse (verified_evidence p e.credential_trust proof.signer now) proof.claims.credentials
        ≡ ok evidence

  verify_presentation-IsPresented :
      (offer proof : VerifiedEnvelope) (e e' : AccessEngine p)
      (evidence : List VerifiedCredentialEvidence)
      → verify_presentation p offer proof now e ≡ (ok evidence, e')
      → IsPresented offer proof e evidence × (e ≡ e')
  unfolding verify_presentation
  verify_presentation-IsPresented offer proof e e' evidence h =
      lift-then _ _ (gets-then _ _ h) λ _ bound h2. lift-then _ _ h2 λ _ presented h3.
        let (verified, same) = lift-eq-ok _ _ h3 in
        (
          record {
            bound = bound;
            presented = bail_if-eq-ok _ _ presented;
            verified = map_err-eq-ok _ _ verified;
          },
          same,
        )

  -- The foundation of the profile holds, and the policy allows a session with the evidence.
  pub record IsAllowed (e e' : AccessEngine p) (decision : AccessDecision) : Type 0 where
    pub founded :
        validate_foundation p e.config.protocol_profile now e.config.trust_bundle_id
          e.config.trust_bundle_version e.config.trust_bundle_issued_at_s
        ≡ ok tt
    pub credentialed :
        validate_credentials e.config.protocol_profile e.verified_credentials now ≡ ok tt
    pub allowed :
        authorize_session p e.config.authorization_policy_engine e.chaser.key_id e.station.key_id
          e.verified_credentials true
        ≡ ok decision
    pub after : record e { holder_proof_at_s = some now } ≡ e'

  authorize_claims-IsAllowed :
      (e e' : AccessEngine p) (decision : AccessDecision)
      → authorize_claims p now e ≡ (ok decision, e')
      → IsAllowed e e' decision
  unfolding authorize_claims
  authorize_claims-IsAllowed e e' decision h = lift-then _ _ (gets-then _ _ h) λ _ founded h2.
      lift-then _ _ h2 λ _ credentialed h3.
        let (allowed, same) = lift-eq-ok _ _ (modify-then _ _ h3) in
        record {
          founded = map_err-eq-ok _ _ founded;
          credentialed = map_err-eq-ok _ _ credentialed;
          allowed = map_err-eq-ok _ _ allowed;
          after = same;
        }

-- An answered challenge, of the engine after the answer.
answered_after :
    (p : Platform) (now : ℤ) (session_id : String) (challenge : Bytes) (credentials : List Bytes)
    (e s t : AccessEngine p) (offer proof : VerifiedEnvelope)
    → send_offer p session_id now e ≡ (ok (challenge, offer), s)
    → send_proof p session_id challenge credentials now s ≡ (ok proof, t)
    → bind_proof offer proof ≡ ok tt
    → IsAnswered p now session_id credentials t.chaser t.station t.chaser_peer_trust
        t.station_peer_trust t.random_source offer proof
answered_after p now session_id challenge credentials e s t offer proof offered proved bound =
    let loose = Carries-IsLoose e in
    let before =
      Keeps-after _ e s (challenge, offer) (Keeps-send_offer (Carries e) loose session_id now)
        (Carries-refl e) offered in
    let kept =
      Keeps-after _ s t proof
        (Keeps-send_proof (Carries e) loose session_id challenge credentials now) before proved in
    let k = kept.frame in
    rw (k.chaser, k.station, k.chaser_peer_trust, k.station_peer_trust, kept.source)
      (bind_proof-IsAnswered p now session_id challenge credentials e s s t offer proof
        before.frame.chaser before.frame.station before.frame.station_peer_trust offered proved
        bound)

record IsIdentified {p : Platform} (e : AccessEngine p) : Type 0 where
  identified : e.authorization.identity_verified ≡ true

IsIdentified-IsLoose : {p : Platform} → IsLoose (λ (e : AccessEngine p). IsIdentified e)
IsIdentified-IsLoose = record {
  station_replay = λ c e h. ground arith;
  chaser_replay = λ c e h. ground arith;
  fills = λ e h. ground arith;
}

module _ (p : Platform) (now : ℤ) (scenario : AccessScenario) (e e' : AccessEngine p) where
  -- Before the session opens: the presentation, and the decision on it.
  pub record IsPrepared (session_id : String) (request : VerifiedEnvelope)
      (decision : AccessDecision) : Type 0 where
    pub offer : VerifiedEnvelope
    pub proof : VerifiedEnvelope
    pub middle : AccessEngine p
    pub identified : middle.authorization.identity_verified ≡ true
    pub evidence : List VerifiedCredentialEvidence
    pub presented : IsPresented p now offer proof middle evidence
    pub allowed : IsAllowed p now (record middle { verified_credentials = evidence }) e' decision
    pub issuer : IdentityKey p
    pub subject : String
    pub credentials : List Bytes
    pub issued : issue_credentials p issuer subject now scenario ≡ ok credentials
    pub named : String
    pub challenge : Bytes
    pub answered :
        IsAnswered p now session_id credentials middle.chaser middle.station
          middle.chaser_peer_trust middle.station_peer_trust middle.random_source offer proof
    pub before : AccessEngine p
    pub proved : send_proof p named challenge credentials now before ≡ (ok proof, middle)

  pub prepare_session-IsPrepared :
      (session_id : String) (request : VerifiedEnvelope) (decision : AccessDecision)
      → prepare_session p now scenario e ≡ (ok (session_id, request, decision), e')
      → IsPrepared session_id request decision
  unfolding prepare_session
  prepare_session-IsPrepared session_id request decision h =
      bind-then _ _ (modify-then _ _ (modify-then _ _ h)) λ nonce s1 _ h1.
        bind-then _ _ h1 λ requested s2 _ h2.
          bind-then _ _ (modify-then _ _ h2) λ (challenge, offer) s3 offered h3.
            lift-then _ _ (gets-then _ _ h3) λ credentials issued h4.
              bind-then _ _ h4 λ proof s4 proved h5. bind-then _ _ h5 λ evidence s5 presented h6.
                bind-then _ _ (modify-then _ _ h6) λ decided s6 allowed h7.
                  let (presentation, kept) =
                    verify_presentation-IsPresented p now offer proof s4 s5 evidence presented in
                  let (result, same) = pure-eq-ok _ _ h7 in
                  let decides : decided ≡ decision = ap (λ x. x.2) result in
                  let identified =
                    Keeps-after _ s3 s4 proof
                      (Keeps-send_proof (λ x. IsIdentified x) IsIdentified-IsLoose _ _ _ now)
                      (Keeps-after _ _ s3 (challenge, offer)
                        (Keeps-send_offer (λ x. IsIdentified x) IsIdentified-IsLoose _ now)
                        (record { identified = refl }) offered)
                      proved in
                  let named : format ("access-" ∷ p.hex_encode nonce ∷ []) ≡ session_id =
                    ap (λ x. x.0) result in
                  record {
                    offer = offer;
                    proof = proof;
                    middle = s4;
                    identified = identified.identified;
                    evidence = evidence;
                    presented = presentation;
                    allowed =
                        rw (kept, ← decides, ← same)
                          (authorize_claims-IsAllowed p now
                            (record s5 { verified_credentials = evidence }) s6 decided allowed);
                    issuer = _;
                    subject = _;
                    credentials = credentials;
                    issued = map_err-eq-ok _ _ issued;
                    named = _;
                    challenge = challenge;
                    answered =
                        subst
                          (λ s.
                            IsAnswered p now s credentials s4.chaser s4.station s4.chaser_peer_trust
                              s4.station_peer_trust s4.random_source offer proof)
                          named
                          (answered_after p now _ challenge credentials (verify_identity p s2) s3 s4
                            offer proof offered proved presentation.bound);
                    before = s3;
                    proved = proved;
                  }

-- The parts of an engine that a handshake leaves alone: its keys, its trust and its configuration.
pub record SameTrust {p : Platform} (e0 e : AccessEngine p) : Type 0 where
  pub chaser : e.chaser ≡ e0.chaser
  pub station : e.station ≡ e0.station
  pub credential_issuer : e.credential_issuer ≡ e0.credential_issuer
  pub station_peer_trust : e.station_peer_trust ≡ e0.station_peer_trust
  pub chaser_peer_trust : e.chaser_peer_trust ≡ e0.chaser_peer_trust
  pub credential_trust : e.credential_trust ≡ e0.credential_trust
  pub gate_trust : e.gate_trust ≡ e0.gate_trust
  pub config : e.config ≡ e0.config

pub SameTrust-IsHandshakeLoose :
    {p : Platform} (e0 : AccessEngine p) → IsHandshakeLoose (SameTrust e0)
SameTrust-IsHandshakeLoose e0 = record {
  messages = record {
    station_replay = λ c e h. ground arith;
    chaser_replay = λ c e h. ground arith;
    fills = λ e h. ground arith;
  };
  scenario = λ s e h. ground arith;
  identity = λ e h. ground arith;
  evidence = λ vs e h. ground arith;
  proof = λ at e h. ground arith;
}

pub reset-SameTrust : {p : Platform} (e : AccessEngine p) → SameTrust e (reset p e)
unfolding reset
reset-SameTrust e = record {
  chaser = refl;
  station = refl;
  credential_issuer = refl;
  station_peer_trust = refl;
  chaser_peer_trust = refl;
  credential_trust = refl;
  gate_trust = refl;
  config = refl;
}
