-- ===== src/Session/Establish/Established.antt =====
-- The engine after a handshake that succeeds.
use access.Common.{
  ◌≡◌, refl, sym, ap, subst, ◌∙◌, true, false, none, some, List, [], String, Bytes, is_empty, All,
}
use access.Common.Int.{ℤ}
use access.Common.Result.{ok}
use access.Common.Exec.{bind-then, gets-then, modify-then, pure-eq-ok}
use access.Platform.{Platform}
use access.StateMachine.{hold}
use access.Protocol.Envelope.{VerifiedEnvelope}
use access.Profile.Admits.{IsCovered, validate_credentials_iff}
use access.Profile.Evaluate.{IsFounded, validate_foundation_iff}
use access.Cedar.{AccessDecision, authorize_session, context}
use access.Cedar.Decisions.{IsAllowed, authorize_iff}
use access.Session.Messages.Sent.{IsAnswered}
use access.Session.Outcomes.{AccessScenario, SessionOutcome}
use access.Session.Engine.{AccessEngine}
use access.Session.Establish.{open_session, prepare_session, establish_session}
use access.Session.Establish.Closed.{IsClosed, prepare_session-IsClosed, prepare_session-keeps}
use access.Session.Establish.Opened.{
  AreVerified, verified_evidence-AreVerified, prepare_session-IsPrepared, SameTrust,
  SameTrust-IsHandshakeLoose, reset-SameTrust,
}

module _ (p : Platform) (now : ℤ) (e e' : AccessEngine p) (outcome : SessionOutcome) where
  -- The session is open at the first state with nothing pending, and rests on a presentation whose
  -- every credential was verified and which the profile and the policy accepted.
  pub record IsEstablished : Type 0 where
    pub same : SameTrust e e'
    pub session_id : e'.session_id ≡ some outcome.session_id
    pub session_authorized : e'.authorization.session_authorized ≡ true
    pub identity_verified : e'.authorization.identity_verified ≡ true
    pub undocked : e'.authorization.docking_authorized ≡ false
    pub state : e'.state ≡ hold
    pub nothing_pending : e'.pending_entitlements ≡ []
    pub proved_now : e'.holder_proof_at_s ≡ some now
    pub offer : VerifiedEnvelope
    pub proof : VerifiedEnvelope
    pub credentials : List Bytes
    pub answered :
        IsAnswered p now outcome.session_id credentials e'.chaser e'.station e'.chaser_peer_trust
          e'.station_peer_trust e'.random_source offer proof
    pub presents : is_empty proof.claims.credentials ≡ false
    pub verified :
        AreVerified p now e'.credential_trust proof.signer proof.claims.credentials
          e'.verified_credentials
    pub founded :
        IsFounded p e'.config.protocol_profile now e'.config.trust_bundle_id
          e'.config.trust_bundle_version e'.config.trust_bundle_issued_at_s
    pub credentialed : All (IsCovered e'.config.protocol_profile now) e'.verified_credentials
    pub allowed :
        IsAllowed p e'.config.authorization_policy_engine "initial_claims" e'.chaser.key_id
          "authorize_session" e'.station.key_id
          (context p e'.verified_credentials true false none false)
          outcome.authorization_decision

module _ (p : Platform) (now : ℤ) (scenario : AccessScenario) (e : AccessEngine p)
    (session_id : String) (request : VerifiedEnvelope) (decision : AccessDecision)
    (middle : AccessEngine p) (outcome : SessionOutcome) where
  IsPrepared-IsEstablished :
      prepare_session p now scenario e ≡ (ok (session_id, request, decision), middle)
      → session_id ≡ outcome.session_id
      → decision ≡ outcome.authorization_decision
      → IsEstablished p now e (open_session p session_id middle) outcome
  unfolding authorize_session
  IsPrepared-IsEstablished h named decided =
      let k = prepare_session-IsPrepared p now scenario e middle session_id request decision h in
      let after = k.allowed.after in
      let last = ap (λ x. x.1) h ∙ sym after in
      let closed = subst (λ x. IsClosed x) last (prepare_session-IsClosed now scenario e) in
      let trust = subst (SameTrust e) last (
        prepare_session-keeps (SameTrust e) (SameTrust-IsHandshakeLoose e) now scenario e
          (reset-SameTrust e)) in
      subst (λ x. IsEstablished p now e (open_session p session_id x) outcome) after
        (record {
          same = record {
            chaser = trust.chaser;
            station = trust.station;
            credential_issuer = trust.credential_issuer;
            station_peer_trust = trust.station_peer_trust;
            chaser_peer_trust = trust.chaser_peer_trust;
            credential_trust = trust.credential_trust;
            gate_trust = trust.gate_trust;
            config = trust.config;
          };
          session_id = ap some named;
          session_authorized = refl;
          identity_verified = k.identified;
          undocked = closed.undocked;
          state = closed.state;
          nothing_pending = closed.pending_entitlements;
          proved_now = refl;
          offer = k.offer;
          proof = k.proof;
          credentials = k.credentials;
          answered =
              subst
                (λ s.
                  IsAnswered p now s k.credentials k.middle.chaser k.middle.station
                    k.middle.chaser_peer_trust k.middle.station_peer_trust k.middle.random_source
                    k.offer k.proof)
                named k.answered;
          presents = k.presented.presented;
          verified = verified_evidence-AreVerified p now _ _ _ _ k.presented.verified;
          founded = (validate_foundation_iff p _ now _ _ _).0 k.allowed.founded;
          credentialed = (validate_credentials_iff _ now _).0 k.allowed.credentialed;
          allowed = (authorize_iff p _ _ _ _ _ _ _).0 (k.allowed.allowed ∙ ap ok decided);
        })

-- A session that opens leaves the three keys, the four trust stores and the configuration as they
-- were, and is authorized and identified at the first protected state with no entitlement pending. It
-- rests on a challenge that the random source gave, which the station signed into its offer and the
-- chaser into its proof, each verified by its recipient, and which agree on session and challenge; on
-- at least one credential in the proof, every one valid under the credential trust for the proof's
-- signer; on the profile's foundation and its coverage of each credential; and on the policy engine,
-- which allowed a session on exactly the facts of these credentials.
pub establish_session-IsEstablished :
    (p : Platform) (now : ℤ) (scenario : AccessScenario) (e e' : AccessEngine p)
    (outcome : SessionOutcome)
    → establish_session p now scenario e ≡ (ok outcome, e')
    → IsEstablished p now e e' outcome
unfolding establish_session
establish_session-IsEstablished p now scenario e e' outcome h =
    bind-then _ _ h λ (session_id, request, decision) middle prepared h2.
      let (reported, same) = pure-eq-ok _ _ (gets-then _ _ (modify-then _ _ h2)) in
      subst (λ x. IsEstablished p now e x outcome) same
        (IsPrepared-IsEstablished p now scenario e session_id request decision middle outcome
          prepared (ap (λ (x : SessionOutcome). x.session_id) reported)
          (ap (λ (x : SessionOutcome). x.authorization_decision) reported))
