-- ===== src/Session/Request/Granted.antt =====
-- What stands behind a grant that is issued, and what a denial leaves.
use access.Common.{
  ℕ, suc, ◌≤◌, arith, ◌≡◌, refl, sym, ap, subst, ◌∙◌, Option, true, some, [], ◌∷◌, String, Bytes,
  insert,
}
use access.Common.Tests.{string_eq}
use access.Common.Int.{ℤ}
use access.Common.Text.{format}
use access.Common.Result.{ok, map_err-eq-ok}
use access.Common.Exec.{lift-then, gets-then, modify-then, bind-then, pure-eq-ok}
use access.Common.Exec.Keeps.{Keeps-after}
use access.Platform.{Platform}
use access.Protocol.Claims.{AuthorizedStage, authorization_grant, ProtocolClaims}
use access.Protocol.Envelope.{sign_envelope}
use access.Profile.{ProtocolRuleDecision}
use access.Cedar.{AccessDecision}
use access.Session.Outcomes.{AccessEvent, TransitionOutcome}
use access.Session.Engine.{AccessEngine, empty_nonce}
use access.Session.Engine.Frame.{Frame, Frame-refl, Frame-IsLoose, IsLoose, Keeps-random_nonce}
use access.Session.Messages.Sent.{random_nonce-eq-ok}
use access.Session.Request.{grant_claims, issue_grant}
use access.Session.Answers.{granted_outcome}

-- The session of an engine, its pending entitlements, and its random source, which has moved on.
pub record Carries {p : Platform} (e0 e : AccessEngine p) : Type 0 where
  pub frame : Frame e0 e
  pub pending : e.pending_entitlements ≡ e0.pending_entitlements
  pub source : e.random_source ≡ e0.random_source
  pub later : e0.fills ≤ e.fills

pub Carries-refl : {p : Platform} (e : AccessEngine p) → Carries e e
Carries-refl e = record { frame = Frame-refl e; pending = refl; source = refl; later = omega arith }

pub Carries-IsLoose : {p : Platform} (e0 : AccessEngine p) → IsLoose (Carries e0)
Carries-IsLoose e0 =
    let loose = Frame-IsLoose e0 in
    record {
      station_replay = λ c e h. record {
        frame = loose.station_replay c e h.frame;
        pending = h.pending;
        source = h.source;
        later = h.later;
      };
      chaser_replay = λ c e h. record {
        frame = loose.chaser_replay c e h.frame;
        pending = h.pending;
        source = h.source;
        later = h.later;
      };
      fills = λ e h. record {
        frame = loose.fills e h.frame;
        pending = h.pending;
        source = h.source;
        later = omega (arith, h.later);
      };
    }

pub Carries-proof :
    {p : Platform} (e0 e : AccessEngine p) (at : Option ℤ)
    → Carries e0 e
    → Carries e0 (record e { holder_proof_at_s = at })
Carries-proof e0 e at h =
    let frame = h.frame in
    record {
      frame = record {
        chaser = frame.chaser;
        station = frame.station;
        credential_issuer = frame.credential_issuer;
        station_peer_trust = frame.station_peer_trust;
        chaser_peer_trust = frame.chaser_peer_trust;
        credential_trust = frame.credential_trust;
        gate_trust = frame.gate_trust;
        config = frame.config;
        state = frame.state;
        authorization = frame.authorization;
        session_id = frame.session_id;
        verified_credentials = frame.verified_credentials;
      };
      pending = h.pending;
      source = h.source;
      later = h.later;
    }

-- The grant names the rule that admitted it, and the policy that decided it.
pub record Agrees (claims : ProtocolClaims) (rule : ProtocolRuleDecision)
    (decision : AccessDecision) : Type 0 where
  pub profile_id : claims.protocol_profile_id ≡ some rule.profile_id
  pub profile_version : claims.protocol_profile_version ≡ some rule.profile_version
  pub rule_id : claims.rule_id ≡ some rule.rule_id
  pub bundle_id : claims.authorization_policy_bundle_id ≡ some decision.policy.bundle_id
  pub bundle_version :
      claims.authorization_policy_bundle_version ≡ some decision.policy.bundle_version
  pub policy_sha256 : claims.authorization_policy_sha256 ≡ some decision.policy.policy_sha256

module _ (p : Platform) (session_id : String) (stage : AuthorizedStage)
    (rule : ProtocolRuleDecision) (decision : AccessDecision) (now : ℤ) (e : AccessEngine p)
    (encoded : Bytes) (grant_id : String) (outcome : TransitionOutcome) where
  -- The signed grant and what its claims are, and the outcome that carries it.
  pub record IsGrant : Type 0 where
    pub claims : ProtocolClaims
    pub typed : claims.message_type ≡ authorization_grant
    pub issued_by : claims.issuer ≡ e.station.key_id
    pub addressed : claims.recipient ≡ e.chaser.key_id
    pub issued_at : claims.issued_at_s ≡ now
    pub in_session : claims.session_id ≡ some session_id
    pub for_stage : claims.authorized_stage ≡ some stage
    pub named : claims.grant_id ≡ some grant_id
    pub agrees : Agrees claims rule decision
    pub signed : sign_envelope p claims e.station ≡ ok encoded
    pub approved : outcome.approved ≡ true
    pub carried : outcome.signed_grant_hex ≡ some (p.hex_encode encoded)
    pub reported : outcome.grant_id ≡ some grant_id
    pub decided : outcome.authorization_decision ≡ some decision

  pub grant_claims-IsGrant :
      (nonce : Bytes) (proof_event : AccessEvent)
      → sign_envelope p
          (grant_claims p e session_id stage rule decision grant_id now nonce)
          e.station
        ≡ ok encoded
      → granted_outcome p e session_id stage rule decision grant_id now encoded proof_event
        ≡ outcome
      → IsGrant
  unfolding grant_claims granted_outcome
  grant_claims-IsGrant nonce proof_event signed reported = record {
    claims = _;
    typed = refl;
    issued_by = refl;
    addressed = refl;
    issued_at = refl;
    in_session = refl;
    for_stage = refl;
    named = refl;
    agrees = record {
      profile_id = refl;
      profile_version = refl;
      rule_id = refl;
      bundle_id = refl;
      bundle_version = refl;
      policy_sha256 = refl;
    };
    signed = signed;
    approved = sym (ap (λ (x : TransitionOutcome). x.approved) reported);
    carried = sym (ap (λ (x : TransitionOutcome). x.signed_grant_hex) reported);
    reported = sym (ap (λ (x : TransitionOutcome). x.grant_id) reported);
    decided = sym (ap (λ (x : TransitionOutcome). x.authorization_decision) reported);
  }

module _ (p : Platform) (requested : ℕ) (session_id : String) (stage : AuthorizedStage)
    (rule : ProtocolRuleDecision) (now : ℤ) (proof_event : AccessEvent) (e e' : AccessEngine p)
    (outcome : TransitionOutcome) where
  -- A grant for exactly this request was signed by the station, and is the entry that it adds.
  pub record IsIssued (decision : AccessDecision) : Type 0 where
    pub grant_nonce : Bytes
    pub nonce : Bytes
    pub encoded : Bytes
    pub grant_id : String
    pub named : format ("grant-" ∷ p.hex_encode grant_nonce ∷ []) ≡ grant_id
    pub signed :
        sign_envelope p
          (grant_claims p e session_id stage rule decision grant_id now nonce)
          e.station
        ≡ ok encoded
    pub reported :
        granted_outcome p e session_id stage rule decision grant_id now encoded proof_event
        ≡ outcome
    pub frame : Frame e e'
    pub recorded :
        e'.pending_entitlements
        ≡ insert e.pending_entitlements grant_id
            (record { requested_state = requested; authorization_decision = decision })
    pub fills : ℕ
    pub grant_filled : p.fill e.random_source e.fills empty_nonce ≡ some grant_nonce
    pub filled : p.fill e.random_source (suc e.fills) empty_nonce ≡ some nonce
    pub after :
        record e {
          fills = fills;
          pending_entitlements =
              insert e.pending_entitlements grant_id
                (record { requested_state = requested; authorization_decision = decision });
        }
        ≡ e'

  pub issue_grant-IsIssued :
      (decision : AccessDecision)
      → issue_grant p requested session_id stage rule now proof_event decision e ≡ (ok outcome, e')
      → IsIssued decision
  unfolding issue_grant
  issue_grant-IsIssued decision h = bind-then _ _ (gets-then _ _ h) λ grant_nonce s1 one h2.
      bind-then _ _ h2 λ nonce s2 two h3. lift-then _ _ h3 λ encoded signed h4.
        let (reported, same) = pure-eq-ok _ _ (modify-then _ _ h4) in
        let loose = Carries-IsLoose e in
        let kept =
          Keeps-after _ s1 s2 nonce (Keeps-random_nonce (Carries e) loose)
            (Keeps-after _ e s1 grant_nonce (Keeps-random_nonce (Carries e) loose) (Carries-refl e)
              one)
            two in
        let frame = kept.frame in
        let (grant_filled, first) = random_nonce-eq-ok p e s1 grant_nonce one in
        let (filled, second) = random_nonce-eq-ok p s1 s2 nonce two in
        let id = format ("grant-" ∷ p.hex_encode grant_nonce ∷ []) in
        record {
          grant_nonce = grant_nonce;
          nonce = nonce;
          encoded = encoded;
          grant_id = id;
          named = refl;
          signed = map_err-eq-ok _ _ signed;
          reported = reported;
          frame = subst (Frame e) same (record {
            chaser = frame.chaser;
            station = frame.station;
            credential_issuer = frame.credential_issuer;
            station_peer_trust = frame.station_peer_trust;
            chaser_peer_trust = frame.chaser_peer_trust;
            credential_trust = frame.credential_trust;
            gate_trust = frame.gate_trust;
            config = frame.config;
            state = frame.state;
            authorization = frame.authorization;
            session_id = frame.session_id;
            verified_credentials = frame.verified_credentials;
          });
          recorded =
              sym (ap (λ (x : AccessEngine p). x.pending_entitlements) same)
              ∙ ap
                  (λ m.
                    insert m id
                      (record { requested_state = requested; authorization_decision = decision }))
                  kept.pending;
          fills = suc (suc e.fills);
          grant_filled = grant_filled;
          filled =
              subst
                (λ (x : AccessEngine p). p.fill x.random_source x.fills empty_nonce ≡ some nonce)
                (sym first) filled;
          after =
              ap
                (λ (x : AccessEngine p). record x {
                  fills = suc x.fills;
                  pending_entitlements =
                      insert x.pending_entitlements id
                        (record { requested_state = requested; authorization_decision = decision });
                })
                first
              ∙ ap
                  (λ (x : AccessEngine p). record x {
                    pending_entitlements =
                        insert x.pending_entitlements id (record {
                          requested_state = requested;
                          authorization_decision = decision;
                        });
                  })
                  second
              ∙ same;
        }
