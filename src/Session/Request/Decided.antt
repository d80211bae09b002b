-- ===== src/Session/Request/Decided.antt =====
-- The two ways in which a request for a transition is answered.
use access.Common.{ℕ, ◌≡◌, refl, sym, ap, ◌⊎◌, inl, inr, not, false, Option, none, some, [], String}
use access.Common.Int.{ℤ, ltb_ℤ}
use access.Common.Result.{Result, ok, err, ok_or-eq-ok}
use access.Common.Exec.{lift-then, gets-then, modify-then, bind-then, pure-eq-ok}
use access.Common.Exec.Keeps.{Keeps-after}
use access.Platform.{Platform}
use access.StateMachine.{DockingEvent}
use access.Protocol.Claims.{AuthorizedStage}
use access.Protocol.Envelope.{VerifiedEnvelope}
use access.Profile.{readiness_age, ProtocolRuleDecision, ProtocolProfileError, ReadinessEvidence}
use access.Cedar.{AccessDecision, AccessPolicyError, context, authorize_transition}
use access.Cedar.Decisions
use access.Cedar.Decisions.{authorize_iff}
use access.Profile.Evaluate.{Admits, evaluate_iff}
use access.Session.Outcomes.{AccessEvent, TransitionOutcome, denied, policy_denied}
use access.Session.Stages.{transition_for, transition_names}
use access.Session.Engine.{AccessEngine}
use access.Session.Messages.Sent.{IsAnswered, bind_proof-IsAnswered}
use access.Session.Messages.Keeps.{Keeps-send_offer, Keeps-send_proof}
use access.Session.Request.{
  rule_of, maximum_age_of, action_of, is_some, authorize_stage, after_policy, after_profile,
  evaluate_stage, request_transition,
}
use access.Session.Answers.{profile_denial, policy_denial}
use access.Session.Request.Granted.{
  Carries, Carries-refl, Carries-IsLoose, Carries-proof, IsIssued, issue_grant-IsIssued, IsGrant,
  grant_claims-IsGrant,
}

pub evaluate_stage-Admits :
    (p : Platform) (e : AccessEngine p) (from_stage to_stage : String) (now : ℤ)
    (readiness : ReadinessEvidence p) (rule : ProtocolRuleDecision)
    → evaluate_stage p e from_stage to_stage now readiness ≡ ok rule
    → Admits p e.config.protocol_profile now e.config.trust_bundle_id e.config.trust_bundle_version
        e.config.trust_bundle_issued_at_s from_stage to_stage e.verified_credentials
        e.holder_proof_at_s e.authorization.session_authorized readiness rule
unfolding evaluate_stage
evaluate_stage-Admits p e from_stage to_stage now readiness rule h =
    (evaluate_iff p _ _ _ _ _ _ _ _ _ _ _ rule).0 h

module _ (p : Platform) (requested : ℕ) (session_id : String) (stage : AuthorizedStage) (now : ℤ)
    (readiness : ReadinessEvidence p) (proof_event : AccessEvent) (e e' : AccessEngine p)
    (outcome : TransitionOutcome) where
  -- The profile admitted the rule, the policy allowed it, and the grant was issued on that.
  pub record IsAdmitted (r : Result ProtocolProfileError ProtocolRuleDecision) : Type 0 where
    pub rule : ProtocolRuleDecision
    pub admitted : r ≡ ok rule
    pub decision : AccessDecision
    pub allowed :
        Decisions.IsAllowed p e.config.authorization_policy_engine "stage_transition"
          e.chaser.key_id
          (action_of p (rule_of p e.config.protocol_profile rule))
          e.station.key_id
          (context p e.verified_credentials
            (is_some p e.holder_proof_at_s)
            e.authorization.session_authorized
            (some readiness)
            (not (
              ltb_ℤ
                (maximum_age_of p (rule_of p e.config.protocol_profile rule))
                (readiness_age p now readiness))))
          decision
    pub issued : IsIssued p requested session_id stage rule now proof_event e e' outcome decision
    pub grant :
        IsGrant p session_id stage rule decision now e issued.encoded issued.grant_id outcome

  pub record IsRefused : Type 0 where
    pub unapproved : outcome.approved ≡ false
    pub ungranted : outcome.signed_grant_hex ≡ none
    pub same : e ≡ e'

  policy-cases :
      (rule : ProtocolRuleDecision) (a : Result AccessPolicyError AccessDecision)
      → authorize_stage p e rule now readiness ≡ a
      → after_policy p requested session_id stage rule now proof_event a e ≡ (ok outcome, e')
      → IsAdmitted (ok rule) ⊎ IsRefused
  unfolding after_policy policy_denial denied authorize_stage authorize_transition
  policy-cases rule (ok decision) allowed h =
      let i =
        issue_grant-IsIssued p requested session_id stage rule now proof_event e e' outcome decision
          h in
      inl (record {
        rule = rule;
        admitted = refl;
        decision = decision;
        allowed = (authorize_iff p _ _ _ _ _ _ decision).0 allowed;
        issued = i;
        grant =
            grant_claims-IsGrant p session_id stage rule decision now e i.encoded i.grant_id outcome
              i.nonce proof_event i.signed i.reported;
      })
  policy-cases rule (err error) allowed h =
      let (reported, same) = pure-eq-ok _ _ (gets-then _ _ h) in
      inr (record {
        unapproved = sym (ap (λ (x : TransitionOutcome). x.approved) reported);
        ungranted = sym (ap (λ (x : TransitionOutcome). x.signed_grant_hex) reported);
        same = same;
      })

  pub profile-cases :
      (matched : Option String) (r : Result ProtocolProfileError ProtocolRuleDecision)
      → after_profile p requested session_id stage now readiness matched proof_event r e
        ≡ (ok outcome, e')
      → IsAdmitted r ⊎ IsRefused
  unfolding after_profile profile_denial denied policy_denied
  profile-cases matched (ok rule) h = policy-cases rule _ refl (gets-then _ _ h)
  profile-cases matched (err error) h =
      let (reported, same) = pure-eq-ok _ _ (gets-then _ _ h) in
      inr (record {
        unapproved = sym (ap (λ (x : TransitionOutcome). x.approved) reported);
        ungranted = sym (ap (λ (x : TransitionOutcome). x.signed_grant_hex) reported);
        same = same;
      })

  -- What the profile admitted is what its conditions admit.
  entitled :
      (from_stage to_stage : String)
      → IsAdmitted (evaluate_stage p e from_stage to_stage now readiness) ⊎ IsRefused
      → ((a : IsAdmitted (evaluate_stage p e from_stage to_stage now readiness)) × Admits p
            e.config.protocol_profile now e.config.trust_bundle_id e.config.trust_bundle_version
            e.config.trust_bundle_issued_at_s from_stage to_stage e.verified_credentials
            e.holder_proof_at_s e.authorization.session_authorized readiness a.rule)
        ⊎ IsRefused
  entitled from_stage to_stage (inl a) =
      inl (a, evaluate_stage-Admits p e from_stage to_stage now readiness a.rule a.admitted)
  entitled from_stage to_stage (inr r) = inr r

module _ (p : Platform) (requested : ℕ) (now : ℤ) (readiness : ReadinessEvidence p)
    (e e' : AccessEngine p) (outcome : TransitionOutcome) where
  -- What precedes the answer: the session's holder has answered a new challenge.
  pub record IsAsked : Type 0 where
    pub event_kind : DockingEvent
    pub stage : AuthorizedStage
    pub requests : transition_for e.state requested ≡ some (event_kind, stage)
    pub session_id : String
    pub in_session : e.session_id ≡ some session_id
    pub offer : VerifiedEnvelope
    pub proof : VerifiedEnvelope
    pub answered :
        IsAnswered p now session_id [] e.chaser e.station e.chaser_peer_trust e.station_peer_trust
          e.random_source offer proof
    pub middle : AccessEngine p
    pub carries : Carries e middle
    pub proved_now : middle.holder_proof_at_s ≡ some now
    pub from_stage : String
    pub to_stage : String
    pub names : transition_names middle.state requested ≡ some (from_stage, to_stage)
    pub proof_event : AccessEvent
    pub answer :
        ((a : IsAdmitted p requested session_id stage now readiness proof_event middle e' outcome
            (evaluate_stage p middle from_stage to_stage now readiness))
          × Admits p middle.config.protocol_profile now middle.config.trust_bundle_id
              middle.config.trust_bundle_version middle.config.trust_bundle_issued_at_s from_stage
              to_stage middle.verified_credentials middle.holder_proof_at_s
              middle.authorization.session_authorized readiness a.rule)
        ⊎ IsRefused p requested session_id stage now readiness proof_event middle e' outcome

  pub request_transition-IsAsked :
      request_transition p requested now readiness e ≡ (ok outcome, e') → IsAsked
  unfolding request_transition
  request_transition-IsAsked h = lift-then _ _ (gets-then _ _ h) λ (event_kind, stage) requests h2.
      lift-then _ _ h2 λ session in_session h3. bind-then _ _ h3 λ (challenge, offer) s1 offered h4.
        bind-then _ _ h4 λ proof s2 proved h5. lift-then _ _ h5 λ _ bound h6.
          lift-then _ _ (gets-then _ _ (modify-then _ _ h6)) λ (from_stage, to_stage) names h7.
            let loose = Carries-IsLoose e in
            let before =
              Keeps-after _ e s1 (challenge, offer) (Keeps-send_offer (Carries e) loose session now)
                (Carries-refl e) offered in
            let kept =
              Keeps-after _ s1 s2 proof
                (Keeps-send_proof (Carries e) loose session challenge [] now) before proved in
            record {
              event_kind = event_kind;
              stage = stage;
              requests = ok_or-eq-ok _ _ requests;
              session_id = session;
              in_session = ok_or-eq-ok _ _ in_session;
              offer = offer;
              proof = proof;
              answered =
                  bind_proof-IsAnswered p now session challenge [] e s1 s1 s2 offer proof
                    before.frame.chaser before.frame.station before.frame.station_peer_trust offered
                    proved bound;
              middle = record s2 { holder_proof_at_s = some now };
              carries = Carries-proof e s2 (some now) kept;
              proved_now = refl;
              from_stage = from_stage;
              to_stage = to_stage;
              names = ok_or-eq-ok _ _ names;
              proof_event = _;
              answer =
                  entitled p requested session stage now readiness _ _ e' outcome _ _
                    (profile-cases p requested session stage now readiness _ _ e' outcome _ _ h7);
            }
