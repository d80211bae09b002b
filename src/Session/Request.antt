-- ===== src/Session/Request.antt =====
-- rust/access_core/src/session.rs: `request_transition`.
pub mod Keeps
pub mod Granted
pub mod Decided
pub mod Expiry
use access.Common.{
  ℕ, Bool, true, false, not, Option, none, some, List, [], ◌∷◌, String, Bytes, find, unwrap_or,
  insert, ◌==◌,
}
use access.Common.Tests.{string_eq}
use access.Common.Int.{ℤ, pos, ltb_ℤ, saturating_add, as_i64}
use access.Common.Result.{Result, ok, err, ok_or, map_err}
use access.Common.Text.{format, decimal}
use access.Common.Exec.{Exec, pure, lift, gets, modify, ◌>>=◌, ◌>>◌}
use access.Platform.{Platform}
use access.Protocol.Claims.{AuthorizedStage, authorization_grant, ProtocolClaims}
use access.Protocol.Envelope.{sign_envelope}
use access.StateMachine.{invalid_transition}
use access.Profile.{
  StageRuleProfile, ProtocolProfile, ProtocolRuleDecision, ProtocolProfileError, ReadinessEvidence,
  matching_rule, readiness_age, evaluate,
}
use access.Cedar.{AccessDecision, AccessPolicyError, policy_error_text, authorize_transition}
use access.Session.Outcomes.{
  AccessEvent, event, TransitionOutcome, SessionError, protocol, transition, session_binding,
  denied, policy_denied,
}
use access.Session.Stages.{state_number, transition_for, transition_names, debug_stage}
use access.Session.Engine.{PendingEntitlement, AccessEngine, Method, random_nonce}
use access.Session.Answers.{refresh_event, profile_denial, policy_denial, granted_outcome}
use access.Session.Messages.{send_offer, send_proof, bind_proof}

module _ (p : Platform) where
  -- The first stage rule with the decision's identifier.
  abbrev pub rule_of : ProtocolProfile → ProtocolRuleDecision → Option StageRuleProfile
  rule_of self rule = find (λ candidate. candidate.rule_id == rule.rule_id) self.stage_rules

  abbrev pub maximum_age_of : Option StageRuleProfile → ℤ
  maximum_age_of none = pos 0
  maximum_age_of (some candidate) = candidate.readiness.maximum_age_ms

  abbrev pub action_of : Option StageRuleProfile → String
  action_of none = ""
  action_of (some candidate) = candidate.action

  abbrev pub is_some : {A : Type 0} → Option A → Bool
  is_some none = false
  is_some (some a) = true

  -- The policy's decision on a transition that the profile admits.
  unfoldable pub authorize_stage :
      AccessEngine p
      → ProtocolRuleDecision
      → ℤ
      → ReadinessEvidence p
      → Result AccessPolicyError AccessDecision
  authorize_stage self rule now_s readiness =
      let candidate = rule_of self.config.protocol_profile rule in
      let readiness_fresh =
        not (ltb_ℤ (maximum_age_of candidate) (readiness_age p now_s readiness)) in
      authorize_transition p self.config.authorization_policy_engine self.chaser.key_id
        self.station.key_id (action_of candidate) self.verified_credentials
        (is_some self.holder_proof_at_s) self.authorization.session_authorized readiness
        readiness_fresh

  unfoldable pub grant_claims :
      AccessEngine p
      → String
      → AuthorizedStage
      → ProtocolRuleDecision
      → AccessDecision
      → String
      → ℤ
      → Bytes
      → ProtocolClaims
  grant_claims self session_id stage rule decision grant_id now_s nonce = record {
    message_type = authorization_grant;
    issuer = self.station.key_id;
    recipient = self.chaser.key_id;
    issued_at_s = now_s;
    nonce = nonce;
    session_id = some session_id;
    authorized_stage = some stage;
    challenge_nonce = none;
    credentials = [];
    grant_id = some grant_id;
    expires_at_s = some (saturating_add now_s (as_i64 rule.entitlement_ttl_s));
    protocol_profile_id = some rule.profile_id;
    protocol_profile_version = some rule.profile_version;
    rule_id = some rule.rule_id;
    authorization_policy_bundle_id = some decision.policy.bundle_id;
    authorization_policy_bundle_version = some decision.policy.bundle_version;
    authorization_policy_sha256 = some decision.policy.policy_sha256;
  }

  -- The signing of the grant, and its entry among the pending entitlements.
  unfoldable pub issue_grant :
      ℕ
      → String
      → AuthorizedStage
      → ProtocolRuleDecision
      → ℤ
      → AccessEvent
      → AccessDecision
      → Method p TransitionOutcome
  unfolding grant_claims granted_outcome
  issue_grant requested_state session_id stage rule now_s proof_event decision = do
    self ← gets (λ e. e)
    grant_nonce ← random_nonce p
    let grant_id = format ("grant-" ∷ p.hex_encode grant_nonce ∷ [])
    nonce ← random_nonce p
    encoded ← lift (
        map_err protocol (
          sign_envelope p (grant_claims self session_id stage rule decision grant_id now_s nonce)
            self.station))
    modify (λ e. record e {
      pending_entitlements =
          insert e.pending_entitlements grant_id
            (record { requested_state = requested_state; authorization_decision = decision });
    })
    pure (granted_outcome p self session_id stage rule decision grant_id now_s encoded proof_event)

  -- What follows the policy's decision: a denial is an outcome and no error.
  unfoldable pub after_policy :
      ℕ
      → String
      → AuthorizedStage
      → ProtocolRuleDecision
      → ℤ
      → AccessEvent
      → Result AccessPolicyError AccessDecision
      → Method p TransitionOutcome
  after_policy requested_state session_id stage rule now_s proof_event (ok decision) =
      issue_grant requested_state session_id stage rule now_s proof_event decision
  after_policy requested_state session_id stage rule now_s proof_event (err error) = do
    self ← gets (λ e. e)
    pure (policy_denial p self session_id rule proof_event error)

  -- What follows the profile's evaluation.
  unfoldable pub after_profile :
      ℕ
      → String
      → AuthorizedStage
      → ℤ
      → ReadinessEvidence p
      → Option String
      → AccessEvent
      → Result ProtocolProfileError ProtocolRuleDecision
      → Method p TransitionOutcome
  after_profile requested_state session_id stage now_s readiness matched_rule_id proof_event
        (ok rule) =
      do
        self ← gets (λ e. e)
        after_policy requested_state session_id stage rule now_s proof_event
            (authorize_stage self rule now_s readiness)
  after_profile requested_state session_id stage now_s readiness matched_rule_id proof_event
        (err error) =
      do
        self ← gets (λ e. e)
        pure (profile_denial p self session_id matched_rule_id proof_event error)

  abbrev pub rule_id_of : Option StageRuleProfile → Option String
  rule_id_of none = none
  rule_id_of (some rule) = some rule.rule_id

  -- `self.config.protocol_profile.evaluate(...)`, as both gates call it
  unfoldable pub evaluate_stage :
      AccessEngine p
      → String
      → String
      → ℤ
      → ReadinessEvidence p
      → Result ProtocolProfileError ProtocolRuleDecision
  evaluate_stage self from_stage to_stage now_s readiness =
      evaluate p self.config.protocol_profile from_stage to_stage now_s self.config.trust_bundle_id
        self.config.trust_bundle_version self.config.trust_bundle_issued_at_s
        self.verified_credentials self.holder_proof_at_s self.authorization.session_authorized
        readiness

  unfoldable pub request_transition : ℕ → ℤ → ReadinessEvidence p → Method p TransitionOutcome
  unfolding refresh_event
  request_transition requested_state now_s readiness = do
    start ← gets (λ e. e)
    (_, stage) ←
        lift (ok_or (transition_for start.state requested_state) (transition invalid_transition))
    session_id ← lift (ok_or start.session_id session_binding)
    (challenge, offer) ← send_offer p session_id now_s
    proof ← send_proof p session_id challenge [] now_s
    lift (bind_proof offer proof)
    modify (λ e. record e { holder_proof_at_s = some now_s })
    self ← gets (λ e. e)
    (from_stage, to_stage) ←
        lift (ok_or (transition_names self.state requested_state) (transition invalid_transition))
    after_profile requested_state session_id stage now_s readiness
        (rule_id_of (matching_rule p self.config.protocol_profile from_stage to_stage))
        (refresh_event p self session_id) (evaluate_stage self from_stage to_stage now_s readiness)
