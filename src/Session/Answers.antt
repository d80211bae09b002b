-- ===== src/Session/Answers.antt =====
-- rust/access_core/src/session.rs: the outcomes of `request_transition`, and the event before them.
use access.Common.{true, Option, some, [], ◌∷◌, String, Bytes}
use access.Common.Tests.{string_eq}
use access.Common.Int.{ℤ, saturating_add, as_i64}
use access.Common.Text.{format, decimal}
use access.Platform.{Platform}
use access.Protocol.Claims.{AuthorizedStage}
use access.Profile.{ProtocolRuleDecision, ProtocolProfileError}
use access.Cedar.{AccessDecision, AccessPolicyError, policy_error_text}
use access.Session.Outcomes.{AccessEvent, event, TransitionOutcome, denied, policy_denied}
use access.Session.Stages.{state_number, debug_stage}
use access.Session.Engine.{AccessEngine}

module _ (p : Platform) where
  unfoldable pub refresh_event : AccessEngine p → String → AccessEvent
  refresh_event self session_id =
      event "HOLDER_PROOF_REFRESHED"
        (format ("Fresh transition proof bound to session=" ∷ session_id ∷ []))
        (some self.chaser.key_id) (some self.station.key_id) (some "SESSION_PROOF")

  -- The outcome when the profile does not admit the transition.
  unfoldable pub profile_denial :
      AccessEngine p
      → String
      → Option String
      → AccessEvent
      → ProtocolProfileError
      → TransitionOutcome
  profile_denial self session_id matched_rule_id proof_event error =
      let outcome = policy_denied (state_number self.state) error in
      record outcome {
        session_id = some session_id;
        protocol_profile_id = some self.config.protocol_profile.profile_id;
        protocol_profile_version = some self.config.protocol_profile.profile_version;
        rule_id = matched_rule_id;
        events = proof_event ∷ outcome.events;
      }

  -- The outcome when the authorization policy does not allow the transition.
  unfoldable pub policy_denial :
      AccessEngine p
      → String
      → ProtocolRuleDecision
      → AccessEvent
      → AccessPolicyError
      → TransitionOutcome
  policy_denial self session_id rule proof_event error =
      let outcome =
        denied (state_number self.state) "DENY_AUTHORIZATION_POLICY" (policy_error_text error) in
      record outcome {
        session_id = some session_id;
        protocol_profile_id = some rule.profile_id;
        protocol_profile_version = some rule.profile_version;
        rule_id = some rule.rule_id;
        events = proof_event ∷ outcome.events;
      }

  unfoldable pub granted_outcome :
      AccessEngine p
      → String
      → AuthorizedStage
      → ProtocolRuleDecision
      → AccessDecision
      → String
      → ℤ
      → Bytes
      → AccessEvent
      → TransitionOutcome
  granted_outcome self session_id stage rule decision grant_id now_s encoded proof_event = record {
    approved = true;
    previous_state = state_number self.state;
    resulting_state = state_number self.state;
    reason = "ALLOW_AUTHORIZATION_GRANT_ISSUED";
    session_id = some session_id;
    protocol_profile_id = some rule.profile_id;
    protocol_profile_version = some rule.profile_version;
    rule_id = some rule.rule_id;
    grant_id = some grant_id;
    entitlement_ttl_s = some rule.entitlement_ttl_s;
    grant_expires_at_s = some (saturating_add now_s (as_i64 rule.entitlement_ttl_s));
    signed_grant_hex = some (p.hex_encode encoded);
    authorization_decision = some decision;
    events =
        proof_event
        ∷ event "ACCESS_STAGE_POLICY_ALLOWED"
            (format (
              "bundle="
              ∷ decision.policy.bundle_id
              ∷ "@"
              ∷ decimal decision.policy.bundle_version
              ∷ "; rule="
              ∷ rule.rule_id
              ∷ []))
            (some self.station.key_id) (some self.chaser.key_id) (some "ACCESS_AUTHORIZATION")
        ∷ event "AUTHORIZATION_GRANT_ISSUED"
            (format (
              "grant="
              ∷ grant_id
              ∷ "; session="
              ∷ session_id
              ∷ "; rule="
              ∷ rule.rule_id
              ∷ "; stage="
              ∷ debug_stage stage
              ∷ "; ttl="
              ∷ decimal rule.entitlement_ttl_s
              ∷ "s"
              ∷ []))
            (some self.station.key_id) (some self.chaser.key_id) (some "AUTHORIZATION_GRANT")
        ∷ [];
  }
