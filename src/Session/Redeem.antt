-- ===== src/Session/Redeem.antt =====
-- rust/access_core/src/session.rs: `redeem_transition`, the gate of the protected states.
pub mod Keeps
pub mod Matched
pub mod Released
pub mod Advances
pub mod Runs
pub mod Issued
pub mod Immediate
pub mod Exactly
use access.Common.{
  ℕ, Bool, true, false, ◌||◌, Option, none, some, List, [], ◌∷◌, String, Bytes, get, without, ◌!=◌,
  ◌==◌,
}
use access.Common.Tests.{string_eq, nat_eq, option_eq}
use access.Common.Int.{ℤ, ltb_ℤ}
use access.Common.Result.{Result, ok, err, ok_or, map_err, bail_if}
use access.Common.Exec.{Exec, pure, lift, gets, modify, ◌>>=◌, ◌>>◌}
use access.Platform.{Platform}
use access.Protocol.Claims.{AuthorizedStage, stage_eq, ProtocolClaims, invalid_envelope}
use access.Protocol.Envelope.{VerifiedEnvelope, verify_envelope}
use access.Protocol.Replay.{consume}
use access.StateMachine.{
  DockingState, DockingEvent, AuthorizationContext, invalid_transition, reduce,
}
use access.Profile.{ProtocolRuleDecision, ReadinessEvidence, is_none_or}
use access.Cedar.{AccessDecision}
use access.Session.Outcomes.{
  event, TransitionOutcome, SessionError, protocol, transition, session_binding, grant_mismatch,
  protocol_profile, max_clock_skew_s,
}
use access.Session.Stages.{state_number, transition_for, transition_names}
use access.Session.Engine.{
  PendingEntitlement, AccessEngine, Method, on_gate_replay, on_consumed_grants,
}
use access.Session.Request.{evaluate_stage}
use access.Utf8.{as_bytes}

-- The first comparison of the grant: with the pending entitlement, the session, the stage, the time.
unfoldable pub mismatches_request :
    ProtocolClaims → PendingEntitlement → ℕ → String → AuthorizedStage → ℤ → Bool
mismatches_request claims pending requested_state session_id stage now_s =
    pending.requested_state != requested_state
    || claims.session_id != some session_id
    || claims.authorized_stage != some stage
    || is_none_or claims.expires_at_s (λ expiry. ltb_ℤ expiry now_s)

-- The second: with the rule that admits the transition now, and the policy that decided it then.
unfoldable pub mismatches_rule : ProtocolClaims → ProtocolRuleDecision → AccessDecision → Bool
mismatches_rule claims rule decision =
    claims.protocol_profile_id != some rule.profile_id
    || claims.protocol_profile_version != some rule.profile_version
    || claims.rule_id != some rule.rule_id
    || claims.authorization_policy_bundle_id != some decision.policy.bundle_id
    || claims.authorization_policy_bundle_version != some decision.policy.bundle_version
    || claims.authorization_policy_sha256 != some decision.policy.policy_sha256

abbrev is_hard_dock : AuthorizedStage → Bool
is_hard_dock AuthorizedStage.hard_dock = true
is_hard_dock _ = false

module _ (p : Platform) where
  -- `self.pending_entitlements.remove(grant_id)`
  unfoldable pub take_pending : String → Method p (Option PendingEntitlement)
  take_pending grant_id e = (
    ok (get e.pending_entitlements grant_id),
    record e { pending_entitlements = without e.pending_entitlements grant_id },
  )

  -- The verification of the grant against the gate's trust, and its match with the request.
  unfoldable pub match_grant :
      String
      → ℕ
      → String
      → AuthorizedStage
      → ℤ
      → Method p (VerifiedEnvelope × String × PendingEntitlement)
  unfolding mismatches_request
  match_grant signed_grant_hex requested_state session_id stage now_s = do
    self ← gets (λ e. e)
    encoded ← lift (ok_or (p.hex_decode signed_grant_hex) (protocol invalid_envelope))
    grant ← on_gate_replay p (
        verify_envelope p p.backend encoded self.gate_trust self.chaser.key_id now_s
          max_clock_skew_s)
    grant_id ← lift (ok_or grant.claims.grant_id grant_mismatch)
    found ← take_pending grant_id
    pending ← lift (ok_or found grant_mismatch)
    lift (
        bail_if (mismatches_request grant.claims pending requested_state session_id stage now_s)
          grant_mismatch)
    pure (grant, grant_id, pending)

  unfoldable pub redeemed_outcome :
      AccessEngine p
      → DockingState
      → String
      → String
      → ProtocolRuleDecision
      → VerifiedEnvelope
      → String
      → PendingEntitlement
      → TransitionOutcome
  redeemed_outcome self previous signed_grant_hex session_id rule grant grant_id pending = record {
    approved = true;
    previous_state = state_number previous;
    resulting_state = state_number self.state;
    reason = "ALLOW_ENTITLEMENT_CONSUMED";
    session_id = some session_id;
    protocol_profile_id = some rule.profile_id;
    protocol_profile_version = some rule.profile_version;
    rule_id = some rule.rule_id;
    grant_id = some grant_id;
    entitlement_ttl_s = none;
    grant_expires_at_s = grant.claims.expires_at_s;
    signed_grant_hex = some signed_grant_hex;
    authorization_decision = some pending.authorization_decision;
    events =
        event "AUTHORIZATION_GRANT_CONSUMED"
          "Entitlement verified and atomically consumed before releasing the action"
          (some self.chaser.key_id) (some "transition-gate") (some "ENTITLEMENT_PRESENTATION")
        ∷ [];
  }

  -- The context that the reducer is given.
  abbrev pub transition_authorization : AccessEngine p → AuthorizedStage → AuthorizationContext
  transition_authorization self stage = record {
    identity_verified = self.authorization.identity_verified;
    session_authorized = self.authorization.session_authorized;
    docking_authorized = is_hard_dock stage;
  }

  -- The consumption of the grant's identifier, and then the protected transition.
  unfoldable pub release : DockingEvent → AuthorizedStage → String → Method p (Unit {0})
  release event_kind stage grant_id = do
    on_consumed_grants p (consume p.backend (as_bytes grant_id))
    self ← gets (λ e. e)
    next ←
        lift
          (map_err transition (reduce self.state event_kind (transition_authorization self stage)))
    modify (λ e. record e { state = next })

  unfoldable pub redeem_transition :
      String → ℕ → ℤ → ReadinessEvidence p → Method p TransitionOutcome
  unfolding redeemed_outcome mismatches_rule
  redeem_transition signed_grant_hex requested_state now_s readiness = do
    start ← gets (λ e. e)
    (event_kind, stage) ←
        lift (ok_or (transition_for start.state requested_state) (transition invalid_transition))
    session_id ← lift (ok_or start.session_id session_binding)
    (grant, grant_id, pending) ← match_grant signed_grant_hex requested_state session_id stage now_s
    self ← gets (λ e. e)
    (from_stage, to_stage) ←
        lift (ok_or (transition_names self.state requested_state) (transition invalid_transition))
    rule ←
        lift (map_err protocol_profile (evaluate_stage p self from_stage to_stage now_s readiness))
    lift (bail_if (mismatches_rule grant.claims rule pending.authorization_decision) grant_mismatch)
    release event_kind stage grant_id
    end ← gets (λ e. e)
    pure (redeemed_outcome end start.state signed_grant_hex session_id rule grant grant_id pending)
