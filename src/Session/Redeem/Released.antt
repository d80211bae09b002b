-- ===== src/Session/Redeem/Released.antt =====
-- What a redemption that succeeds has established, and the state that it leads to.
use access.Common.{ℕ, ◌≡◌, refl, true, false, none, some, ◌∷◌, String, contains}
use access.Common.Tests.{string_eq, bytes_eq}
use access.Common.Int.{ℤ}
use access.Common.Result.{ok, ok_or-eq-ok, bail_if-eq-ok, map_err-eq-ok}
use access.Common.Exec.{lift-then, gets-then, zoom-then, bind-then, pure-eq-ok, modify-eq-ok}
use access.Platform.{Platform}
use access.Utf8.{as_bytes}
use access.StateMachine.{DockingState, DockingEvent, reduce}
use access.StateMachine.Steps.{Step, reduce_iff}
use access.Protocol.Claims.{AuthorizedStage}
use access.Protocol.Envelope.{VerifiedEnvelope}
use access.Protocol.Replay.{consume}
use access.Protocol.Replay.Once.{consume-eq-ok}
use access.Profile.{ReadinessEvidence, ProtocolRuleDecision}
use access.Session.Outcomes.{TransitionOutcome}
use access.Session.Engine.{PendingEntitlement, AccessEngine, Cache}
use access.Profile.Evaluate.{Admits}
use access.Session.Request.Granted.{Agrees}
use access.Session.Request.Decided.{evaluate_stage-Admits}
use access.Session.Stages.{state_number, transition_for, transition_names}
use access.Session.Request.{evaluate_stage}
use access.Session.Redeem.{redeemed_outcome, transition_authorization, release, redeem_transition}
use access.Session.Redeem.Matched.{mismatches_rule_iff, IsMatched, match_grant-IsMatched}

module _ (p : Platform) (event_kind : DockingEvent) (stage : AuthorizedStage) (grant_id : String)
    (e e' : AccessEngine p) where
  -- The grant's identifier is new and now consumed, and the reducer made the step.
  pub record IsReleased : Type 0 where
    pub cache : Cache p
    pub unconsumed : contains e.consumed_grants.consumed (as_bytes grant_id) ≡ false
    pub consumed : cache.consumed ≡ as_bytes grant_id ∷ e.consumed_grants.consumed
    pub used : consume p.backend (as_bytes grant_id) e.consumed_grants ≡ (ok tt, cache)
    pub next : DockingState
    pub reduced : reduce e.state event_kind (transition_authorization p e stage) ≡ ok next
    pub step : Step (transition_authorization p e stage) e.state event_kind next
    pub after : record e { consumed_grants = cache; state = next } ≡ e'

  release-IsReleased : release p event_kind stage grant_id e ≡ (ok tt, e') → IsReleased
  unfolding release
  release-IsReleased h = zoom-then _ _ _ _ _ h λ _ cache used h2.
      lift-then _ _ (gets-then _ _ h2) λ next reduced h3.
        let (unconsumed, consumed) = consume-eq-ok p.backend (as_bytes grant_id) _ cache used in
        record {
          cache = cache;
          unconsumed = unconsumed;
          consumed = consumed;
          used = used;
          next = next;
          reduced = map_err-eq-ok _ _ reduced;
          step = (reduce_iff _ _ _ _).0 (map_err-eq-ok _ _ reduced);
          after = modify-eq-ok _ _ h3;
        }

module _ (p : Platform) (previous resulting : DockingState) (hex session : String)
    (rule : ProtocolRuleDecision) (grant : VerifiedEnvelope) (grant_id : String)
    (pending : PendingEntitlement) (outcome : TransitionOutcome) where
  -- The outcome reports an approval from the one state to the other, in this session, by this rule,
  -- and with this grant and the decision that it was issued on.
  pub record IsReported : Type 0 where
    pub approved : outcome.approved ≡ true
    pub from_state : outcome.previous_state ≡ state_number previous
    pub to_state : outcome.resulting_state ≡ state_number resulting
    pub in_session : outcome.session_id ≡ some session
    pub profile_id : outcome.protocol_profile_id ≡ some rule.profile_id
    pub profile_version : outcome.protocol_profile_version ≡ some rule.profile_version
    pub by_rule : outcome.rule_id ≡ some rule.rule_id
    pub granted : outcome.grant_id ≡ some grant_id
    pub no_ttl : outcome.entitlement_ttl_s ≡ none
    pub until : outcome.grant_expires_at_s ≡ grant.claims.expires_at_s
    pub presented : outcome.signed_grant_hex ≡ some hex
    pub decided : outcome.authorization_decision ≡ some pending.authorization_decision

  redeemed_outcome-IsReported :
      (e : AccessEngine p)
      → e.state ≡ resulting
      → redeemed_outcome p e previous hex session rule grant grant_id pending ≡ outcome
      → IsReported
  unfolding redeemed_outcome
  redeemed_outcome-IsReported e same h =
      rw (← h, ← same)
        (record {
          approved = refl;
          from_state = refl;
          to_state = refl;
          in_session = refl;
          profile_id = refl;
          profile_version = refl;
          by_rule = refl;
          granted = refl;
          no_ttl = refl;
          until = refl;
          presented = refl;
          decided = refl;
        })

module _ (p : Platform) (hex : String) (requested : ℕ) (now : ℤ) (readiness : ReadinessEvidence p)
    (e e' : AccessEngine p) (outcome : TransitionOutcome) where
  -- The checks of a redemption, from the state that it starts in to the one that it ends in.
  pub record IsRedeemed : Type 0 where
    pub event_kind : DockingEvent
    pub stage : AuthorizedStage
    pub requests : transition_for e.state requested ≡ some (event_kind, stage)
    pub session : String
    pub in_session : e.session_id ≡ some session
    pub middle : AccessEngine p
    pub grant : VerifiedEnvelope
    pub grant_id : String
    pub pending : PendingEntitlement
    pub matched : IsMatched p hex requested session stage now e middle grant grant_id pending
    pub from_stage : String
    pub to_stage : String
    pub names : transition_names middle.state requested ≡ some (from_stage, to_stage)
    pub rule : ProtocolRuleDecision
    pub admitted : evaluate_stage p middle from_stage to_stage now readiness ≡ ok rule
    pub admits :
        Admits p middle.config.protocol_profile now middle.config.trust_bundle_id
          middle.config.trust_bundle_version middle.config.trust_bundle_issued_at_s from_stage
          to_stage middle.verified_credentials middle.holder_proof_at_s
          middle.authorization.session_authorized readiness rule
    pub agrees : Agrees grant.claims rule pending.authorization_decision
    pub released : IsReleased p event_kind stage grant_id middle e'
    pub reported : IsReported p e.state e'.state hex session rule grant grant_id pending outcome

  pub redeem_transition-IsRedeemed :
      redeem_transition p hex requested now readiness e ≡ (ok outcome, e') → IsRedeemed
  unfolding redeem_transition
  redeem_transition-IsRedeemed h =
      lift-then _ _ (gets-then _ _ h) λ (event_kind, stage) requests h2.
        lift-then _ _ h2 λ session in_session h3.
          bind-then _ _ h3 λ (grant, grant_id, pending) middle matched h4.
            lift-then _ _ (gets-then _ _ h4) λ (from_stage, to_stage) names h5.
              lift-then _ _ h5 λ rule admitted h6. lift-then _ _ h6 λ _ agrees h7.
                bind-then _ _ h7 λ _ end released h8.
                  let (reported, same) = pure-eq-ok _ _ (gets-then _ _ h8) in
                  record {
                    event_kind = event_kind;
                    stage = stage;
                    requests = ok_or-eq-ok _ _ requests;
                    session = session;
                    in_session = ok_or-eq-ok _ _ in_session;
                    middle = middle;
                    grant = grant;
                    grant_id = grant_id;
                    pending = pending;
                    matched =
                        match_grant-IsMatched p hex requested session stage now e middle grant
                          grant_id pending matched;
                    from_stage = from_stage;
                    to_stage = to_stage;
                    names = ok_or-eq-ok _ _ names;
                    rule = rule;
                    admitted = map_err-eq-ok _ _ admitted;
                    admits =
                        evaluate_stage-Admits p middle from_stage to_stage now readiness rule
                          (map_err-eq-ok _ _ admitted);
                    agrees = (mismatches_rule_iff _ _ _).0 (bail_if-eq-ok _ _ agrees);
                    released =
                        rw (← same)
                          (release-IsReleased p event_kind stage grant_id middle end released);
                    reported =
                        redeemed_outcome-IsReported p e.state e'.state hex session rule grant
                          grant_id pending outcome e' refl (rw (← same) reported);
                  }
