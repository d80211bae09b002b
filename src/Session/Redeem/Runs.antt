-- ===== src/Session/Redeem/Runs.antt =====
-- A redemption whose checks all pass goes through.
use access.Common.{
  ℕ, ◌≡◌, refl, sym, ap, ◌∙◌, subst, true, false, Option, none, some, String, Bytes, get, without,
  arith,
}
use access.Common.Tests.{string_eq, bytes_eq, nat_eq, option_eq}
use access.Common.Int.{ℤ}
use access.Common.Result.{Result, ok, ok_or-some, bail_if-false, map_err-ok}
use access.Common.Exec.{◌>>=◌, lift-runs, bind-runs, gets-runs, zoom-runs}
use access.Platform.{Platform}
use access.Utf8.{as_bytes}
use access.Protocol.Claims.{AuthorizedStage, stage_eq, ProtocolClaims}
use access.Protocol.Replay.{consume}
use access.Protocol.Envelope.{VerifiedEnvelope}
use access.StateMachine.{DockingState, DockingEvent, reduce}
use access.Profile.{ProtocolRuleDecision, ReadinessEvidence}
use access.Session.Outcomes.{SessionError}
use access.Session.Stages.{transition_for, transition_names}
use access.Session.Engine.{PendingEntitlement, AccessEngine, Cache, Method}
use access.Session.Request.{evaluate_stage}
use access.Session.Redeem.{
  mismatches_request, mismatches_rule, redeemed_outcome, transition_authorization, take_pending,
  match_grant, release, redeem_transition,
}
use access.Session.Redeem.Matched.{Fits, IsMatched}

Fits-mismatches_request :
    (claims : ProtocolClaims) (pending : PendingEntitlement) (requested : ℕ) (session_id : String)
    (stage : AuthorizedStage) (now : ℤ)
    → Fits claims pending requested session_id stage now
    → mismatches_request claims pending requested session_id stage now ≡ false
unfolding mismatches_request
Fits-mismatches_request claims pending requested session_id stage now k =
    let later = k.unexpired in
    rw (k.expires) (ground (arith, k.same_request, k.same_session, k.same_stage, later))

module _ {p : Platform} {B : Type 0} {q : Result SessionError B × AccessEngine p} where
  take_pending-runs :
      (grant_id : String) (s : AccessEngine p) (f : Option PendingEntitlement → Method p B)
      → f
          (get s.pending_entitlements grant_id)
          (record s { pending_entitlements = without s.pending_entitlements grant_id })
        ≡ q
      → (take_pending p grant_id >>= f) s ≡ q
  unfolding ◌>>=◌ take_pending
  take_pending-runs grant_id s f h = h

module _ (p : Platform) (hex : String) (requested : ℕ) (session_id : String)
    (stage : AuthorizedStage) (now : ℤ) (e e' : AccessEngine p) (grant : VerifiedEnvelope)
    (grant_id : String) (pending : PendingEntitlement) where
  IsMatched-match_grant :
      IsMatched p hex requested session_id stage now e e' grant grant_id pending
      → match_grant p hex requested session_id stage now e ≡ (ok (grant, grant_id, pending), e')
  unfolding match_grant access.Common.Exec.pure
  IsMatched-match_grant k = gets-runs _ _ (
      lift-runs _ _ k.encoded (ok_or-some _ _ k.decoded) (
        zoom-runs _ _ _ _ _ grant k.cache k.verified (
          lift-runs _ _ grant_id (ok_or-some _ _ k.named) (
            take_pending-runs grant_id _ _ (
              lift-runs _ _ pending (ok_or-some _ _ k.found) (
                lift-runs _ _ tt
                  (bail_if-false _ _ (
                    Fits-mismatches_request grant.claims pending requested session_id stage now
                      k.fits))
                  (ap (λ s. (ok (grant, grant_id, pending), s)) k.after)))))))

module _ (p : Platform) (event_kind : DockingEvent) (stage : AuthorizedStage) (grant_id : String)
    (e : AccessEngine p) (cache : Cache p) (next : DockingState) where
  release-runs :
      consume p.backend (as_bytes grant_id) e.consumed_grants ≡ (ok tt, cache)
      → reduce e.state event_kind (transition_authorization p e stage) ≡ ok next
      → release p event_kind stage grant_id e
        ≡ (ok tt, record e { consumed_grants = cache; state = next })
  unfolding release access.Common.Exec.modify
  release-runs used reduced =
      zoom-runs _ _ _ _ _ tt cache used
        (gets-runs _ _ (lift-runs _ _ next (map_err-ok _ _ reduced) refl))

module _ (p : Platform) (hex : String) (requested : ℕ) (now : ℤ) (readiness : ReadinessEvidence p)
    (e middle : AccessEngine p) where
  -- What a redemption checks, from an engine to the one at which the protected state is released.
  pub record IsRedeemable : Type 0 where
    pub event_kind : DockingEvent
    pub stage : AuthorizedStage
    pub requests : transition_for e.state requested ≡ some (event_kind, stage)
    pub session : String
    pub in_session : e.session_id ≡ some session
    pub grant : VerifiedEnvelope
    pub grant_id : String
    pub pending : PendingEntitlement
    pub matched : IsMatched p hex requested session stage now e middle grant grant_id pending
    pub from_stage : String
    pub to_stage : String
    pub names : transition_names middle.state requested ≡ some (from_stage, to_stage)
    pub rule : ProtocolRuleDecision
    pub admitted : evaluate_stage p middle from_stage to_stage now readiness ≡ ok rule
    pub agrees : mismatches_rule grant.claims rule pending.authorization_decision ≡ false
    pub cache : Cache p
    pub unused : consume p.backend (as_bytes grant_id) middle.consumed_grants ≡ (ok tt, cache)
    pub next : DockingState
    pub reduced : reduce middle.state event_kind (transition_authorization p middle stage) ≡ ok next

  abbrev pub redeemed : IsRedeemable → AccessEngine p
  redeemed k = record middle { consumed_grants = k.cache; state = k.next }

  -- A redemption whose checks pass succeeds, and the state is the one that the reducer gives.
  pub redeem_transition-runs :
      (k : IsRedeemable)
      → redeem_transition p hex requested now readiness e ≡ (
        ok (
            redeemed_outcome p
              (redeemed k)
              e.state
              hex
              k.session
              k.rule
              k.grant
              k.grant_id
              k.pending),
        redeemed k,
      )
  unfolding redeem_transition access.Common.Exec.pure
  redeem_transition-runs k = gets-runs _ _ (
      lift-runs _ _ (k.event_kind, k.stage) (ok_or-some _ _ k.requests)
        (lift-runs _ _ k.session (ok_or-some _ _ k.in_session) (
          bind-runs _ _ (k.grant, k.grant_id, k.pending) middle
            (IsMatched-match_grant p hex requested k.session k.stage now e middle k.grant k.grant_id
              k.pending k.matched)
            (gets-runs _ _ (
              lift-runs _ _ (k.from_stage, k.to_stage) (ok_or-some _ _ k.names)
                (lift-runs _ _ k.rule (map_err-ok _ _ k.admitted) (
                  lift-runs _ _ tt (bail_if-false _ _ k.agrees) (
                    bind-runs _ _ tt (redeemed k)
                      (release-runs p k.event_kind k.stage k.grant_id middle k.cache k.next k.unused
                        k.reduced)
                      (gets-runs _ _ refl)))))))))
