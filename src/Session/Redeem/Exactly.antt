-- ===== src/Session/Redeem/Exactly.antt =====
-- When a redemption succeeds.
use access.Common.{ℕ, ◌≡◌, refl, subst, sym, ◌↔◌, some, String, Bytes, get, without}
use access.Common.Tests.{string_eq, bytes_eq}
use access.Common.Int.{ℤ}
use access.Common.Result.{ok}
use access.Platform.{Platform}
use access.Utf8.{as_bytes}
use access.StateMachine.{DockingState, DockingEvent}
use access.StateMachine.Steps.{Step, reduce_iff}
use access.Protocol.Claims.{AuthorizedStage}
use access.Protocol.Replay.Accepts.{Accepts, consume_iff}
use access.Protocol.Envelope.{VerifiedEnvelope}
use access.Protocol.Envelope.Accepted.{IsChecked, check_envelope_iff, verify_envelope-eq-ok}
use access.Profile.{ProtocolRuleDecision, ReadinessEvidence}
use access.Profile.Evaluate.{Admits, evaluate_iff}
use access.Session.Outcomes.{TransitionOutcome, max_clock_skew_s}
use access.Session.Engine.{AccessEngine, PendingEntitlement}
use access.Session.Stages.{transition_for, transition_names}
use access.Session.Request.{evaluate_stage}
use access.Session.Request.Granted.{Agrees}
use access.Session.Redeem.{transition_authorization, redeem_transition}
use access.Session.Redeem.Matched.{Fits, mismatches_rule_iff}
use access.Session.Redeem.Released.{redeem_transition-IsRedeemed}
use access.Session.Redeem.Runs.{IsRedeemable, redeemed, redeem_transition-runs}
use access.Session.Redeem.Issued.{verify_envelope-runs}

module _ (p : Platform) (hex : String) (requested : ℕ) (now : ℤ) (readiness : ReadinessEvidence p)
    (e : AccessEngine p) where
  -- What must hold of the engine, before it is called, for the grant to be redeemed.
  pub record IsEntitled : Type 0 where
    pub event_kind : DockingEvent
    pub stage : AuthorizedStage
    pub requests : transition_for e.state requested ≡ some (event_kind, stage)
    pub session : String
    pub in_session : e.session_id ≡ some session
    pub encoded : Bytes
    pub decoded : p.hex_decode hex ≡ some encoded
    pub grant : VerifiedEnvelope
    pub checked : IsChecked p encoded e.gate_trust e.chaser.key_id now max_clock_skew_s grant
    pub fresh : Accepts p.backend grant.claims.nonce e.gate_replay
    pub grant_id : String
    pub named : grant.claims.grant_id ≡ some grant_id
    pub pending : PendingEntitlement
    pub found : get e.pending_entitlements grant_id ≡ some pending
    pub fits : Fits grant.claims pending requested session stage now
    pub from_stage : String
    pub to_stage : String
    pub names : transition_names e.state requested ≡ some (from_stage, to_stage)
    pub rule : ProtocolRuleDecision
    pub admits :
        Admits p e.config.protocol_profile now e.config.trust_bundle_id
          e.config.trust_bundle_version e.config.trust_bundle_issued_at_s from_stage to_stage
          e.verified_credentials e.holder_proof_at_s e.authorization.session_authorized readiness
          rule
    pub agrees : Agrees grant.claims rule pending.authorization_decision
    pub single : Accepts p.backend (as_bytes grant_id) e.consumed_grants
    pub next : DockingState
    pub step : Step (transition_authorization p e stage) e.state event_kind next

  redeem_transition-IsEntitled :
      (outcome : TransitionOutcome) (e' : AccessEngine p)
      → redeem_transition p hex requested now readiness e ≡ (ok outcome, e')
      → IsEntitled
  redeem_transition-IsEntitled outcome e' h =
      let k = redeem_transition-IsRedeemed p hex requested now readiness e e' outcome h in
      let m = k.matched in
      let back = sym m.after in
      let used =
        (verify_envelope-eq-ok p p.backend m.encoded e.gate_trust e.chaser.key_id now
          max_clock_skew_s e.gate_replay m.cache k.grant m.verified).1 in
      record {
        event_kind = k.event_kind;
        stage = k.stage;
        requests = k.requests;
        session = k.session;
        in_session = k.in_session;
        encoded = m.encoded;
        decoded = m.decoded;
        grant = k.grant;
        checked = m.checked;
        fresh = (consume_iff p.backend k.grant.claims.nonce e.gate_replay).0 (m.cache, used);
        grant_id = k.grant_id;
        named = m.named;
        pending = k.pending;
        found = m.found;
        fits = m.fits;
        from_stage = k.from_stage;
        to_stage = k.to_stage;
        names =
            subst
              (λ (x : AccessEngine p).
                transition_names x.state requested ≡ some (k.from_stage, k.to_stage))
              back k.names;
        rule = k.rule;
        admits =
            subst
              (λ (x : AccessEngine p).
                Admits p x.config.protocol_profile now x.config.trust_bundle_id
                  x.config.trust_bundle_version x.config.trust_bundle_issued_at_s k.from_stage
                  k.to_stage x.verified_credentials x.holder_proof_at_s
                  x.authorization.session_authorized readiness k.rule)
              back k.admits;
        agrees = k.agrees;
        single =
            subst
              (λ (x : AccessEngine p). Accepts p.backend (as_bytes k.grant_id) x.consumed_grants)
              back
              ((consume_iff p.backend (as_bytes k.grant_id) k.middle.consumed_grants).0
                (k.released.cache, k.released.used));
        next = k.released.next;
        step =
            subst
              (λ (x : AccessEngine p).
                Step (transition_authorization p x k.stage) x.state k.event_kind k.released.next)
              back k.released.step;
      }

  IsEntitled-IsRedeemable :
      IsEntitled → (middle : AccessEngine p) × IsRedeemable p hex requested now readiness e middle
  unfolding evaluate_stage
  IsEntitled-IsRedeemable k =
      let (cache, used) = (consume_iff p.backend k.grant.claims.nonce e.gate_replay).1 k.fresh in
      let (single, spent) =
        (consume_iff p.backend (as_bytes k.grant_id) e.consumed_grants).1 k.single in
      (
        record e {
          gate_replay = cache;
          pending_entitlements = without e.pending_entitlements k.grant_id;
        },
        record {
          event_kind = k.event_kind;
          stage = k.stage;
          requests = k.requests;
          session = k.session;
          in_session = k.in_session;
          grant = k.grant;
          grant_id = k.grant_id;
          pending = k.pending;
          matched = record {
            encoded = k.encoded;
            decoded = k.decoded;
            cache = cache;
            verified =
                verify_envelope-runs p p.backend k.encoded e.gate_trust e.chaser.key_id now
                  max_clock_skew_s k.grant e.gate_replay cache
                  ((check_envelope_iff p k.encoded e.gate_trust e.chaser.key_id now max_clock_skew_s
                      k.grant).1
                    k.checked)
                  used;
            checked = k.checked;
            unused = k.fresh.unused;
            named = k.named;
            found = k.found;
            fits = k.fits;
            after = refl;
          };
          from_stage = k.from_stage;
          to_stage = k.to_stage;
          names = k.names;
          rule = k.rule;
          admitted = (evaluate_iff p _ _ _ _ _ _ _ _ _ _ _ k.rule).1 k.admits;
          agrees = (mismatches_rule_iff _ _ _).1 k.agrees;
          cache = single;
          unused = spent;
          next = k.next;
          reduced = (reduce_iff _ _ _ _).1 k.step;
        },
      )

  -- A redemption succeeds exactly when, of the engine that it is called on, the requested state is
  -- the next one in an open session; the grant decodes, is authentic and timely for the gate, and
  -- its nonce is new; it fits a pending entitlement of this request; the profile's conditions admit
  -- the transition now, by the rule that the grant names, and the grant names the policy that the
  -- entitlement was decided by; its identifier is new; both identifiers can be committed; and the
  -- docking states have the step.
  pub redeem_transition_iff :
      ((outcome : TransitionOutcome) × (e' : AccessEngine p) × (redeem_transition p hex requested
            now readiness e
          ≡ (ok outcome, e')))
      ↔ IsEntitled
  redeem_transition_iff = (
    λ (outcome, e', h). redeem_transition-IsEntitled outcome e' h,
    λ k.
        let (middle, r) = IsEntitled-IsRedeemable k in
        (
          _,
          redeemed p hex requested now readiness e middle r,
          redeem_transition-runs p hex requested now readiness e middle r,
        ),
  )
