-- ===== src/Session/Redeem/Advances.antt =====
-- The protected state after a redemption, and the grant that cannot be presented again.
use access.Common.{ℕ, ◌+◌, ◌≡◌, refl, sym, ap, ◌∙◌, ◌≢◌, some, List, String, Bytes}
use access.Common.Tests.{bytes_eq}
use access.Common.Int.{ℤ}
use access.Common.Result.{ok}
use access.Platform.{Platform}
use access.StateMachine.{DockingState, DockingEvent, AuthorizationContext}
use access.StateMachine.Steps.{Step, begins, closes, captures, docks, aborts}
use access.Protocol.Claims.{AuthorizedStage}
use access.Protocol.Envelope.Accepted.{verify_envelope_once}
use access.Protocol.Replay.Once.{after}
use access.Profile.{ReadinessEvidence}
use access.Session.Outcomes.{TransitionOutcome, max_clock_skew_s}
use access.Session.Engine.{AccessEngine}
use access.Session.Stages.{state_number}
use access.Session.Stages.Agreement.{stage_state, transition_for-IsTransition}
use access.Session.Redeem.{transition_authorization, redeem_transition}
use access.Session.Redeem.Released.{redeem_transition-IsRedeemed}

Step-target :
    {a b : AuthorizationContext} {s t u : DockingState} {e : DockingEvent}
    → Step a s e t
    → Step b s e u
    → t ≡ u
Step-target begins begins = refl
Step-target (closes h) (closes k) = refl
Step-target (captures h) (captures k) = refl
Step-target (docks h) (docks k) = refl
Step-target (aborts s) (aborts other) = refl

module _ (p : Platform) (requested : ℕ) (e e' : AccessEngine p) where
  -- The state moved to the one requested, the next in order, by a step of the reducer under the
  -- session's authorization; the session and its evidence are the same.
  pub record Advances : Type 0 where
    pub event_kind : DockingEvent
    pub stage : AuthorizedStage
    pub step : Step (transition_authorization p e stage) e.state event_kind e'.state
    pub authorized : stage_state stage ≡ e'.state
    pub numbered : state_number e'.state ≡ requested
    pub follows : requested ≡ state_number e.state + 1
    pub same_session : e'.session_id ≡ e.session_id
    pub same_authorization : e'.authorization ≡ e.authorization
    pub same_evidence : e'.verified_credentials ≡ e.verified_credentials

module _ (p : Platform) (hex : String) (requested : ℕ) (now : ℤ) (readiness : ReadinessEvidence p)
    (e e' : AccessEngine p) (outcome : TransitionOutcome) where
  -- A redemption that succeeds moves the protected state by exactly one step, to the state that was
  -- requested, through the reducer, and keeps the session's identifier, authorization and evidence.
  pub redeem_transition-Advances :
      redeem_transition p hex requested now readiness e ≡ (ok outcome, e')
      → Advances p requested e e'
  redeem_transition-Advances h =
      let k = redeem_transition-IsRedeemed p hex requested now readiness e e' outcome h in
      let t = transition_for-IsTransition e.state requested k.event_kind k.stage k.requests in
      let r = k.released in
      let from = ap (λ (x : AccessEngine p). x.state) k.matched.after in
      let context =
        ap (λ (x : AccessEngine p). transition_authorization p x k.stage) k.matched.after in
      let step : Step (transition_authorization p e k.stage) e.state k.event_kind r.next =
        rw (context, from) r.step in
      let next : r.next ≡ e'.state = ap (λ (x : AccessEngine p). x.state) r.after in
      let target : stage_state k.stage ≡ r.next = Step-target t.steps step in
      record {
        event_kind = k.event_kind;
        stage = k.stage;
        step = rw (← next) step;
        authorized = target ∙ next;
        numbered = ap state_number (sym (target ∙ next)) ∙ t.numbered;
        follows = t.follows;
        same_session = sym (
            ap (λ (x : AccessEngine p). x.session_id) k.matched.after
            ∙ ap (λ (x : AccessEngine p). x.session_id) r.after);
        same_authorization = sym (
            ap (λ (x : AccessEngine p). x.authorization) k.matched.after
            ∙ ap (λ (x : AccessEngine p). x.authorization) r.after);
        same_evidence = sym (
            ap (λ (x : AccessEngine p). x.verified_credentials) k.matched.after
            ∙ ap (λ (x : AccessEngine p). x.verified_credentials) r.after);
      }

-- A grant that was redeemed is refused when it is presented again to a gate whose cache is the one
-- after the redemption, whatever identifiers were presented to that cache since, and for whichever
-- state, time and readiness the grant is presented.
pub redeem_transition_once :
    (p : Platform) (hex : String) (requested requested' : ℕ) (now now' : ℤ)
    (readiness readiness' : ReadinessEvidence p) (e e' f f' : AccessEngine p)
    (outcome outcome' : TransitionOutcome) (ns : List Bytes)
    → redeem_transition p hex requested now readiness e ≡ (ok outcome, e')
    → f.gate_replay ≡ after p.backend e'.gate_replay ns
    → redeem_transition p hex requested' now' readiness' f ≢ (ok outcome', f')
redeem_transition_once p hex requested requested' now now' readiness readiness' e e' f f' outcome
      outcome' ns h later again =
    let k = redeem_transition-IsRedeemed p hex requested now readiness e e' outcome h in
    let j = redeem_transition-IsRedeemed p hex requested' now' readiness' f f' outcome' again in
    let kept : k.matched.cache ≡ e'.gate_replay =
      ap (λ (x : AccessEngine p). x.gate_replay) k.matched.after
      ∙ ap (λ (x : AccessEngine p). x.gate_replay) k.released.after in
    let cached : f.gate_replay ≡ after p.backend k.matched.cache ns =
      later ∙ ap (λ c. after p.backend c ns) (sym kept) in
    let read : some k.matched.encoded ≡ some j.matched.encoded =
      sym k.matched.decoded ∙ j.matched.decoded in
    let same : k.matched.encoded ≡ j.matched.encoded = cc in
    verify_envelope_once p p.backend k.matched.encoded e.gate_trust f.gate_trust e.chaser.key_id
      f.chaser.key_id now now' max_clock_skew_s max_clock_skew_s e.gate_replay k.matched.cache
      j.matched.cache k.grant j.grant ns k.matched.verified
      (rw (← same, cached) at j.matched.verified)
