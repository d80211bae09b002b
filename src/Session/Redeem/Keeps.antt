-- ===== src/Session/Redeem/Keeps.antt =====
-- What redeeming a grant leaves alone.
use access.Common.{ℕ, ◌≡◌, List, String, Bytes, arith}
use access.Common.Int.{ℤ}
use access.Common.Result.{err}
use access.Common.Exec.Keeps.{
  Keeps, Keeps-modify, Keeps-bind, Keeps-gets, Keeps-pure, Keeps-lift, Keeps-zoom, KeepsOnError,
  KeepsOnError-bind, KeepsOnError-then, KeepsOnError-modify, NeverFails-gets, NeverFails-pure,
}
use access.Platform.{Platform}
use access.Protocol.Identity.{TrustStore}
use access.Protocol.Envelope.{verify_envelope}
use access.Protocol.Claims.{AuthorizedStage}
use access.StateMachine.{DockingState, DockingEvent}
use access.Profile.{ReadinessEvidence}
use access.Session.Outcomes.{SessionError, max_clock_skew_s}
use access.Session.Engine.{PendingEntitlement, AccessEngine, Cache, on_gate_replay}
use access.Session.Engine.Frame.{Frame, Frame-refl}
use access.Session.Redeem.{take_pending, match_grant, release, redeem_transition}

-- A predicate that the gate's verification keeps, and that its consumed grants and the pending
-- entitlements do not enter.
pub record IsGateLoose {p : Platform} (P : AccessEngine p → Type 0) : Type 0 where
  pub gate :
      (encoded : Bytes) (trust : TrustStore p) (recipient : String) (now_s : ℤ)
      → Keeps P (
          on_gate_replay p
            (verify_envelope p p.backend encoded trust recipient now_s max_clock_skew_s))
  pub consumed_grants :
      (c : Cache p) (e : AccessEngine p) → P e → P (record e { consumed_grants = c })
  pub pending_entitlements :
      (ps : List (String × PendingEntitlement)) (e : AccessEngine p)
      → P e
      → P (record e { pending_entitlements = ps })

module _ {p : Platform} (P : AccessEngine p → Type 0) (loose : IsGateLoose P) where
  Keeps-take_pending : (grant_id : String) → Keeps P (take_pending p grant_id)
  unfolding take_pending
  Keeps-take_pending grant_id = record { at = λ e h. loose.pending_entitlements _ e h }

  pub Keeps-match_grant :
      (hex : String) (requested : ℕ) (session_id : String) (stage : AuthorizedStage) (now_s : ℤ)
      → Keeps P (match_grant p hex requested session_id stage now_s)
  unfolding match_grant
  Keeps-match_grant hex requested session_id stage now_s = Keeps-bind _ _ (Keeps-gets _) λ self.
      Keeps-bind _ _ (Keeps-lift _) λ encoded.
        Keeps-bind _ _ (loose.gate encoded self.gate_trust self.chaser.key_id now_s) λ grant.
          Keeps-bind _ _ (Keeps-lift _) λ grant_id.
            Keeps-bind _ _ (Keeps-take_pending grant_id) λ found.
              Keeps-bind _ _ (Keeps-lift _)
                λ pending. Keeps-bind _ _ (Keeps-lift _) λ _. Keeps-pure _

  KeepsOnError-release :
      (event_kind : DockingEvent) (stage : AuthorizedStage) (grant_id : String)
      → KeepsOnError P (release p event_kind stage grant_id)
  unfolding release
  KeepsOnError-release event_kind stage grant_id =
      KeepsOnError-bind _ _ (Keeps-zoom _ _ _ _ loose.consumed_grants) λ _.
        KeepsOnError-bind _ _ (Keeps-gets _)
          λ self. KeepsOnError-bind _ _ (Keeps-lift _) λ next. KeepsOnError-modify _

  pub KeepsOnError-redeem_transition :
      (hex : String) (requested : ℕ) (now_s : ℤ) (readiness : ReadinessEvidence p)
      → KeepsOnError P (redeem_transition p hex requested now_s readiness)
  unfolding redeem_transition
  KeepsOnError-redeem_transition hex requested now_s readiness =
      KeepsOnError-bind _ _ (Keeps-gets _) λ start. KeepsOnError-bind _ _ (Keeps-lift _) λ found.
        KeepsOnError-bind _ _ (Keeps-lift _) λ session_id.
          KeepsOnError-bind _ _ (Keeps-match_grant hex requested session_id _ now_s) λ matched.
            KeepsOnError-bind _ _ (Keeps-gets _) λ self.
              KeepsOnError-bind _ _ (Keeps-lift _) λ names.
                KeepsOnError-bind _ _ (Keeps-lift _) λ rule.
                  KeepsOnError-bind _ _ (Keeps-lift _) λ _.
                    KeepsOnError-then _ _ (KeepsOnError-release _ _ _)
                      λ _. NeverFails-gets _ _ λ end. NeverFails-pure _

  -- A predicate that the protected state does not enter is kept by a redemption that succeeds too.
  module _
      (moved : (s : DockingState) (e : AccessEngine p) → P e → P (record e { state = s })) where
    Keeps-release :
        (event_kind : DockingEvent) (stage : AuthorizedStage) (grant_id : String)
        → Keeps P (release p event_kind stage grant_id)
    unfolding release
    Keeps-release event_kind stage grant_id =
        Keeps-bind _ _ (Keeps-zoom _ _ _ _ loose.consumed_grants) λ _.
          Keeps-bind _ _ (Keeps-gets _)
            λ self. Keeps-bind _ _ (Keeps-lift _) λ next. Keeps-modify _ λ e h. moved next e h

    pub Keeps-redeem_transition :
        (hex : String) (requested : ℕ) (now_s : ℤ) (readiness : ReadinessEvidence p)
        → Keeps P (redeem_transition p hex requested now_s readiness)
    unfolding redeem_transition
    Keeps-redeem_transition hex requested now_s readiness = Keeps-bind _ _ (Keeps-gets _) λ start.
        Keeps-bind _ _ (Keeps-lift _) λ found. Keeps-bind _ _ (Keeps-lift _) λ session_id.
          Keeps-bind _ _ (Keeps-match_grant hex requested session_id _ now_s) λ matched.
            Keeps-bind _ _ (Keeps-gets _) λ self. Keeps-bind _ _ (Keeps-lift _) λ names.
              Keeps-bind _ _ (Keeps-lift _) λ rule. Keeps-bind _ _ (Keeps-lift _) λ _.
                Keeps-bind _ _ (Keeps-release _ _ _)
                  λ _. Keeps-bind _ _ (Keeps-gets _) λ end. Keeps-pure _

pub Frame-IsGateLoose : {p : Platform} (e0 : AccessEngine p) → IsGateLoose (Frame e0)
Frame-IsGateLoose e0 = record {
  gate = λ encoded trust recipient now_s. Keeps-zoom _ _ _ _ λ c e f. ground arith;
  consumed_grants = λ c e f. ground arith;
  pending_entitlements = λ ps e f. ground arith;
}

-- A redemption that fails, at whichever of its checks, leaves the protected state and the session
-- as they were.
pub redeem_failed-Frame :
    (p : Platform) (hex : String) (requested : ℕ) (now_s : ℤ) (readiness : ReadinessEvidence p)
    (e e' : AccessEngine p) (error : SessionError)
    → redeem_transition p hex requested now_s readiness e ≡ (err error, e')
    → Frame e e'
redeem_failed-Frame p hex requested now_s readiness e e' error h =
    (KeepsOnError-redeem_transition (Frame e) (Frame-IsGateLoose e) hex requested now_s
        readiness).at
      e e' error (Frame-refl e) h
