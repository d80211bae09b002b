-- ===== src/Session/Request/Keeps.antt =====
-- What a request for a transition leaves alone, whatever comes of it.
use access.Common.{ℕ, Option, List, String, arith}
use access.Common.Int.{ℤ}
use access.Common.Result.{Result, ok, err}
use access.Common.Exec.Keeps.{Keeps, Keeps-bind, Keeps-gets, Keeps-pure, Keeps-lift, Keeps-modify}
use access.Platform.{Platform}
use access.Protocol.Claims.{AuthorizedStage}
use access.Profile.{ProtocolProfileError, ProtocolRuleDecision, ReadinessEvidence}
use access.Cedar.{AccessDecision, AccessPolicyError}
use access.Session.Outcomes.{AccessEvent}
use access.Session.Engine.{PendingEntitlement, AccessEngine}
use access.Session.Engine.Frame.{Frame, Frame-refl, Frame-IsLoose, IsLoose, Keeps-random_nonce}
use access.Session.Messages.Keeps.{Keeps-send_offer, Keeps-send_proof}
use access.Session.Request.{issue_grant, after_policy, after_profile, request_transition}

module _ {p : Platform} (P : AccessEngine p → Type 0) (loose : IsLoose P)
    (pending : (ps : List (String × PendingEntitlement)) (e : AccessEngine p)
      → P e
      → P (record e { pending_entitlements = ps }))
    (proof : (at : Option ℤ) (e : AccessEngine p)
      → P e
      → P (record e { holder_proof_at_s = at })) where
  Keeps-issue_grant :
      (requested : ℕ) (session_id : String) (stage : AuthorizedStage) (rule : ProtocolRuleDecision)
      (now_s : ℤ) (proof_event : AccessEvent) (decision : AccessDecision)
      → Keeps P (issue_grant p requested session_id stage rule now_s proof_event decision)
  unfolding issue_grant
  Keeps-issue_grant requested session_id stage rule now_s proof_event decision =
      Keeps-bind _ _ (Keeps-gets _) λ self.
        Keeps-bind _ _ (Keeps-random_nonce P loose) λ grant_nonce.
          Keeps-bind _ _ (Keeps-random_nonce P loose) λ nonce.
            Keeps-bind _ _ (Keeps-lift _)
              λ encoded. Keeps-bind _ _ (Keeps-modify _ λ e h. pending _ e h) λ _. Keeps-pure _

  Keeps-after_policy :
      (requested : ℕ) (session_id : String) (stage : AuthorizedStage) (rule : ProtocolRuleDecision)
      (now_s : ℤ) (proof_event : AccessEvent) (r : Result AccessPolicyError AccessDecision)
      → Keeps P (after_policy p requested session_id stage rule now_s proof_event r)
  unfolding after_policy
  Keeps-after_policy requested session_id stage rule now_s proof_event (ok decision) =
      Keeps-issue_grant requested session_id stage rule now_s proof_event decision
  Keeps-after_policy requested session_id stage rule now_s proof_event (err error) =
      Keeps-bind _ _ (Keeps-gets _) λ self. Keeps-pure _

  Keeps-after_profile :
      (requested : ℕ) (session_id : String) (stage : AuthorizedStage) (now_s : ℤ)
      (readiness : ReadinessEvidence p) (matched : Option String) (proof_event : AccessEvent)
      (r : Result ProtocolProfileError ProtocolRuleDecision)
      → Keeps P (after_profile p requested session_id stage now_s readiness matched proof_event r)
  unfolding after_profile
  Keeps-after_profile requested session_id stage now_s readiness matched proof_event (ok rule) =
      Keeps-bind _ _ (Keeps-gets _)
        λ self. Keeps-after_policy requested session_id stage rule now_s proof_event _
  Keeps-after_profile requested session_id stage now_s readiness matched proof_event (err error) =
      Keeps-bind _ _ (Keeps-gets _) λ self. Keeps-pure _

  pub Keeps-request_transition :
      (requested : ℕ) (now_s : ℤ) (readiness : ReadinessEvidence p)
      → Keeps P (request_transition p requested now_s readiness)
  unfolding request_transition
  Keeps-request_transition requested now_s readiness = Keeps-bind _ _ (Keeps-gets _) λ start.
      Keeps-bind _ _ (Keeps-lift _) λ found. Keeps-bind _ _ (Keeps-lift _) λ session_id.
        Keeps-bind _ _ (Keeps-send_offer P loose session_id now_s) λ offered.
          Keeps-bind _ _ (Keeps-send_proof P loose session_id _ _ now_s) λ proved.
            Keeps-bind _ _ (Keeps-lift _) λ _.
              Keeps-bind _ _ (Keeps-modify _ λ e h. proof _ e h) λ _.
                Keeps-bind _ _ (Keeps-gets _) λ self.
                  Keeps-bind _ _ (Keeps-lift _)
                    λ names. Keeps-after_profile requested session_id _ now_s readiness _ _ _

-- A request for a transition, granted, denied or failed, changes neither the protected state nor
-- the session: its identifier, authorization, credentials, configuration, keys and trust stay.
pub request_transition-Frame :
    (p : Platform) (requested : ℕ) (now_s : ℤ) (readiness : ReadinessEvidence p)
    (e : AccessEngine p)
    → Frame e (request_transition p requested now_s readiness e).1
request_transition-Frame p requested now_s readiness e =
    (Keeps-request_transition (Frame e) (Frame-IsLoose e) (λ ps s f. ground arith)
        (λ at s f. ground arith) requested now_s readiness).at
      e (Frame-refl e)
