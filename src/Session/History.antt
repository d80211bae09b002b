-- ===== src/Session/History.antt =====
-- The engine of rust/access_core/src/session.rs under any sequence of its operations, those that
-- fail included: what each leaves is what the next one finds.
pub mod Once
pub mod Lives
use access.Common.{ℕ, ◌≡◌, refl, sym, ap, ◌∙◌, ◌≢◌, subst, none, some, List, [], ◌∷◌, String, true}
use access.Common.Int.{ℤ}
use access.Common.Result.{Result, ok, err}
use access.Platform.{Platform}
use access.Protocol.Identity.{IdentityKey, TrustStore}
use access.StateMachine.{hold}
use access.Profile.{ReadinessEvidence}
use access.Session.Outcomes.{AccessScenario, SessionError, SessionOutcome, TransitionOutcome}
use access.Session.Engine.{AccessEngine, AccessEngineConfig, new, reset}
use access.Session.Engine.Frame.{Frame}
use access.Session.Establish.{establish_session}
use access.Session.Establish.Closed.{establish_failed-IsClosed, reset-IsClosed}
use access.Session.Establish.Established.{establish_session-IsEstablished}
use access.Session.Request.{request_transition}
use access.Session.Request.Keeps.{request_transition-Frame}
use access.Session.Redeem.{redeem_transition}
use access.Session.Redeem.Keeps.{redeem_failed-Frame}
use access.Session.Redeem.Released.{redeem_transition-IsRedeemed}
use access.Session.Redeem.Advances.{redeem_transition-Advances}

module _ (p : Platform) where
  -- A call on the engine, with its arguments.
  pub data Operation : Type 0 where
    establish : ℤ → AccessScenario → Operation
    request : ℕ → ℤ → ReadinessEvidence p → Operation
    redeem : String → ℕ → ℤ → ReadinessEvidence p → Operation
    reset_engine : Operation

  -- The engine after a call, whatever the call returned.
  unfoldable pub perform : Operation → AccessEngine p → AccessEngine p
  perform (establish now_s scenario) e = (establish_session p now_s scenario e).1
  perform (request requested now_s readiness) e =
      (request_transition p requested now_s readiness e).1
  perform (redeem hex requested now_s readiness) e =
      (redeem_transition p hex requested now_s readiness e).1
  perform reset_engine e = reset p e

  unfoldable pub run : List Operation → AccessEngine p → AccessEngine p
  unfolding perform
  run [] e = e
  run (operation ∷ rest) e = run rest (perform operation e)

module _ {p : Platform} where
  -- Either no session is open and the protected state is the first, or a session is open, and its
  -- holder is identified and authorized.
  pub data IsGuarded (e : AccessEngine p) : Type 0 where
    closed : e.session_id ≡ none → e.state ≡ hold → IsGuarded e
    opened :
        (session_id : String)
        → e.session_id ≡ some session_id
        → e.authorization.session_authorized ≡ true
        → e.authorization.identity_verified ≡ true
        → IsGuarded e

  Frame-IsGuarded : (e f : AccessEngine p) → Frame e f → IsGuarded e → IsGuarded f
  Frame-IsGuarded e f k (closed none_open first) =
      closed (k.session_id ∙ none_open) (k.state ∙ first)
  Frame-IsGuarded e f k (opened id open_now authorized identified) =
      opened id (k.session_id ∙ open_now)
        (ap (λ a. a.session_authorized) k.authorization ∙ authorized)
        (ap (λ a. a.identity_verified) k.authorization ∙ identified)

  establish-IsGuarded :
      (now_s : ℤ) (scenario : AccessScenario) (e f : AccessEngine p)
      (r : Result SessionError SessionOutcome)
      → establish_session p now_s scenario e ≡ (r, f)
      → IsGuarded f
  establish-IsGuarded now_s scenario e f (ok outcome) h =
      let k = establish_session-IsEstablished p now_s scenario e f outcome h in
      opened outcome.session_id k.session_id k.session_authorized k.identity_verified
  establish-IsGuarded now_s scenario e f (err error) h =
      let k = establish_failed-IsClosed p now_s scenario e f error h in closed k.session_id k.state

  redeemed-IsGuarded :
      (hex : String) (requested : ℕ) (now_s : ℤ) (readiness : ReadinessEvidence p)
      (e f : AccessEngine p) (outcome : TransitionOutcome)
      → redeem_transition p hex requested now_s readiness e ≡ (ok outcome, f)
      → IsGuarded e
      → IsGuarded f
  redeemed-IsGuarded hex requested now_s readiness e f outcome h (closed none_open first) =
      let k = redeem_transition-IsRedeemed p hex requested now_s readiness e f outcome h in
      let clash : none ≡ some k.session = sym none_open ∙ k.in_session in cc
  redeemed-IsGuarded hex requested now_s readiness e f outcome h
        (opened id open_now authorized identified) =
      let k = redeem_transition-Advances p hex requested now_s readiness e f outcome h in
      opened id (k.same_session ∙ open_now)
        (ap (λ a. a.session_authorized) k.same_authorization ∙ authorized)
        (ap (λ a. a.identity_verified) k.same_authorization ∙ identified)

  redeem-IsGuarded :
      (hex : String) (requested : ℕ) (now_s : ℤ) (readiness : ReadinessEvidence p)
      (e f : AccessEngine p) (r : Result SessionError TransitionOutcome)
      → redeem_transition p hex requested now_s readiness e ≡ (r, f)
      → IsGuarded e
      → IsGuarded f
  redeem-IsGuarded hex requested now_s readiness e f (ok outcome) h =
      redeemed-IsGuarded hex requested now_s readiness e f outcome h
  redeem-IsGuarded hex requested now_s readiness e f (err error) h =
      Frame-IsGuarded e f (redeem_failed-Frame p hex requested now_s readiness e f error h)

  perform-IsGuarded :
      (operation : Operation p) (e : AccessEngine p)
      → IsGuarded e
      → IsGuarded (perform p operation e)
  unfolding perform
  perform-IsGuarded (establish now_s scenario) e g =
      establish-IsGuarded now_s scenario e _ (establish_session p now_s scenario e).0 refl
  perform-IsGuarded (request requested now_s readiness) e g =
      Frame-IsGuarded e _ (request_transition-Frame p requested now_s readiness e) g
  perform-IsGuarded (redeem hex requested now_s readiness) e g =
      redeem-IsGuarded hex requested now_s readiness e _
        (redeem_transition p hex requested now_s readiness e).0 refl g
  perform-IsGuarded reset_engine e g = let k = reset-IsClosed e in closed k.session_id k.state

  pub run-IsGuarded :
      (operations : List (Operation p)) (e : AccessEngine p)
      → IsGuarded e
      → IsGuarded (run p operations e)
  unfolding run
  run-IsGuarded [] e g = g
  run-IsGuarded (operation ∷ rest) e g =
      run-IsGuarded rest (perform p operation e) (perform-IsGuarded operation e g)

  pub moved :
      (e : AccessEngine p)
      → IsGuarded e
      → e.state ≢ hold
      → (session_id : String) × (e.session_id ≡ some session_id)
        × (e.authorization.session_authorized ≡ true)
        × (e.authorization.identity_verified ≡ true)
  moved e (closed none_open first) h = absurd (h first)
  moved e (opened id open_now authorized identified) h = (id, open_now, authorized, identified)

-- Whatever operations a new engine has performed, in whichever order and whether they succeeded or
-- failed, it is past the first protected state only within an open session that is authorized and
-- whose holder is identified.
pub run-protected :
    (p : Platform) (chaser station issuer : IdentityKey p)
    (station_trust chaser_trust credential_trust gate_trust : TrustStore p)
    (config : AccessEngineConfig p) (operations : List (Operation p)) (e : AccessEngine p)
    → e
      ≡ run p operations (
          new p chaser station issuer station_trust chaser_trust credential_trust gate_trust config)
    → e.state ≢ hold
    → (session_id : String) × (e.session_id ≡ some session_id)
      × (e.authorization.session_authorized ≡ true)
      × (e.authorization.identity_verified ≡ true)
unfolding new
run-protected p chaser station issuer station_trust chaser_trust credential_trust gate_trust config
      operations e reached h =
    let start =
      new p chaser station issuer station_trust chaser_trust credential_trust gate_trust config in
    let guarded : IsGuarded start = closed refl refl in
    moved e (subst (λ x. IsGuarded x) (sym reached) (run-IsGuarded operations start guarded)) h
