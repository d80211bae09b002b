-- ===== src/Session/Establish/Closed.antt =====
-- A handshake that fails leaves no session open.
use access.Common.{◌≡◌, refl, Option, none, List, [], false, arith}
use access.Common.Int.{ℤ}
use access.Common.Result.{err}
use access.Common.Exec.Keeps.{
  Keeps, Keeps-bind, Keeps-gets, Keeps-pure, Keeps-lift, Keeps-modify, KeepsOnError-then,
  KeepsOnError-modify, NeverFails-gets, NeverFails-pure, modify_first, bind-failed,
}
use access.Platform.{Platform}
use access.Protocol.Envelope.{VerifiedEnvelope}
use access.StateMachine.{hold}
use access.Profile.{VerifiedCredentialEvidence}
use access.Session.Outcomes.{AccessScenario, SessionError}
use access.Session.Engine.{AccessEngine, reset}
use access.Session.Engine.Frame.{IsLoose, Keeps-random_nonce}
use access.Session.Messages.Keeps.{Keeps-send_request, Keeps-send_offer, Keeps-send_proof}
use access.Session.Establish.{
  verify_identity, verify_presentation, authorize_claims, prepare_session, establish_session,
}

module _ {p : Platform} where
  -- No session: nothing is authorized, nothing pending, and the protected state is the first.
  pub record IsClosed (e : AccessEngine p) : Type 0 where
    pub session_id : e.session_id ≡ none
    pub unauthorized : e.authorization.session_authorized ≡ false
    pub undocked : e.authorization.docking_authorized ≡ false
    pub state : e.state ≡ hold
    pub pending_entitlements : e.pending_entitlements ≡ []

  pub IsClosed-IsLoose : IsLoose (λ (e : AccessEngine p). IsClosed e)
  IsClosed-IsLoose = record {
    station_replay = λ c e h. ground arith;
    chaser_replay = λ c e h. ground arith;
    fills = λ e h. ground arith;
  }

  pub reset-IsClosed : (e : AccessEngine p) → IsClosed (reset p e)
  unfolding reset
  reset-IsClosed e = record {
    session_id = refl;
    unauthorized = refl;
    undocked = refl;
    state = refl;
    pending_entitlements = refl;
  }

  -- A predicate that what the handshake writes, besides the caches, does not enter either.
  pub record IsHandshakeLoose (P : AccessEngine p → Type 0) : Type 0 where
    pub messages : IsLoose P
    pub scenario : (s : AccessScenario) (e : AccessEngine p) → P e → P (record e { scenario = s })
    pub identity : (e : AccessEngine p) → P e → P (verify_identity p e)
    pub evidence :
        (vs : List VerifiedCredentialEvidence) (e : AccessEngine p)
        → P e
        → P (record e { verified_credentials = vs })
    pub proof : (at : Option ℤ) (e : AccessEngine p) → P e → P (record e { holder_proof_at_s = at })

  IsClosed-IsHandshakeLoose : IsHandshakeLoose (λ (e : AccessEngine p). IsClosed e)
  IsClosed-IsHandshakeLoose = record {
    messages = IsClosed-IsLoose;
    scenario = λ s e h. ground arith;
    identity = λ e h. ground arith;
    evidence = λ vs e h. ground arith;
    proof = λ at e h. ground arith;
  }

  module _ (P : AccessEngine p → Type 0) (loose : IsHandshakeLoose P) where
    Keeps-verify_presentation :
        (offer proof : VerifiedEnvelope) (now_s : ℤ)
        → Keeps P (verify_presentation p offer proof now_s)
    unfolding verify_presentation
    Keeps-verify_presentation offer proof now_s =
        Keeps-bind _ _ (Keeps-gets _)
          λ self. Keeps-bind _ _ (Keeps-lift _) λ _. Keeps-bind _ _ (Keeps-lift _) λ _. Keeps-lift _

    Keeps-authorize_claims : (now_s : ℤ) → Keeps P (authorize_claims p now_s)
    unfolding authorize_claims
    Keeps-authorize_claims now_s = Keeps-bind _ _ (Keeps-gets _) λ self.
        Keeps-bind _ _ (Keeps-lift _) λ _.
          Keeps-bind _ _ (Keeps-lift _)
            λ _. Keeps-bind _ _ (Keeps-modify _ λ e h. loose.proof _ e h) λ _. Keeps-lift _

    pub prepare_session-keeps :
        (now_s : ℤ) (scenario : AccessScenario) (e : AccessEngine p)
        → P (reset p e)
        → P (prepare_session p now_s scenario e).1
    unfolding prepare_session
    prepare_session-keeps now_s scenario e start = modify_first {P = P} _ _ e start (
        Keeps-bind _ _ (Keeps-modify _ λ x h. loose.scenario _ x h) λ _.
          Keeps-bind _ _ (Keeps-random_nonce P loose.messages) λ session_nonce.
            Keeps-bind _ _ (Keeps-send_request P loose.messages now_s) λ request.
              Keeps-bind _ _ (Keeps-modify _ λ x h. loose.identity x h) λ _.
                Keeps-bind _ _ (Keeps-send_offer P loose.messages _ now_s) λ offered.
                  Keeps-bind _ _ (Keeps-gets _) λ self. Keeps-bind _ _ (Keeps-lift _) λ credentials.
                    Keeps-bind _ _ (Keeps-send_proof P loose.messages _ _ _ now_s) λ proof.
                      Keeps-bind _ _ (Keeps-verify_presentation _ proof now_s) λ evidence.
                        Keeps-bind _ _ (Keeps-modify _ λ x h. loose.evidence _ x h) λ _.
                          Keeps-bind _ _ (Keeps-authorize_claims now_s) λ decision. Keeps-pure _)

  -- The handshake, from its start to its end, opens no session by itself.
  pub prepare_session-IsClosed :
      (now_s : ℤ) (scenario : AccessScenario) (e : AccessEngine p)
      → IsClosed (prepare_session p now_s scenario e).1
  prepare_session-IsClosed now_s scenario e =
      prepare_session-keeps (λ x. IsClosed x) IsClosed-IsHandshakeLoose now_s scenario e
        (reset-IsClosed e)

-- A handshake that fails, at whichever of its steps, leaves the engine without a session, whatever
-- session was open before: nothing authorized, no entitlement pending, the state at its start.
pub establish_failed-IsClosed :
    (p : Platform) (now_s : ℤ) (scenario : AccessScenario) (e e' : AccessEngine p)
    (error : SessionError)
    → establish_session p now_s scenario e ≡ (err error, e')
    → IsClosed e'
unfolding establish_session
establish_failed-IsClosed p now_s scenario e e' error h =
    bind-failed (prepare_session p now_s scenario) _ e e' error h
      (prepare_session-IsClosed now_s scenario e)
      (λ a.
        KeepsOnError-then {P = λ (x : AccessEngine p). IsClosed x} _ _ (KeepsOnError-modify _)
          λ _. NeverFails-gets _ _ λ self. NeverFails-pure _)
