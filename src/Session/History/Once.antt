-- ===== src/Session/History/Once.antt =====
-- A grant over the whole life of a gate with a durable cache.
use mathlib.Core.Option.{some-injective}
use access.Common.{ℕ, ◌≡◌, ◌≢◌, sym, ap, ◌∙◌, subst, false, some, String, Bytes, contains}
use access.Common.Tests.{bytes_eq}
use access.Common.Int.{ℤ}
use access.Common.Result.{ok}
use access.Common.Exec.Keeps.{
  Keeps, Keeps-bind, Keeps-gets, Keeps-pure, Keeps-modify, Keeps-zoom_part,
}
use access.Platform.{Platform}
use access.Protocol.Claims.{ProtocolClaims}
use access.Protocol.Replay.Backed.{
  IsBacked, IsLasting, IsSpent, reset_ephemeral-IsSpent, restart-IsSpent, Keeps-consume-IsSpent,
  consumed-IsSpent,
}
use access.Protocol.Envelope.{VerifiedEnvelope}
use access.Protocol.Envelope.Keeps.{Keeps-verify_envelope}
use access.Protocol.Envelope.Accepted.{IsChecked, IsChecked-claims, verify_envelope-eq-ok}
use access.Profile.{ReadinessEvidence}
use access.Session.Outcomes.{AccessScenario, TransitionOutcome, max_clock_skew_s}
use access.Session.Engine.{AccessEngine, reset}
use access.Session.Engine.Frame.{IsLoose}
use access.Session.Establish.{prepare_session, establish_session}
use access.Session.Establish.Closed.{IsHandshakeLoose, prepare_session-keeps}
use access.Session.Request.Keeps.{Keeps-request_transition}
use access.Session.Redeem.{redeem_transition}
use access.Session.Redeem.Keeps.{IsGateLoose, Keeps-redeem_transition}
use access.Session.Redeem.Released.{redeem_transition-IsRedeemed}
use access.Session.History.{Operation, establish, request, redeem, reset_engine, perform}
use access.Session.History.Lives.{Lives, here, performs, restarts, reopened-gate}

module _ {p : Platform} (D : IsLasting p.backend) (nonce : Bytes) where
  -- The gate's cache has consumed the nonce, and its backend has committed it.
  abbrev Spent : AccessEngine p → Type 0
  Spent e = IsSpent p.backend nonce e.gate_replay

  Spent-IsLoose : IsLoose Spent
  Spent-IsLoose = record {
    station_replay = λ c e h. h;
    chaser_replay = λ c e h. h;
    fills = λ e h. h;
  }

  Spent-IsHandshakeLoose : IsHandshakeLoose Spent
  Spent-IsHandshakeLoose = record {
    messages = Spent-IsLoose;
    scenario = λ s e h. h;
    identity = λ e h. h;
    evidence = λ vs e h. h;
    proof = λ at e h. h;
  }

  Spent-IsGateLoose : IsGateLoose Spent
  Spent-IsGateLoose = record {
    gate = λ encoded trust recipient now_s.
        Keeps-zoom_part _ _ _ _ (IsSpent p.backend nonce) (λ e h. h) (λ c e h spent. spent)
          (Keeps-verify_envelope p p.backend (IsSpent p.backend nonce) encoded trust recipient now_s
            max_clock_skew_s (Keeps-consume-IsSpent p.backend D nonce));
    consumed_grants = λ c e h. h;
    pending_entitlements = λ ps e h. h;
  }

  reset-Spent : (e : AccessEngine p) → Spent e → Spent (reset p e)
  unfolding reset
  reset-Spent e h = reset_ephemeral-IsSpent p.backend nonce e.gate_replay h

  Keeps-establish_session :
      (now_s : ℤ) (scenario : AccessScenario) → Keeps Spent (establish_session p now_s scenario)
  unfolding establish_session
  Keeps-establish_session now_s scenario =
      Keeps-bind (prepare_session p now_s scenario) _
        (record {
          at = λ e h.
              prepare_session-keeps Spent Spent-IsHandshakeLoose now_s scenario e (reset-Spent e h);
        })
        λ prepared.
          Keeps-bind _ _ (Keeps-modify _ λ e h. h)
            λ _. Keeps-bind _ _ (Keeps-gets _) λ self. Keeps-pure _

  perform-Spent :
      (operation : Operation p) (e : AccessEngine p) → Spent e → Spent (perform p operation e)
  unfolding perform
  perform-Spent (establish now_s scenario) e h = (Keeps-establish_session now_s scenario).at e h
  perform-Spent (request requested now_s readiness) e h =
      (Keeps-request_transition Spent Spent-IsLoose (λ ps s k. k) (λ at s k. k) requested now_s
          readiness).at
        e h
  perform-Spent (redeem hex requested now_s readiness) e h =
      (Keeps-redeem_transition Spent Spent-IsGateLoose (λ s x k. k) hex requested now_s
          readiness).at
        e h
  perform-Spent reset_engine e h = reset-Spent e h

  Lives-Spent : (e f : AccessEngine p) → Lives p e f → Spent e → Spent f
  Lives-Spent e f here h = h
  Lives-Spent e f (performs g o lived) h = perform-Spent o g (Lives-Spent e g lived h)
  Lives-Spent e f (restarts g built opened lived started) h =
      restart-IsSpent p.backend D nonce g.gate_replay f.gate_replay (Lives-Spent e g lived h)
        (reopened-gate g built f started)

module _ (p : Platform) (hex : String) (requested : ℕ) (now : ℤ) (readiness : ReadinessEvidence p)
    (e e' : AccessEngine p) (outcome : TransitionOutcome) where
  -- The message of the grant that was redeemed, and its nonce, which the gate has consumed.
  record IsPresented : Type 0 where
    pub encoded : Bytes
    pub decoded : p.hex_decode hex ≡ some encoded
    pub grant : VerifiedEnvelope
    pub checked : IsChecked p encoded e.gate_trust e.chaser.key_id now max_clock_skew_s grant
    pub unused : contains e.gate_replay.consumed grant.claims.nonce ≡ false
    pub spent :
        IsLasting p.backend
        → IsBacked e.gate_replay
        → IsSpent p.backend grant.claims.nonce e'.gate_replay

  redeem_transition-IsPresented :
      redeem_transition p hex requested now readiness e ≡ (ok outcome, e') → IsPresented
  redeem_transition-IsPresented h =
      let k = redeem_transition-IsRedeemed p hex requested now readiness e e' outcome h in
      let m = k.matched in
      let kept : m.cache ≡ e'.gate_replay =
        ap (λ (x : AccessEngine p). x.gate_replay) m.after
        ∙ ap (λ (x : AccessEngine p). x.gate_replay) k.released.after in
      let used =
        (verify_envelope-eq-ok p p.backend m.encoded e.gate_trust e.chaser.key_id now
          max_clock_skew_s e.gate_replay m.cache k.grant m.verified).1 in
      record {
        encoded = m.encoded;
        decoded = m.decoded;
        grant = k.grant;
        checked = m.checked;
        unused = m.unused;
        spent = λ D backed.
            subst (IsSpent p.backend k.grant.claims.nonce) kept
              (consumed-IsSpent p.backend D k.grant.claims.nonce e.gate_replay m.cache backed used);
      }

-- Where the gate's cache has a backend that commits what it reports as appended and never loses it,
-- a grant that was redeemed is never redeemed again, whatever follows: operations of the engine,
-- failed or not, new sessions and resets, and restarts of the process, which build a new engine of any
-- configuration and open the journals that the old one left; and for whichever state, time and
-- readiness the grant is presented.
pub redeemed_once :
    (p : Platform) (D : IsLasting p.backend) (hex : String) (requested requested' : ℕ)
    (now now' : ℤ) (readiness readiness' : ReadinessEvidence p) (e e' f g : AccessEngine p)
    (outcome outcome' : TransitionOutcome)
    → IsBacked e.gate_replay
    → redeem_transition p hex requested now readiness e ≡ (ok outcome, e')
    → Lives p e' f
    → redeem_transition p hex requested' now' readiness' f ≢ (ok outcome', g)
redeemed_once p D hex requested requested' now now' readiness readiness' e e' f g outcome outcome'
      backed h lived again =
    let k = redeem_transition-IsPresented p hex requested now readiness e e' outcome h in
    let j = redeem_transition-IsPresented p hex requested' now' readiness' f g outcome' again in
    let bytes = some-injective _ _ (sym k.decoded ∙ j.decoded) in
    let same =
      ap (λ (x : ProtocolClaims). x.nonce)
        (IsChecked-claims p j.encoded (rw bytes at k.checked) j.checked) in
    let used = (Lives-Spent D k.grant.claims.nonce e' f lived (k.spent D backed)).spent in
    let clash : contains f.gate_replay.consumed k.grant.claims.nonce ≡ false = rw same j.unused in
    cc
