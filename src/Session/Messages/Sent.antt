-- ===== src/Session/Messages/Sent.antt =====
-- What the arrival of a handshake message establishes, and of a proof that answers an offer.
use access.Common.{ℕ, suc, ◌≡◌, refl, ap, subst, some, [], List, String, Bytes, arith}
use access.Common.Tests.{string_eq, bytes_eq, option_eq}
use access.Common.Int.{ℤ}
use access.Common.Result
use access.Common.Result.{Result, ok, err, ok-injective, ok_or-eq-ok, map_err-eq-ok, bail_if-eq-ok}
use access.Common.Exec.{Exec, lift-then, gets-then, bind-then, zoom-then, zoom, pure-eq-ok}
use access.Platform.{Platform}
use access.Protocol.Claims.{MessageType, session_offer, session_proof, ProtocolClaims}
use access.Protocol.Identity.{IdentityKey, TrustStore}
use access.Protocol.Envelope.{VerifiedEnvelope, sign_envelope}
use access.Protocol.Envelope.Accepted.{IsChecked, verify_envelope-IsChecked}
use access.Session.Outcomes.{SessionError, max_clock_skew_s}
use access.Session.Engine.{AccessEngine, Cache, empty_nonce, random_nonce}
use access.Session.Messages.{handshake_claims, bind_proof, exchange, send_offer, send_proof}

pub random_nonce-eq-ok :
    (p : Platform) (e s : AccessEngine p) (nonce : Bytes)
    → random_nonce p e ≡ (ok nonce, s)
    → (p.fill e.random_source e.fills empty_nonce ≡ some nonce)
      × (record e { fills = suc e.fills } ≡ s)
unfolding random_nonce
random_nonce-eq-ok p e s nonce h = (
  ok_or-eq-ok _ _ (ap (λ (x : Result SessionError Bytes × AccessEngine p). x.0) h),
  ap (λ (x : Result SessionError Bytes × AccessEngine p). x.1) h,
)

module _ {E F S T A : Type 0} where
  zoomed :
      (fe : F → E) (put : T → S → S) (s : S) (x : Result F A × T) (a : A) (t : S)
      → ◌≡◌ {A = Result E A × S} (Result.map_err fe x.0, put x.1 s) (ok a, t)
      → (u : T) × (x ≡ (ok a, u))
  zoomed fe put s (ok b, u) a t h =
      let same : ◌≡◌ {A = Result E A} (ok b) (ok a) = ap (λ y. y.0) h in
      (u, ap (λ b. (ok b, u)) (ok-injective same))
  zoomed fe put s (err e, u) a t h = cc

  pub zoom-eq-ok :
      (fe : F → E) (part : S → T) (put : T → S → S) (m : Exec F T A) (s : S) (a : A) (t : S)
      → zoom fe part put m s ≡ (ok a, t)
      → (u : T) × (m (part s) ≡ (ok a, u))
  unfolding zoom
  zoom-eq-ok fe part put m s a t h = zoomed fe put s (m (part s)) a t h

module _ (p : Platform) (now : ℤ) where
  -- The message was signed by its sender over the challenge, and is authentic for its recipient.
  pub record IsSent (message_type : MessageType) (session_id : String) (challenge : Bytes)
      (credentials : List Bytes) (signer : IdentityKey p) (trust : TrustStore p)
      (recipient : String) (v : VerifiedEnvelope) : Type 0 where
    pub claims : ProtocolClaims
    pub typed : claims.message_type ≡ message_type
    pub issued_by : claims.issuer ≡ signer.key_id
    pub addressed : claims.recipient ≡ recipient
    pub in_session : claims.session_id ≡ some session_id
    pub challenged : claims.challenge_nonce ≡ some challenge
    pub presents : claims.credentials ≡ credentials
    pub encoded : Bytes
    pub signed : sign_envelope p claims signer ≡ ok encoded
    pub checked : IsChecked p encoded trust recipient now max_clock_skew_s v

  exchange-IsSent :
      (message_type : MessageType) (session_id : String) (challenge nonce : Bytes)
      (credentials : List Bytes) (signer : IdentityKey p) (trust : TrustStore p)
      (recipient : String) (c c' : Cache p) (v : VerifiedEnvelope)
      → exchange p
          (handshake_claims message_type signer.key_id recipient now nonce
            (some session_id)
            (some challenge)
            credentials)
          signer
          trust
          recipient
          now
          c
        ≡ (ok v, c')
      → IsSent message_type session_id challenge credentials signer trust recipient v
  unfolding exchange handshake_claims
  exchange-IsSent message_type session_id challenge nonce credentials signer trust recipient c c' v
        h =
      lift-then _ _ h λ encoded signed h1. record {
        claims = _;
        typed = refl;
        issued_by = refl;
        addressed = refl;
        in_session = refl;
        challenged = refl;
        presents = refl;
        encoded = encoded;
        signed = signed;
        checked =
            (verify_envelope-IsChecked p p.backend encoded trust recipient now max_clock_skew_s c c'
              v h1).0;
      }

  send_offer-IsSent :
      (session_id : String) (challenge : Bytes) (e e' : AccessEngine p) (offer : VerifiedEnvelope)
      → send_offer p session_id now e ≡ (ok (challenge, offer), e')
      → (p.fill e.random_source e.fills empty_nonce ≡ some challenge)
        × IsSent session_offer session_id challenge [] e.station e.chaser_peer_trust e.chaser.key_id
            offer
  unfolding send_offer
  send_offer-IsSent session_id challenge e e' offer h =
      bind-then _ _ (gets-then _ _ h) λ drawn s1 filled h1. bind-then _ _ h1 λ nonce s2 _ h2.
        zoom-then _ _ _ _ _ h2 λ received c exchanged h3.
          let result = (pure-eq-ok _ _ h3).0 in
          let same : drawn ≡ challenge = ap (λ x. x.0) result in
          let arrived : received ≡ offer = ap (λ x. x.1) result in
          rw (← same, ← arrived)
            (
              (random_nonce-eq-ok p e s1 drawn filled).0,
              exchange-IsSent session_offer session_id drawn nonce [] e.station e.chaser_peer_trust
                  e.chaser.key_id _ c received exchanged,
            )

  send_proof-IsSent :
      (session_id : String) (challenge : Bytes) (credentials : List Bytes) (e e' : AccessEngine p)
      (proof : VerifiedEnvelope)
      → send_proof p session_id challenge credentials now e ≡ (ok proof, e')
      → IsSent session_proof session_id challenge credentials e.chaser e.station_peer_trust
          e.station.key_id proof
  unfolding send_proof
  send_proof-IsSent session_id challenge credentials e e' proof h =
      bind-then _ _ (gets-then _ _ h) λ nonce s sent h1.
        let (c, exchanged) = zoom-eq-ok _ _ _ _ s proof e' h1 in
        exchange-IsSent session_proof session_id challenge nonce credentials e.chaser
          e.station_peer_trust e.station.key_id _ c proof exchanged

  -- The holder answered the challenge: the station's offer of the session, over what its random
  -- source gave at that call, and the holder's proof over the same challenge, both read by their
  -- recipients, and agreeing on the session and on the challenge.
  pub record IsAnswered (session_id : String) (credentials : List Bytes)
      (chaser station : IdentityKey p) (chaser_peer_trust station_peer_trust : TrustStore p)
      (source : p.RandomSource) (offer proof : VerifiedEnvelope) : Type 0 where
    pub challenge : Bytes
    pub call : ℕ
    pub fresh : p.fill source call empty_nonce ≡ some challenge
    pub offered :
        IsSent session_offer session_id challenge [] station chaser_peer_trust chaser.key_id offer
    pub proved :
        IsSent session_proof session_id challenge credentials chaser station_peer_trust
          station.key_id proof
    pub same_session : proof.claims.session_id ≡ offer.claims.session_id
    pub same_challenge : proof.claims.challenge_nonce ≡ offer.claims.challenge_nonce

  -- A proof that was sent after its offer, and is bound to it, answers it.
  pub bind_proof-IsAnswered :
      (session_id : String) (challenge : Bytes) (credentials : List Bytes)
      (e s s' s'' : AccessEngine p) (offer proof : VerifiedEnvelope)
      → s.chaser ≡ e.chaser
      → s.station ≡ e.station
      → s.station_peer_trust ≡ e.station_peer_trust
      → send_offer p session_id now e ≡ (ok (challenge, offer), s')
      → send_proof p session_id challenge credentials now s ≡ (ok proof, s'')
      → bind_proof offer proof ≡ ok tt
      → IsAnswered session_id credentials e.chaser e.station e.chaser_peer_trust
          e.station_peer_trust e.random_source offer proof
  unfolding bind_proof
  bind_proof-IsAnswered session_id challenge credentials e s s' s'' offer proof chaser station trust
        sent_offer sent_proof bound =
      let (fresh, offered) = send_offer-IsSent session_id challenge e s' offer sent_offer in
      let proved = send_proof-IsSent session_id challenge credentials s s'' proof sent_proof in
      let agreed = bail_if-eq-ok _ _ bound in
      record {
        challenge = challenge;
        call = e.fills;
        fresh = fresh;
        offered = offered;
        proved =
            subst
              (λ (k : IdentityKey p).
                IsSent session_proof session_id challenge credentials k e.station_peer_trust
                  e.station.key_id proof)
              chaser
              (subst
                (λ (t : TrustStore p).
                  IsSent session_proof session_id challenge credentials s.chaser t e.station.key_id
                    proof)
                trust
                (subst
                  (λ (k : IdentityKey p).
                    IsSent session_proof session_id challenge credentials s.chaser
                      s.station_peer_trust k.key_id proof)
                  station proved));
        same_session = ground (arith, agreed);
        same_challenge = ground (arith, agreed);
      }
