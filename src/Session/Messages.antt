-- ===== src/Session/Messages.antt =====
-- rust/access_core/src/session.rs: the signed messages that the two peers exchange. Establishing a
-- session and requesting a transition both begin with an offer and a proof.
pub mod Keeps
pub mod Sent
use access.Common.{
  ℕ, Bool, true, false, ◌||◌, Option, none, some, List, [], String, Bytes, ◌!=◌, is_empty,
}
use access.Common.Tests.{string_eq, bytes_eq, option_eq}
use access.Common.Int.{ℤ}
use access.Common.Result.{Result, ok, err, bail_if}
use access.Common.Exec.{Exec, pure, lift, gets, modify, ◌>>=◌, ◌>>◌}
use access.Platform.{Platform}
use access.Protocol.Claims.{
  MessageType, access_request, session_offer, session_proof, ProtocolClaims, ProtocolError,
}
use access.Protocol.Identity.{IdentityKey, TrustStore}
use access.Protocol.Envelope.{VerifiedEnvelope, sign_envelope, verify_envelope}
use access.Session.Outcomes.{SessionError, session_binding, max_clock_skew_s}
use access.Session.Engine.{
  AccessEngine, Cache, Method, random_nonce, on_station_replay, on_chaser_replay,
}

-- The struct literals of the three handshake messages: all that concerns a grant is `None`.
unfoldable pub handshake_claims :
    MessageType
    → String
    → String
    → ℤ
    → Bytes
    → Option String
    → Option Bytes
    → List Bytes
    → ProtocolClaims
handshake_claims message_type issuer recipient now_s nonce session_id challenge credentials =
    record {
      message_type = message_type;
      issuer = issuer;
      recipient = recipient;
      issued_at_s = now_s;
      nonce = nonce;
      session_id = session_id;
      authorized_stage = none;
      challenge_nonce = challenge;
      credentials = credentials;
      grant_id = none;
      expires_at_s = none;
      protocol_profile_id = none;
      protocol_profile_version = none;
      rule_id = none;
      authorization_policy_bundle_id = none;
      authorization_policy_bundle_version = none;
      authorization_policy_sha256 = none;
    }

-- The check that a proof answers the offer, before any credential is read.
unfoldable pub bind_proof : VerifiedEnvelope → VerifiedEnvelope → Result SessionError (Unit {0})
bind_proof offer proof =
    bail_if
      (proof.claims.session_id != offer.claims.session_id
        || proof.claims.challenge_nonce != offer.claims.challenge_nonce)
      session_binding

module _ (p : Platform) where
  unfoldable pub exchange :
      ProtocolClaims
      → IdentityKey p
      → TrustStore p
      → String
      → ℤ
      → Exec ProtocolError (Cache p) VerifiedEnvelope
  exchange claims signer trust recipient now_s = do
    encoded ← lift (sign_envelope p claims signer)
    verify_envelope p p.backend encoded trust recipient now_s max_clock_skew_s

  -- ACCESS_REQUEST, from the chaser to the station
  unfoldable pub send_request : ℤ → Method p VerifiedEnvelope
  unfolding handshake_claims
  send_request now_s = do
    self ← gets (λ e. e)
    nonce ← random_nonce p
    on_station_replay p (
        exchange
          (handshake_claims access_request self.chaser.key_id self.station.key_id now_s nonce none
            none [])
          self.chaser self.station_peer_trust self.station.key_id now_s)

  -- SESSION_OFFER, from the station to the chaser, with a fresh challenge
  unfoldable pub send_offer : String → ℤ → Method p (Bytes × VerifiedEnvelope)
  unfolding handshake_claims
  send_offer session_id now_s = do
    self ← gets (λ e. e)
    challenge ← random_nonce p
    nonce ← random_nonce p
    offer ← on_chaser_replay p (
        exchange
          (handshake_claims session_offer self.station.key_id self.chaser.key_id now_s nonce
            (some session_id) (some challenge) [])
          self.station self.chaser_peer_trust self.chaser.key_id now_s)
    pure (challenge, offer)

  -- SESSION_PROOF, from the chaser to the station, over the challenge
  unfoldable pub send_proof : String → Bytes → List Bytes → ℤ → Method p VerifiedEnvelope
  unfolding handshake_claims
  send_proof session_id challenge credentials now_s = do
    self ← gets (λ e. e)
    nonce ← random_nonce p
    on_station_replay p (
        exchange
          (handshake_claims session_proof self.chaser.key_id self.station.key_id now_s nonce
            (some session_id) (some challenge) credentials)
          self.chaser self.station_peer_trust self.station.key_id now_s)
