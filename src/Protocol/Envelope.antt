-- ===== src/Protocol/Envelope.antt =====
-- rust/access_core/src/protocol.rs: `sign_envelope` and `verify_envelope`.
pub mod Accepted
pub mod RoundTrip
pub mod Keeps
use access.Common.{ℕ, Bool, true, false, Option, none, some, List, String, Bytes, ltb, length, ◌!=◌}
use access.Common.Tests.{string_eq}
use access.Common.Int.{ℤ, abs_diff, unsigned_abs}
use access.Common.Result.{Result, ok, err, ◌>>=◌, ◌>>◌, ok_or, bail_if}
use access.Common.Exec
use access.Platform.{Platform}
use access.Protocol.Claims.{
  ProtocolClaims, ProtocolError, invalid_claims, issuer_mismatch, recipient_mismatch, stale,
  weak_nonce, min_nonce_bytes,
}
use access.Protocol.Identity.{IdentityKey, TrustStore}
use access.Protocol.Cose.{sign_payload, verify_signed_payload}
use access.Protocol.Replay.{ReplayStateBackend, ReplayCache, consume}
use access.Utf8.{as_bytes}

pub record VerifiedEnvelope : Type 0 where
  pub signer : String
  pub claims : ProtocolClaims

-- The associated data of messages.
abbrev pub envelope_aad : Bytes
envelope_aad = as_bytes "docking-identity-v1"

module _ (p : Platform) where
  unfoldable pub sign_envelope : ProtocolClaims → IdentityKey p → Result ProtocolError Bytes
  sign_envelope claims identity = do
    bail_if (claims.issuer != identity.key_id) issuer_mismatch
    payload ← ok_or (p.claims_to_cbor claims) invalid_claims
    sign_payload p payload identity envelope_aad

  -- `verify_envelope` up to its use of the replay cache.
  unfoldable pub check_envelope :
      Bytes → TrustStore p → String → ℤ → ℤ → Result ProtocolError VerifiedEnvelope
  check_envelope encoded trust_store expected_recipient now_s max_clock_skew_s = do
    (signer, payload) ← verify_signed_payload p encoded trust_store envelope_aad
    claims ← ok_or (p.claims_from_cbor payload) invalid_claims
    bail_if (claims.issuer != signer) issuer_mismatch
    bail_if (claims.recipient != expected_recipient) recipient_mismatch
    bail_if (ltb (unsigned_abs max_clock_skew_s) (abs_diff now_s claims.issued_at_s)) stale
    bail_if (ltb (length claims.nonce) min_nonce_bytes) weak_nonce
    ok (record { signer = signer; claims = claims })

  module _ {S : Type 0} (B : ReplayStateBackend S) where
    -- `replay_cache.consume(&claims.nonce)?`, and the result
    unfoldable pub consume_nonce :
        VerifiedEnvelope → Exec.Exec ProtocolError (ReplayCache S) VerifiedEnvelope
    unfolding Exec.◌>>=◌
    consume_nonce envelope = Exec.◌>>=◌ (consume B envelope.claims.nonce) λ _. Exec.pure envelope

    unfoldable pub verify_envelope :
        Bytes
        → TrustStore p
        → String
        → ℤ
        → ℤ
        → Exec.Exec ProtocolError (ReplayCache S) VerifiedEnvelope
    unfolding consume_nonce Exec.◌>>=◌
    verify_envelope encoded trust_store expected_recipient now_s max_clock_skew_s =
        Exec.◌>>=◌
          (Exec.lift (check_envelope encoded trust_store expected_recipient now_s max_clock_skew_s))
          consume_nonce
