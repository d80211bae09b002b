-- ===== src/Protocol/Envelope/RoundTrip.antt =====
-- A message that an identity signs is accepted by its recipient.
use access.Common.{
  ◌≤◌, ◌≡◌, refl, false, none, some, List, ◌∷◌, Bytes, length, contains, ◌!=◌, get, arith,
}
use access.Common.Tests.{string_eq, bytes_eq}
use access.Common.Int.{ℤ, abs_diff, unsigned_abs}
use access.Common.Result.{ok, ok_or, bail_if, >>=-eq-ok, ok_or-eq-ok}
use access.Platform.{Platform}
use access.Platform.Laws.{CoseLaws, CborLaws}
use access.Protocol.Claims.{ProtocolClaims, min_nonce_bytes}
use access.Protocol.Identity.{IdentityKey, TrustStore, IsSound}
use access.Protocol.Cose.Laws.{sign_payload-IsAuthentic}
use access.Protocol.Replay.{ReplayStateBackend, consume}
use access.Protocol.Envelope.{envelope_aad, sign_envelope, verify_envelope}
use access.Protocol.Envelope.Accepted.{IsChecked, check_envelope_iff}

module _ (p : Platform) (L : CoseLaws p) (C : CborLaws p) (identity : IdentityKey p)
    (sound : IsSound p identity) (claims : ProtocolClaims) (encoded : Bytes) where
  pub sign_envelope-IsChecked :
      (trust : TrustStore p) (now skew : ℤ)
      → sign_envelope p claims identity ≡ ok encoded
      → get trust identity.key_id ≡ some identity.verifying_key
      → abs_diff now claims.issued_at_s ≤ unsigned_abs skew
      → min_nonce_bytes ≤ length claims.nonce
      → IsChecked p encoded trust claims.recipient now skew
          (record { signer = identity.key_id; claims = claims })
  unfolding sign_envelope
  sign_envelope-IsChecked trust now skew h trusted fresh strong =
      let (_, issuer, h1) = >>=-eq-ok (bail_if (claims.issuer != identity.key_id) _) _ h in
      let (payload, written, h2) = >>=-eq-ok (ok_or (p.claims_to_cbor claims) _) _ h1 in
      record {
        payload = payload;
        authentic =
            sign_payload-IsAuthentic p L identity sound payload envelope_aad encoded trust trusted
              h2;
        decoded = C.claims_round_trip claims payload (ok_or-eq-ok _ _ written);
        issued_by = ground arith;
        addressed = refl;
        fresh = fresh;
        strong = strong;
      }

  -- A message signed by an identity is accepted, with the claims that were signed, by a recipient
  -- who trusts the identity's key, while the clock window holds and the nonce is long enough and
  -- unused; a memory-only cache then holds the nonce.
  pub sign_verify_round_trip :
      {S : Type 0} (B : ReplayStateBackend S) (trust : TrustStore p) (now skew : ℤ)
      (used : List Bytes)
      → sign_envelope p claims identity ≡ ok encoded
      → get trust identity.key_id ≡ some identity.verifying_key
      → abs_diff now claims.issued_at_s ≤ unsigned_abs skew
      → min_nonce_bytes ≤ length claims.nonce
      → contains used claims.nonce ≡ false
      → verify_envelope p B encoded trust claims.recipient now skew
          (record { consumed = used; backend = none })
        ≡ (
          ok (record { signer = identity.key_id; claims = claims }),
          record { consumed = claims.nonce ∷ used; backend = none },
        )
  unfolding verify_envelope consume
  sign_verify_round_trip B trust now skew used h trusted fresh strong unused =
      let checked = sign_envelope-IsChecked trust now skew h trusted fresh strong in
      rw ((check_envelope_iff p encoded trust claims.recipient now skew _).1 checked, unused)
