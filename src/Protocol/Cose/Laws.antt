-- ===== src/Protocol/Cose/Laws.antt =====
-- What an accepted signature establishes, and that a signature made is accepted.
use access.Common.{◌≡◌, ap, ◌∙◌, ◌↔◌, Bool, true, false, not, some, String, Bytes, get, arith}
use access.Common.Tests.{string_eq}
use access.Common.Result.{
  ok, ok_or, bail_if, map_err, >>=-eq-ok, ok_or-eq-ok, bail_if-eq-ok, map_err-eq-ok,
}
use access.Platform.{Platform}
use access.Platform.Laws.{CoseLaws}
use access.Protocol.Claims.{signing_failed}
use access.Protocol.Identity.{IdentityKey, TrustStore, Verifies, IsSound}
use access.Protocol.Cose.{sign_payload, accepts, verify_signed_payload}
use access.Utf8.{as_bytes, from_utf8}
use access.Utf8.Laws.{from_utf8-as_bytes}

module _ (p : Platform) where
  -- An envelope that parses, names an EdDSA key that the store trusts, and carries that key's
  -- signature over its protected header, its payload and the domain's associated data.
  pub record IsAuthentic (encoded : Bytes) (trust : TrustStore p) (aad : Bytes) (signer : String)
      (payload : Bytes) : Type 0 where
    pub message : p.CoseSign1
    pub parsed : p.from_tagged_slice encoded ≡ some message
    pub eddsa : p.alg_is_eddsa message ≡ true
    pub named : from_utf8 (p.key_id message) ≡ some signer
    pub key : p.VerifyingKey
    pub trusted : get trust signer ≡ some key
    pub verified : accepts p key (p.tbs_data message aad) (p.signature message) ≡ true
    pub carried : p.payload message ≡ some payload

  not-eq-false : (b : Bool) → not b ≡ false → b ≡ true
  not-eq-false b h = ground arith

  module _ (encoded : Bytes) (trust : TrustStore p) (aad : Bytes) (signer : String)
      (payload : Bytes) where
    verify_signed_payload-IsAuthentic :
        verify_signed_payload p encoded trust aad ≡ ok (signer, payload)
        → IsAuthentic encoded trust aad signer payload
    unfolding verify_signed_payload
    verify_signed_payload-IsAuthentic h =
        let (message, parsed, h1) = >>=-eq-ok (ok_or (p.from_tagged_slice encoded) _) _ h in
        let (_, algorithm, h2) = >>=-eq-ok (bail_if (not (p.alg_is_eddsa message)) _) _ h1 in
        let (name, named, h3) = >>=-eq-ok (ok_or (from_utf8 (p.key_id message)) _) _ h2 in
        let (key, trusted, h4) = >>=-eq-ok (ok_or (get trust name) _) _ h3 in
        let (_, verified, h5) =
          >>=-eq-ok (bail_if (not (accepts p key (p.tbs_data message aad) (p.signature message))) _)
            _ h4 in
        let (body, carried, h6) = >>=-eq-ok (ok_or (p.payload message) _) _ h5 in
        record {
          message = message;
          parsed = ok_or-eq-ok _ _ parsed;
          eddsa = not-eq-false _ (bail_if-eq-ok _ _ algorithm);
          named = ok_or-eq-ok _ _ named ∙ ground arith;
          key = key;
          trusted = ground (arith, ok_or-eq-ok _ _ trusted);
          verified = not-eq-false _ (bail_if-eq-ok _ _ verified);
          carried = ok_or-eq-ok _ _ carried ∙ ground arith;
        }

    IsAuthentic-verify_signed_payload :
        IsAuthentic encoded trust aad signer payload
        → verify_signed_payload p encoded trust aad ≡ ok (signer, payload)
    unfolding verify_signed_payload
    IsAuthentic-verify_signed_payload v =
        rw (v.parsed, v.eddsa, v.named, v.trusted, v.verified, v.carried)

    -- A signed payload is accepted exactly when it is authentic under the trust store and the
    -- associated data; the signer is the key identifier of the protected header.
    pub verify_signed_payload_iff :
        (verify_signed_payload p encoded trust aad ≡ ok (signer, payload))
        ↔ IsAuthentic encoded trust aad signer payload
    verify_signed_payload_iff =
        (verify_signed_payload-IsAuthentic, IsAuthentic-verify_signed_payload)

  module _ (L : CoseLaws p) (identity : IdentityKey p) (sound : IsSound p identity) where
    accepts_of_Verifies :
        (key : p.VerifyingKey) (message bytes : Bytes)
        → Verifies p key message bytes
        → accepts p key message bytes ≡ true
    unfolding accepts
    accepts_of_Verifies key message bytes (s, parsed, good) = rw (parsed, accepts) good

    -- What an identity signs is authentic to everyone who trusts its key under its identifier.
    pub sign_payload-IsAuthentic :
        (payload aad encoded : Bytes) (trust : TrustStore p)
        → get trust identity.key_id ≡ some identity.verifying_key
        → sign_payload p payload identity aad ≡ ok encoded
        → IsAuthentic encoded trust aad identity.key_id payload
    unfolding sign_payload
    sign_payload-IsAuthentic payload aad encoded trust trusted h =
        let kid = as_bytes identity.key_id in
        let tbs = p.to_be_signed kid payload aad in
        let (signature, signed, h1) =
          >>=-eq-ok (map_err signing_failed (identity.signer tbs)) _ h in
        let message = p.build kid payload signature in
        record {
          message = message;
          parsed = L.from_tagged_slice-to_tagged_vec message encoded (ok_or-eq-ok _ _ h1);
          eddsa = L.alg-build kid payload signature;
          named = ap from_utf8 (L.key_id-build kid payload signature) ∙ from_utf8-as_bytes _;
          key = identity.verifying_key;
          trusted = trusted;
          verified =
              rw
                (
                  L.tbs_data-build kid payload signature aad,
                  L.signature-build kid payload signature,
                )
                (accepts_of_Verifies _ _ _ (sound tbs signature (map_err-eq-ok _ _ signed)));
          carried = L.payload-build kid payload signature;
        }
