-- ===== src/Protocol/Credential/Laws.antt =====
-- What an accepted credential establishes, and that an issued one is accepted while it is valid.
use access.Common.{◌≡◌, refl, ◌↔◌, ◌||◌, some, String, Bytes, ◌!=◌, get, arith}
use access.Common.Tests.{string_eq}
use access.Common.Int.{ℤ, ltb_ℤ, ◌≤ℤ◌}
use access.Common.Result.{ok, ok_or, bail_if, >>=-eq-ok, ok_or-eq-ok}
use access.Platform.{Platform}
use access.Platform.Laws.{CoseLaws, CborLaws}
use access.Protocol.Claims.{CredentialClaims}
use access.Protocol.Identity.{IdentityKey, TrustStore, IsSound}
use access.Protocol.Cose.{verify_signed_payload}
use access.Protocol.Cose.Laws.{IsAuthentic, verify_signed_payload_iff, sign_payload-IsAuthentic}
use access.Protocol.Credential.{credential_aad, issue_credential, verify_credential}

module _ (p : Platform) where
  -- An authentic credential of its named issuer, held by the subject, valid at the time.
  pub record IsValid (encoded : Bytes) (trust : TrustStore p) (subject : String) (now : ℤ)
      (claims : CredentialClaims) : Type 0 where
    pub payload : Bytes
    pub authentic : IsAuthentic p encoded trust credential_aad claims.issuer payload
    pub decoded : p.credential_from_cbor payload ≡ some claims
    pub held_by : claims.subject ≡ subject
    pub issued : claims.issued_at_s ≤ℤ now
    pub unexpired : now ≤ℤ claims.expires_at_s

  module _ (encoded : Bytes) (trust : TrustStore p) (subject : String) (now : ℤ)
      (claims : CredentialClaims) where
    verify_credential-IsValid :
        verify_credential p encoded trust subject now ≡ ok claims
        → IsValid encoded trust subject now claims
    unfolding verify_credential
    verify_credential-IsValid h =
        let ((signer, payload), signed, h1) =
          >>=-eq-ok (verify_signed_payload p encoded trust credential_aad) _ h in
        let (read, decoded, h2) = >>=-eq-ok (ok_or (p.credential_from_cbor payload) _) _ h1 in
        let (_, issuer, h3) = >>=-eq-ok (bail_if (read.issuer != signer) _) _ h2 in
        let (_, holder, h4) = >>=-eq-ok (bail_if (read.subject != subject) _) _ h3 in
        let (_, valid, h5) =
          >>=-eq-ok (bail_if (ltb_ℤ now read.issued_at_s || ltb_ℤ read.expires_at_s now) _) _ h4 in
        let same : read ≡ claims = ground arith in
        let named : signer ≡ read.issuer = ground arith in
        rw (← same) (record {
          payload = payload;
          authentic =
              rw (← named) (
                (verify_signed_payload_iff p encoded trust credential_aad signer payload).0 signed);
          decoded = ok_or-eq-ok _ _ decoded;
          held_by = ground arith;
          issued = ground arith;
          unexpired = ground arith;
        })

    IsValid-verify_credential :
        IsValid encoded trust subject now claims
        → verify_credential p encoded trust subject now ≡ ok claims
    unfolding verify_credential
    IsValid-verify_credential k =
        rw
          (
            (verify_signed_payload_iff p encoded trust credential_aad claims.issuer k.payload).1
                k.authentic,
            k.decoded,
          )
          (ground arith)

    -- A credential is accepted exactly when it is authentic under the trust store, signed by the
    -- issuer that it names, held by the expected subject, and not outside its validity interval.
    pub verify_credential_iff :
        (verify_credential p encoded trust subject now ≡ ok claims)
        ↔ IsValid encoded trust subject now claims
    verify_credential_iff = (verify_credential-IsValid, IsValid-verify_credential)

  -- A credential that a trusted issuer issues is accepted for its subject while it is valid.
  pub issue_verify_round_trip :
      (L : CoseLaws p) (C : CborLaws p) (issuer : IdentityKey p) (sound : IsSound p issuer)
      (claims : CredentialClaims) (encoded : Bytes) (trust : TrustStore p) (now : ℤ)
      → issue_credential p claims issuer ≡ ok encoded
      → get trust issuer.key_id ≡ some issuer.verifying_key
      → claims.issued_at_s ≤ℤ now
      → now ≤ℤ claims.expires_at_s
      → verify_credential p encoded trust claims.subject now ≡ ok claims
  unfolding issue_credential
  issue_verify_round_trip L C issuer sound claims encoded trust now h trusted issued unexpired =
      let (_, named, h1) = >>=-eq-ok (bail_if (claims.issuer != issuer.key_id) _) _ h in
      let (payload, written, h2) = >>=-eq-ok (ok_or (p.credential_to_cbor claims) _) _ h1 in
      let same : issuer.key_id ≡ claims.issuer = ground arith in
      IsValid-verify_credential encoded trust claims.subject now claims (record {
        payload = payload;
        authentic = rw (← same) (
            sign_payload-IsAuthentic p L issuer sound payload credential_aad encoded trust trusted
              h2);
        decoded = C.credential_round_trip claims payload (ok_or-eq-ok _ _ written);
        held_by = refl;
        issued = issued;
        unexpired = unexpired;
      })
