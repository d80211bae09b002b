-- ===== src/Protocol/Cose/Carries.antt =====
-- What was signed is what is read.
use mathlib.Core.Option.{some-injective}
use access.Common.{◌≡◌, sym, ap, ◌∙◌, String, Bytes, ◌!=◌}
use access.Common.Tests.{string_eq}
use access.Common.Int.{ℤ}
use access.Common.Result.{ok, map_err, ok_or-eq-ok, try-then, bail_if-then, ok_or-then}
use access.Platform.{Platform}
use access.Platform.Laws.{CoseLaws, CborLaws}
use access.Protocol.Claims.{ProtocolClaims, CredentialClaims, signing_failed}
use access.Protocol.Identity.{IdentityKey, TrustStore}
use access.Protocol.Cose.{sign_payload}
use access.Protocol.Cose.Laws.{IsAuthentic}
use access.Protocol.Credential.{issue_credential, credential_aad}
use access.Protocol.Credential.Laws.{IsValid}
use access.Protocol.Envelope.{VerifiedEnvelope, sign_envelope, envelope_aad}
use access.Protocol.Envelope.Accepted.{IsChecked}
use access.Utf8.{as_bytes}

module _ (p : Platform) (L : CoseLaws p) (identity : IdentityKey p) {encoded : Bytes}
    {trust : TrustStore p} where
  sign_payload-payload :
      (payload aad : Bytes) {aad' payload' : Bytes} {signer : String}
      → sign_payload p payload identity aad ≡ ok encoded
      → IsAuthentic p encoded trust aad' signer payload'
      → payload ≡ payload'
  unfolding sign_payload
  sign_payload-payload payload aad h k =
      let kid = as_bytes identity.key_id in
      try-then (map_err signing_failed (identity.signer (p.to_be_signed kid payload aad))) _ h
        λ signature _ h1.
          let message = p.build kid payload signature in
          let parsed = L.from_tagged_slice-to_tagged_vec message encoded (ok_or-eq-ok _ _ h1) in
          let same = some-injective _ _ (sym parsed ∙ k.parsed) in
          some-injective _ _
            (sym (L.payload-build kid payload signature) ∙ ap p.payload same ∙ k.carried)

  module _ (C : CborLaws p) where
    -- The claims that are read from a message are those that were signed.
    pub sign_envelope-claims :
        (claims : ProtocolClaims) {recipient : String} {now skew : ℤ} {v : VerifiedEnvelope}
        → sign_envelope p claims identity ≡ ok encoded
        → IsChecked p encoded trust recipient now skew v
        → claims ≡ v.claims
    unfolding sign_envelope
    sign_envelope-claims claims h k = bail_if-then (claims.issuer != identity.key_id) _ _ h λ _ h1.
        ok_or-then (p.claims_to_cbor claims) _ _ h1 λ payload written h2.
          let same = sign_payload-payload payload envelope_aad h2 k.authentic in
          some-injective _ _ (
            sym (C.claims_round_trip claims payload written)
            ∙ ap p.claims_from_cbor same
            ∙ k.decoded)

    pub issue_credential-claims :
        (claims : CredentialClaims) {subject : String} {now : ℤ} {read : CredentialClaims}
        → issue_credential p claims identity ≡ ok encoded
        → IsValid p encoded trust subject now read
        → claims ≡ read
    unfolding issue_credential
    issue_credential-claims claims h k =
        bail_if-then (claims.issuer != identity.key_id) _ _ h λ _ h1.
          ok_or-then (p.credential_to_cbor claims) _ _ h1 λ payload written h2.
            let same = sign_payload-payload payload credential_aad h2 k.authentic in
            some-injective _ _ (
              sym (C.credential_round_trip claims payload written)
              ∙ ap p.credential_from_cbor same
              ∙ k.decoded)
