-- ===== src/Protocol/Credential.antt =====
-- rust/access_core/src/protocol.rs: `issue_credential` and `verify_credential`.
pub mod Laws
use access.Common.{Bool, true, false, ◌||◌, Option, none, some, List, String, Bytes, ◌!=◌}
use access.Common.Tests.{string_eq}
use access.Common.Int.{ℤ, ltb_ℤ}
use access.Common.Result.{Result, ok, err, ◌>>=◌, ◌>>◌, ok_or, bail_if}
use access.Platform.{Platform}
use access.Protocol.Claims.{
  CredentialClaims, ProtocolError, invalid_claims, issuer_mismatch, subject_mismatch,
  credential_expired,
}
use access.Protocol.Identity.{IdentityKey, TrustStore}
use access.Protocol.Cose.{sign_payload, verify_signed_payload}
use access.Utf8.{as_bytes}

-- The associated data of credentials.
abbrev pub credential_aad : Bytes
credential_aad = as_bytes "access-credential-v1"

module _ (p : Platform) where
  unfoldable pub issue_credential : CredentialClaims → IdentityKey p → Result ProtocolError Bytes
  issue_credential claims issuer = do
    bail_if (claims.issuer != issuer.key_id) issuer_mismatch
    payload ← ok_or (p.credential_to_cbor claims) invalid_claims
    sign_payload p payload issuer credential_aad

  unfoldable pub verify_credential :
      Bytes → TrustStore p → String → ℤ → Result ProtocolError CredentialClaims
  verify_credential encoded trust_store expected_subject now_s = do
    (signer, payload) ← verify_signed_payload p encoded trust_store credential_aad
    claims ← ok_or (p.credential_from_cbor payload) invalid_claims
    bail_if (claims.issuer != signer) issuer_mismatch
    bail_if (claims.subject != expected_subject) subject_mismatch
    bail_if (ltb_ℤ now_s claims.issued_at_s || ltb_ℤ claims.expires_at_s now_s) credential_expired
    ok claims
