-- ===== src/Protocol/Cose.antt =====
-- rust/access_core/src/protocol.rs: `sign_payload` and `verify_signed_payload`.
pub mod Laws
pub mod Carries
use access.Common.{Bool, true, false, not, Option, none, some, List, String, Bytes, get}
use access.Common.Tests.{string_eq}
use access.Common.Result.{Result, ok, err, ◌>>=◌, ◌>>◌, ok_or, bail_if, map_err}
use access.Platform.{Platform}
use access.Protocol.Claims.{
  ProtocolError, invalid_envelope, invalid_algorithm, untrusted_signer, invalid_signature,
  invalid_claims, signing_failed,
}
use access.Protocol.Identity.{IdentityKey, TrustStore}
use access.Utf8.{as_bytes, from_utf8}

module _ (p : Platform) where
  unfoldable pub sign_payload : Bytes → IdentityKey p → Bytes → Result ProtocolError Bytes
  sign_payload payload identity external_aad = do
    let key_id = as_bytes identity.key_id
    signature ←
        map_err signing_failed (identity.signer (p.to_be_signed key_id payload external_aad))
    ok_or (p.to_tagged_vec (p.build key_id payload signature)) invalid_envelope

  -- The closure that `verify_signature` is given.
  unfoldable pub accepts : p.VerifyingKey → Bytes → Bytes → Bool
  accepts key to_be_signed bytes = elim (p.signature_from_slice bytes) [
    | none ↦ false
    | some signature ↦ p.verify_strict key to_be_signed signature
  ]

  unfoldable pub verify_signed_payload :
      Bytes → TrustStore p → Bytes → Result ProtocolError (String × Bytes)
  verify_signed_payload encoded trust_store external_aad = do
    message ← ok_or (p.from_tagged_slice encoded) invalid_envelope
    bail_if (not (p.alg_is_eddsa message)) invalid_algorithm
    signer ← ok_or (from_utf8 (p.key_id message)) untrusted_signer
    key ← ok_or (get trust_store signer) untrusted_signer
    bail_if (not (accepts key (p.tbs_data message external_aad) (p.signature message)))
        invalid_signature
    payload ← ok_or (p.payload message) invalid_claims
    ok (signer, payload)
