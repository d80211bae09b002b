-- ===== src/Protocol/Identity.antt =====
-- rust/access_core/src/protocol.rs: signing identities and trust stores.
use access.Common.{◌≡◌, true, some, List, String, Bytes, insert}
use access.Common.Tests.{string_eq}
use access.Common.Result.{Result, ok}
use access.Platform.{Platform}

module _ (p : Platform) where
  open p use {VerifyingKey, SigningKey, Signature}

  -- `signer` is the method of the `dyn PayloadSigner`.
  pub record IdentityKey : Type 0 where
    pub key_id : String
    pub verifying_key : VerifyingKey
    pub signer : Bytes → Result String Bytes

  -- `LocalPayloadSigner::sign`
  unfoldable pub local_payload_signer : SigningKey → Bytes → Result String Bytes
  local_payload_signer key payload = ok (p.sign key payload)

  -- `IdentityKey::from_seed`
  unfoldable pub from_seed : String → Bytes → IdentityKey
  unfolding local_payload_signer
  from_seed id seed =
      let signing_key = p.signing_key_from_bytes seed in
      record {
        key_id = id;
        verifying_key = p.verifying_key signing_key;
        signer = local_payload_signer signing_key;
      }

  -- `IdentityKey::from_signer`
  abbrev pub from_signer : String → VerifyingKey → (Bytes → Result String Bytes) → IdentityKey
  from_signer id key signer = record { key_id = id; verifying_key = key; signer = signer }

  -- `TrustStore`, a map from key identifiers
  abbrev pub TrustStore : Type 0
  TrustStore = List (String × VerifyingKey)

  -- `TrustStore::insert`
  abbrev pub trust_insert : TrustStore → String → VerifyingKey → TrustStore
  trust_insert store id key = insert store id key

  -- What the signer returns verifies under the key that stands beside it.
  abbrev pub Verifies : VerifyingKey → Bytes → Bytes → Type 0
  Verifies key message bytes =
      (s : Signature) × (p.signature_from_slice bytes ≡ some s)
      × (p.verify_strict key message s ≡ true)

  abbrev pub IsSound : IdentityKey → Type 0
  IsSound identity =
      (message bytes : Bytes)
      → identity.signer message ≡ ok bytes
      → Verifies identity.verifying_key message bytes
