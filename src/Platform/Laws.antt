-- ===== src/Platform/Laws.antt =====
-- Documented behaviour of the crates, each taken as a hypothesis where it is needed.
use access.Common.{ℕ, ◌<◌, ◌≡◌, true, some, Bytes, All, length}
use access.Protocol.Claims.{ProtocolClaims, CredentialClaims}
use access.Platform.{Platform}

abbrev pub IsOctets : Bytes → Type 0
IsOctets bs = All (λ b. b < 256) bs

-- coset: a built message has the parts that it was built of, and is read back from its tagged bytes.
pub record CoseLaws (p : Platform) : Type 0 where
  pub alg-build : (k b s : Bytes) → p.alg_is_eddsa (p.build k b s) ≡ true
  pub key_id-build : (k b s : Bytes) → p.key_id (p.build k b s) ≡ k
  pub payload-build : (k b s : Bytes) → p.payload (p.build k b s) ≡ some b
  pub signature-build : (k b s : Bytes) → p.signature (p.build k b s) ≡ s
  pub tbs_data-build : (k b s aad : Bytes) → p.tbs_data (p.build k b s) aad ≡ p.to_be_signed k b aad
  pub from_tagged_slice-to_tagged_vec :
      (m : p.CoseSign1) (bs : Bytes) → p.to_tagged_vec m ≡ some bs → p.from_tagged_slice bs ≡ some m

-- ciborium: what was written is read back.
pub record CborLaws (p : Platform) : Type 0 where
  pub claims_round_trip :
      (c : ProtocolClaims) (bs : Bytes)
      → p.claims_to_cbor c ≡ some bs
      → p.claims_from_cbor bs ≡ some c
  pub credential_round_trip :
      (c : CredentialClaims) (bs : Bytes)
      → p.credential_to_cbor c ≡ some bs
      → p.credential_from_cbor bs ≡ some c

-- hex: the text of a byte string decodes to it.
pub record HexLaws (p : Platform) : Type 0 where
  pub hex_decode-hex_encode : (bs : Bytes) → IsOctets bs → p.hex_decode (p.hex_encode bs) ≡ some bs

-- `fill` writes into the slice that it is given, and cannot change its length.
pub record FillLaws (p : Platform) : Type 0 where
  pub length-fill :
      (r : p.RandomSource) (k : ℕ) (buffer filled : Bytes)
      → p.fill r k buffer ≡ some filled
      → length filled ≡ length buffer
