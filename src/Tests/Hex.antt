-- ===== src/Tests/Hex.antt =====
-- The platform of the tests with the hexadecimal texts of the crate `hex`.
use Prim.Native.Char.{Char, code}
use mathlib.Core.Option.{some-injective}
use access.Common.{
  ℕ, zero, suc, ◌+◌, ◌-◌, ◌*◌, ◌/◌, ◌%◌, ◌<◌, ◌≡◌, refl, sym, ap, ◌∙◌, subst, inl, inr, Bool-cases,
  Bool, length, replicate, true, false, Option, none, some, List, [], ◌∷◌, String, Bytes, ltb,
  if◌then◌else◌, arith,
}
use access.Common.Text.Trim.{is_hex_digit, IsHexText}
use access.Platform.{Platform}
use access.Platform.Laws.{CoseLaws, CborLaws, HexLaws, FillLaws, IsOctets}
use access.Protocol.Claims.{ProtocolClaims, CredentialClaims}
use access.Services.Signer.Signs.{HexDigits}
use access.Tests.{platform, write_message, platform-CoseLaws, platform-CborLaws}

abbrev digit : ℕ → Char
digit zero = "0"
digit (suc zero) = "1"
digit (suc (suc zero)) = "2"
digit (suc (suc (suc zero))) = "3"
digit (suc (suc (suc (suc zero)))) = "4"
digit (suc (suc (suc (suc (suc zero))))) = "5"
digit (suc (suc (suc (suc (suc (suc zero)))))) = "6"
digit (suc (suc (suc (suc (suc (suc (suc zero))))))) = "7"
digit (suc (suc (suc (suc (suc (suc (suc (suc zero)))))))) = "8"
digit (suc (suc (suc (suc (suc (suc (suc (suc (suc zero))))))))) = "9"
digit (suc (suc (suc (suc (suc (suc (suc (suc (suc (suc zero)))))))))) = "a"
digit (suc (suc (suc (suc (suc (suc (suc (suc (suc (suc (suc zero))))))))))) = "b"
digit (suc (suc (suc (suc (suc (suc (suc (suc (suc (suc (suc (suc zero)))))))))))) = "c"
digit (suc (suc (suc (suc (suc (suc (suc (suc (suc (suc (suc (suc (suc zero))))))))))))) = "d"
digit (suc (suc (suc (suc (suc (suc (suc (suc (suc (suc (suc (suc (suc (suc zero)))))))))))))) = "e"
digit (suc (suc (suc (suc (suc (suc (suc (suc (suc (suc (suc (suc (suc (suc (suc n))))))))))))))) =
    "f"

abbrev value : ℕ → ℕ
value c = if ltb c 58 then c - 48 else c - 87

digit-hex : (d : ℕ) → is_hex_digit (code (digit d)) ≡ true
digit-hex zero = refl
digit-hex (suc zero) = refl
digit-hex (suc (suc zero)) = refl
digit-hex (suc (suc (suc zero))) = refl
digit-hex (suc (suc (suc (suc zero)))) = refl
digit-hex (suc (suc (suc (suc (suc zero))))) = refl
digit-hex (suc (suc (suc (suc (suc (suc zero)))))) = refl
digit-hex (suc (suc (suc (suc (suc (suc (suc zero))))))) = refl
digit-hex (suc (suc (suc (suc (suc (suc (suc (suc zero)))))))) = refl
digit-hex (suc (suc (suc (suc (suc (suc (suc (suc (suc zero))))))))) = refl
digit-hex (suc (suc (suc (suc (suc (suc (suc (suc (suc (suc zero)))))))))) = refl
digit-hex (suc (suc (suc (suc (suc (suc (suc (suc (suc (suc (suc zero))))))))))) = refl
digit-hex (suc (suc (suc (suc (suc (suc (suc (suc (suc (suc (suc (suc zero)))))))))))) = refl
digit-hex (suc (suc (suc (suc (suc (suc (suc (suc (suc (suc (suc (suc (suc zero))))))))))))) = refl
digit-hex (suc (suc (suc (suc (suc (suc (suc (suc (suc (suc (suc (suc (suc (suc zero)))))))))))))) =
    refl
digit-hex
      (suc (suc (suc (suc (suc (suc (suc (suc (suc (suc (suc (suc (suc (suc (suc n))))))))))))))) =
    refl

value-digit : (d : ℕ) → d < 16 → value (code (digit d)) ≡ d
value-digit zero h = refl
value-digit (suc zero) h = refl
value-digit (suc (suc zero)) h = refl
value-digit (suc (suc (suc zero))) h = refl
value-digit (suc (suc (suc (suc zero)))) h = refl
value-digit (suc (suc (suc (suc (suc zero))))) h = refl
value-digit (suc (suc (suc (suc (suc (suc zero)))))) h = refl
value-digit (suc (suc (suc (suc (suc (suc (suc zero))))))) h = refl
value-digit (suc (suc (suc (suc (suc (suc (suc (suc zero)))))))) h = refl
value-digit (suc (suc (suc (suc (suc (suc (suc (suc (suc zero))))))))) h = refl
value-digit (suc (suc (suc (suc (suc (suc (suc (suc (suc (suc zero)))))))))) h = refl
value-digit (suc (suc (suc (suc (suc (suc (suc (suc (suc (suc (suc zero))))))))))) h = refl
value-digit (suc (suc (suc (suc (suc (suc (suc (suc (suc (suc (suc (suc zero)))))))))))) h = refl
value-digit (suc (suc (suc (suc (suc (suc (suc (suc (suc (suc (suc (suc (suc zero))))))))))))) h =
    refl
value-digit (suc (suc (suc (suc (suc (suc (suc (suc (suc (suc (suc (suc (suc (suc zero))))))))))))))
      h =
    refl
value-digit
      (suc (suc (suc (suc (suc (suc (suc (suc (suc (suc (suc (suc (suc (suc (suc zero)))))))))))))))
      h =
    refl
value-digit
      (suc
        (suc (suc (suc (suc (suc (suc (suc (suc (suc (suc (suc (suc (suc (suc (suc n))))))))))))))))
      h =
    absurd (omega (arith, h))

-- Two digits a byte, the high one first.
unfoldable pub encode : Bytes → String
encode [] = ""
encode (b ∷ bs) = String.◌∷◌ (digit (b / 16)) (String.◌∷◌ (digit (b % 16)) (encode bs))

abbrev prepend : ℕ → Option Bytes → Option Bytes
prepend b none = none
prepend b (some bs) = some (b ∷ bs)

unfoldable pub decode : String → Option Bytes
decode String.[] = some []
decode (String.◌∷◌ c String.[]) = none
decode (String.◌∷◌ c (String.◌∷◌ d s)) = prepend (value (code c) * 16 + value (code d)) (decode s)

encode-IsHexText : (bs : Bytes) → IsHexText (encode bs)
unfolding encode
encode-IsHexText [] = tt
encode-IsHexText (b ∷ bs) = (digit-hex (b / 16), (digit-hex (b % 16), encode-IsHexText bs))

decode-encode : (bs : Bytes) → IsOctets bs → decode (encode bs) ≡ some bs
unfolding encode decode
decode-encode [] h = refl
decode-encode (b ∷ bs) (small, rest) =
    rw
      (
        value-digit (b / 16) (omega (arith, small)),
        value-digit (b % 16) (omega arith),
        decode-encode bs rest,
      )
      (ap (λ x. some (x ∷ bs)) (omega arith))

-- A byte string of which every element is a byte.
abbrev octets : Bytes → Option Bytes
octets [] = some []
octets (b ∷ bs) = if ltb b 256 then prepend b (octets bs) else none

prepend-IsOctets :
    (b : ℕ) (o : Option Bytes) (bytes : Bytes)
    → b < 256
    → ((bs : Bytes) → o ≡ some bs → IsOctets bs)
    → prepend b o ≡ some bytes
    → IsOctets bytes
prepend-IsOctets b none bytes small rest h = cc
prepend-IsOctets b (some bs) bytes small rest h =
    subst (λ x. IsOctets x) (some-injective _ _ h) (small, rest bs refl)

octets-IsOctets : (bs bytes : Bytes) → octets bs ≡ some bytes → IsOctets bytes
octets-IsOctets [] bytes h = subst (λ x. IsOctets x) (some-injective _ _ h) tt
octets-IsOctets (b ∷ bs) bytes h = elim (Bool-cases (ltb b 256)) [
  | inl e ↦
      prepend-IsOctets b (octets bs) bytes (ground (arith, e)) (octets-IsOctets bs) (rw e at h)
  | inr e ↦ let clash : none ≡ some bytes = rw e at h in cc
]

prepend-same :
    (b : ℕ) (bs : Bytes) (o : Option Bytes) (bytes : Bytes)
    → ((cs : Bytes) → o ≡ some cs → bs ≡ cs)
    → prepend b o ≡ some bytes
    → b ∷ bs ≡ bytes
prepend-same b bs none bytes rest h = cc
prepend-same b bs (some cs) bytes rest h = ap (λ x. b ∷ x) (rest cs refl) ∙ some-injective _ _ h

octets-same : (bs bytes : Bytes) → octets bs ≡ some bytes → bs ≡ bytes
octets-same [] bytes h = some-injective _ _ h
octets-same (b ∷ bs) bytes h = elim (Bool-cases (ltb b 256)) [
  | inl e ↦ prepend-same b bs (octets bs) bytes (octets-same bs) (rw e at h)
  | inr e ↦ let clash : none ≡ some bytes = rw e at h in cc
]

module _ (messages : List ProtocolClaims) (credentials : List CredentialClaims) where
  unfoldable pub hex_platform : Platform
  unfolding encode decode platform write_message
  hex_platform = record (platform messages credentials) {
    to_tagged_vec = λ m. octets (write_message m);
    hex_encode = encode;
    hex_decode = decode;
  }

  pub hex_platform-CoseLaws : CoseLaws hex_platform
  unfolding hex_platform platform
  hex_platform-CoseLaws =
      let laws = platform-CoseLaws messages credentials in
      record {
        alg-build = laws.alg-build;
        key_id-build = laws.key_id-build;
        payload-build = laws.payload-build;
        signature-build = laws.signature-build;
        tbs_data-build = laws.tbs_data-build;
        from_tagged_slice-to_tagged_vec =
            λ m bs h. laws.from_tagged_slice-to_tagged_vec m bs (ap some (octets-same _ bs h));
      }

  pub to_tagged_vec-IsOctets :
      (message : hex_platform.CoseSign1) (bytes : Bytes)
      → hex_platform.to_tagged_vec message ≡ some bytes
      → IsOctets bytes
  unfolding hex_platform platform
  to_tagged_vec-IsOctets message bytes h = octets-IsOctets (write_message message) bytes h

  pub hex_platform-CborLaws : CborLaws hex_platform
  unfolding hex_platform
  hex_platform-CborLaws =
      let laws = platform-CborLaws messages credentials in
      record {
        claims_round_trip = laws.claims_round_trip;
        credential_round_trip = laws.credential_round_trip;
      }

  pub hex_platform-HexLaws : HexLaws hex_platform
  unfolding hex_platform
  hex_platform-HexLaws = record { hex_decode-hex_encode = decode-encode }

  pub hex_platform-HexDigits : HexDigits hex_platform
  unfolding hex_platform
  hex_platform-HexDigits = record { hex_encode-IsHexText = encode-IsHexText }

  length-replicate : (n a : ℕ) → length (replicate n a) ≡ n
  length-replicate zero a = refl
  length-replicate (suc n) a = ap suc (length-replicate n a)

  fills-FillLaws :
      (works : Bool) (k : ℕ) (buffer filled : Bytes)
      → (if works then some (replicate (length buffer) (65 + k)) else none) ≡ some filled
      → length filled ≡ length buffer
  fills-FillLaws true k buffer filled h =
      ap length (sym (some-injective _ _ h)) ∙ length-replicate (length buffer) (65 + k)
  fills-FillLaws false k buffer filled h = cc

  pub hex_platform-FillLaws : FillLaws hex_platform
  unfolding hex_platform platform
  hex_platform-FillLaws = record { length-fill = fills-FillLaws }
