-- ===== src/Services/Signer/Signs.antt =====
-- The authority's external signer, with the signer's executable as the process that it runs.
use access.Common.{◌≡◌, refl, ap, ◌∙◌, true, some, List, [], ◌∷◌, String, Bytes, length, get}
use access.Common.Tests.{string_eq, nat_eq}
use access.Common.Text.{format, trim}
use access.Common.Text.Trim.{IsHexText, trim-hex, trim-line}
use access.Common.Result.{ok}
use access.Platform.{Platform}
use access.Platform.Laws.{IsOctets, HexLaws}
use access.Utf8.{as_bytes}
use access.Utf8.Laws.{from_utf8-as_bytes}
use access.Protocol.Identity.{local_payload_signer, from_seed}
use access.Services.{Host, finished}
use access.Services.Authority.{AuthorityOs}
use access.Services.Authority.Setup.{from_utf8_lossy, signature_of, external_sign}
use access.Services.Signer.{
  IdentityRecord, IdentityFile, SignerJson, read_arguments, arguments, main, process,
}

-- The arguments that the authority gives the signer are read as its role and its file.
arguments-given :
    (role path : String)
    → arguments ("--role" ∷ role ∷ "--identities-file" ∷ path ∷ []) ≡ ok (role, path)
unfolding arguments read_arguments string_eq
arguments-given role path = refl

-- hex: an encoded text has the digits 0 to 9 and a to f only.
pub record HexDigits (p : Platform) : Type 0 where
  pub hex_encode-IsHexText : (bs : Bytes) → IsHexText (p.hex_encode bs)

module _ (p : Platform) (H : Host) (J : SignerJson) where
  -- The file at the path is a fixture and has a seed of 32 bytes for the role.
  pub record HasSeed (path role : String) (seed : Bytes) : Type 0 where
    pub bytes : Bytes
    pub read : H.read path ≡ ok bytes
    pub file : IdentityFile
    pub parsed : J.file_from_slice bytes ≡ ok file
    pub fixture : file.fixture_only ≡ true
    pub identity : IdentityRecord
    pub found : get file.identities role ≡ some identity
    pub decoded : p.hex_decode identity.seed_hex ≡ some seed
    pub sized : length seed ≡ 32

  main-HasSeed :
      (role path stdin : String) (seed payload : Bytes)
      → HasSeed path role seed
      → p.hex_decode (trim stdin) ≡ some payload
      → main p H J ("--role" ∷ role ∷ "--identities-file" ∷ path ∷ []) (ok stdin)
        ≡ ok (p.hex_encode (p.sign (p.signing_key_from_bytes seed) payload))
  unfolding main nat_eq
  main-HasSeed role path stdin seed payload k given =
      rw
        (arguments-given role path, k.read, k.parsed, k.fixture, k.found, k.decoded, k.sized, given)
        refl

  module _ (O : AuthorityOs p) (L : HexLaws p) (D : HexDigits p) where
    lossy-as_bytes : (s : String) → from_utf8_lossy p H O (as_bytes s) ≡ s
    lossy-as_bytes s = rw (from_utf8_lossy, from_utf8-as_bytes s) refl

    printed :
        (role : String) (bytes stderr : Bytes)
        → IsOctets bytes
        → signature_of p H O role
            (finished true (as_bytes (format (p.hex_encode bytes ∷ "\n" ∷ []))) stderr)
          ≡ ok bytes
    unfolding signature_of
    printed role bytes stderr octets =
        rw
          (
            lossy-as_bytes (format (p.hex_encode bytes ∷ "\n" ∷ [])),
            trim-line (p.hex_encode bytes) (D.hex_encode-IsHexText bytes),
            L.hex_decode-hex_encode bytes octets,
          )
          refl

    -- The authority's external signer of a role returns what a local signer of the role's seed
    -- returns, when its command runs the signer's executable on a fixture with that seed, and the
    -- payload and the signature are bytes.
    pub external_sign-local :
        (command role path id : String) (seed payload : Bytes)
        → ((args : List String) (stdin : String)
            → O.run_process command args stdin ≡ process p H J args stdin)
        → HasSeed path role seed
        → IsOctets payload
        → IsOctets (p.sign (p.signing_key_from_bytes seed) payload)
        → external_sign p H O command role path payload ≡ (from_seed p id seed).signer payload
    unfolding external_sign process from_seed local_payload_signer
    external_sign-local command role path id seed payload runs k octets signed =
        let given =
          ap p.hex_decode (trim-hex (p.hex_encode payload) (D.hex_encode-IsHexText payload))
          ∙ L.hex_decode-hex_encode payload octets in
        let ran = main-HasSeed role path (p.hex_encode payload) seed payload k given in
        rw (runs ("--role" ∷ role ∷ "--identities-file" ∷ path ∷ []) (p.hex_encode payload), ran)
          (printed role (p.sign (p.signing_key_from_bytes seed) payload) [] signed)
