-- ===== src/Tests/Signer.antt =====
-- The authority's external signer over the signer's executable, for a fixture with one role.
use access.Common.{
  ℕ, ◌≡◌, refl, true, false, none, some, List, [], ◌∷◌, String, Bytes, replicate, arith,
}
use access.Common.Result.{ok}
use access.Platform.{Platform}
use access.Protocol.Identity.{from_seed}
use access.Services.{Host}
use access.Services.Authority.{AuthorityOs}
use access.Services.Authority.Setup.{external_sign}
use access.Services.Signer.{IdentityFile, SignerJson, process}
use access.Services.Signer.Signs.{HasSeed, external_sign-local}
use access.Tests.{platform}
use access.Tests.Hex.{hex_platform, hex_platform-HexLaws, hex_platform-HexDigits}

abbrev p : Platform
p = hex_platform [] []

abbrev seed : Bytes
seed = replicate 32 2

abbrev file : IdentityFile
file = record {
  fixture_only = true;
  identities = ("station", record { seed_hex = p.hex_encode seed }) ∷ [];
}

abbrev host : Host
host = record {
  hex_error = λ text. "hex";
  timestamp_error = λ text. "time";
  key_error = λ bytes. "key";
  read = λ path. ok [];
  read_to_string = λ path. ok "";
}

abbrev json : SignerJson
json = record { file_from_slice = λ bytes. ok file; debug_error = λ error. error }

unfoldable os : AuthorityOs p
unfolding platform hex_platform
os = record {
  run_process = λ command. process p host json;
  replace_invalid = λ bytes. "";
  open_journal = λ path. ok [];
}

runs :
    (args : List String) (stdin : String)
    → os.run_process "signer" args stdin ≡ process p host json args stdin
unfolding os
runs args stdin = refl

has_seed : HasSeed p host json "identities.json" "station" seed
unfolding access.Common.Tests.string_eq
has_seed = record {
  bytes = [];
  read = refl;
  file = file;
  parsed = refl;
  fixture = refl;
  identity = record { seed_hex = p.hex_encode seed };
  found = refl;
  decoded = (hex_platform-HexLaws [] []).hex_decode-hex_encode seed (ground arith);
  sized = refl;
}

abbrev payload : Bytes
payload = 1 ∷ 200 ∷ []

external_sign-local_example :
    external_sign p host os "signer" "station" "identities.json" payload
    ≡ (from_seed p "station" seed).signer payload
unfolding platform hex_platform
external_sign-local_example =
    external_sign-local p host json os (hex_platform-HexLaws [] []) (hex_platform-HexDigits [] [])
      "signer" "station" "identities.json" "station" seed payload runs has_seed (ground arith)
      (ground arith)
