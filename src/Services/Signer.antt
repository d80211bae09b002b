-- ===== src/Services/Signer.antt =====
-- rust/access_core/src/bin/access_signer.rs: the executable that holds a seed and signs one payload.
pub mod Signs
use access.Common.{
  Bool, true, false, not, ◌||◌, Option, none, some, List, [], ◌∷◌, String, Bytes, length, get,
  if◌then◌else◌, ◌==◌, ◌!=◌,
}
use access.Common.Tests.{string_eq, nat_eq}
use access.Common.Text.{format, trim}
use access.Common.Result.{Result, ok, err, ◌>>=◌, ◌>>◌, ok_or, bail_if}
use access.Platform.{Platform}
use access.Utf8.{as_bytes}
use access.Services.{Host, decode_hex, ProcessResult, finished}

pub record IdentityRecord : Type 0 where
  pub seed_hex : String

pub record IdentityFile : Type 0 where
  pub fixture_only : Bool
  pub identities : List (String × IdentityRecord)

-- `serde_json` at the type that the signer reads, and the line that a failed `main` writes to stderr.
pub record SignerJson : Type 0 where
  pub file_from_slice : Bytes → Result String IdentityFile
  pub debug_error : String → String

abbrev finish : Option String → Option String → Result String (String × String)
finish role identities_path = do
  role' ← ok_or role "--role is required"
  path ← ok_or identities_path "--identities-file is required"
  ok (role', path)

abbrev is_option : String → Bool
is_option argument = argument == "--role" || argument == "--identities-file"

abbrev unknown : String → Result String (String × String)
unknown argument = err (format ("unknown argument: " ∷ argument ∷ []))

-- The variable that an option sets, to the next argument if there is one.
abbrev set_by : String → String → Option String → Option String → Option String
set_by name argument value old = if argument == name then value else old

-- The loop of `arguments`, with its two variables.
unfoldable pub read_arguments :
    List String → Option String → Option String → Result String (String × String)
read_arguments [] role path = finish role path
read_arguments (argument ∷ []) role path =
    if is_option argument
    then finish (set_by "--role" argument none role) (set_by "--identities-file" argument none path)
    else unknown argument
read_arguments (argument ∷ value ∷ rest) role path =
    let result =
      read_arguments rest (set_by "--role" argument (some value) role)
        (set_by "--identities-file" argument (some value) path) in
    if is_option argument then result else unknown argument

unfoldable pub arguments : List String → Result String (String × String)
unfolding read_arguments
arguments args = read_arguments args none none

module _ (p : Platform) (H : Host) (J : SignerJson) where
  -- `main`, of the arguments and of what stdin holds: the line that it prints, or its error
  unfoldable pub main : List String → Result String String → Result String String
  unfolding arguments
  main args stdin = do
    (role, identities_path) ← arguments args
    bytes ← H.read identities_path
    file ← J.file_from_slice bytes
    bail_if (not file.fixture_only) "file seed signer requires fixture_only=true"
    identity ←
        ok_or (get file.identities role) (format ("missing signing identity role: " ∷ role ∷ []))
    seed ← decode_hex p H identity.seed_hex
    bail_if (length seed != 32) "Ed25519 seed must contain exactly 32 bytes"
    encoded_payload ← stdin
    payload ← decode_hex p H (trim encoded_payload)
    ok (p.hex_encode (p.sign (p.signing_key_from_bytes seed) payload))

  -- The process: what it prints, and its success.
  abbrev pub exit : Result String String → ProcessResult
  exit (ok line) = finished true (as_bytes (format (line ∷ "\n" ∷ []))) []
  exit (err error) = finished false [] (as_bytes (J.debug_error error))

  unfoldable pub process : List String → String → ProcessResult
  unfolding main
  process args stdin = exit (main args (ok stdin))
