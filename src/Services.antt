-- ===== src/Services.antt =====
-- rust/access_core/src/bin: what the three executables share. An error is a `Box<dyn Error>` there,
-- of which only the text is used, and here that text.
pub mod Errors
pub mod Verifier
pub mod Authority
pub mod Signer
use access.Common.{
  ℕ, ◌≡◌, Bool, true, false, Option, none, some, List, [], ◌∷◌, String, Bytes, length, is_empty,
  ◌!=◌,
}
use access.Common.Tests.{nat_eq, string_eq}
use access.Common.Int.{ℤ, ltb_ℤ}
use access.Common.Result.{Result, ok, err, ◌>>=◌, ◌>>◌, ok_or, bail_if}
use access.Platform.{Platform}

-- The texts of the errors of `hex`, `chrono` and `ed25519-dalek`, and `fs::read` and
-- `fs::read_to_string` by path.
pub record Host : Type 0 where
  pub hex_error : String → String
  pub timestamp_error : String → String
  pub key_error : Bytes → String
  pub read : String → Result String Bytes
  pub read_to_string : String → Result String String

-- How a child process ended: it did not start, had no stdin, could not be written to, could not be
-- waited for, or finished, with success or not, and with its stdout and stderr.
pub data ProcessResult : Type 0 where
  not_started write_failed wait_failed : String → ProcessResult
  no_stdin : ProcessResult
  finished : Bool → Bytes → Bytes → ProcessResult

-- One line of `stdin().lines()`, or the error of reading it, and the clock while it is answered.
pub record Input : Type 0 where
  pub line : Result String String
  pub unix_time : ℤ

pub record Response (T : Type 0) : Type 0 where
  pub ok : Bool
  pub value : Option T
  pub error : Option String

-- The response of a handler's result.
unfoldable pub respond : {T : Type 0} → Result String T → Response T
respond (ok value) = record { ok = true; value = some value; error = none }
respond (err error) = record { ok = false; value = none; error = some error }

module _ (p : Platform) (H : Host) where
  -- `hex::decode(text)?`
  abbrev pub decode_hex : String → Result String Bytes
  decode_hex text = ok_or (p.hex_decode text) (H.hex_error text)

  -- `DateTime::parse_from_rfc3339(value)?.timestamp()`
  abbrev pub timestamp : String → Result String ℤ
  timestamp value = ok_or (p.parse_from_rfc3339 value) (H.timestamp_error value)

  -- A public key of a bundle: hex, exactly 32 bytes, and a point of the curve.
  unfoldable pub decode_key : String → Result String p.VerifyingKey
  decode_key public_key_hex = do
    bytes ← decode_hex public_key_hex
    bail_if (length bytes != 32) "Ed25519 public key must contain exactly 32 bytes"
    ok_or (p.verifying_key_from_bytes bytes) (H.key_error bytes)
