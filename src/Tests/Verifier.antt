-- ===== src/Tests/Verifier.antt =====
-- The entitlement verifier, run on one authority, its grant, and the command to verify it.
use access.Common.{
  ℕ, ◌++◌, ◌≡◌, ◌≢◌, refl, true, false, Option, none, some, List, [], ◌∷◌, String, Bytes, All,
  replicate,
}
use access.Common.Int.{ℤ, pos}
use access.Common.Result.{Result, ok, err}
use access.Common.Exec
use access.Platform.{Platform}
use access.Utf8.{as_bytes}
use access.Protocol.Identity.{TrustStore}
use access.Protocol.Replay.{ReplayCache, default_cache}
use access.Services.{Host, Input}
use access.Services.Verifier.{
  SigningKeyRecord, TrustedAuthority, ClientTrustBundle, VerifyCommand, VerifiedEntitlement,
  VerifierJson, trusts_authority, trust_store, start, verify_command, serve,
}
use access.Services.Verifier.Once.{IsRequest, IsVerified, verify_command-IsVerified, serve_once}
use access.Services.Verifier.Trust.{IsListed, IsKnown, trust_store-All}
use access.Tests.{platform}
use access.Tests.Fixtures.{grant, now}

abbrev p : Platform
p = platform (grant ∷ []) []

abbrev key : String
key = "KKKKKKKKKKKKKKKKKKKKKKKKKKKKKKKK"

abbrev pub host : Host
host = record {
  hex_error = λ text. "hex";
  timestamp_error = λ text. "time";
  key_error = λ bytes. "key";
  read = λ path. ok [];
  read_to_string = λ path. ok "";
}

abbrev pub bundle : ClientTrustBundle
bundle = record {
  bundle_id = "client-bundle";
  version = 4;
  client_id = "chaser";
  valid_from = "start";
  valid_until = "end";
  trusted_authorities =
      record {
        authority_id = "station";
        signing_keys =
            record { key_id = "station"; algorithm = "Ed25519"; public_key_hex = key } ∷ [];
      }
      ∷ [];
}

-- The bytes of the signed grant: its key identifier, its payload and its signature.
abbrev encoded : String
encoded = "\u{7}station\0KKKKKKKKKKKKKKKKKKKKKKKKKKKKKKKK"

abbrev command : VerifyCommand
command = record {
  command = "verify_entitlement";
  entitlement_hex = some encoded;
  expected_authority = some "station";
  expected_session_id = some "session";
  expected_stage = some "approach";
  now_s = none;
}

abbrev json : VerifierJson
json = record { bundle_from_slice = λ bytes. ok bundle; command_from_str = λ text. ok command }

unfoldable store : TrustStore p
unfolding platform
store = ("station", replicate 32 75) ∷ []

stored : trust_store p host bundle ≡ ok store
unfolding trust_store access.Services.Verifier.add_authorities access.Services.Verifier.add_keys
    access.Services.decode_key store access.Common.Int.wrapping_add access.Common.Int.wrapping_sub
    Exec.◌>>=◌ Exec.zoom Exec.gets Exec.lift Exec.modify Exec.pure
    access.Protocol.Envelope.sign_envelope access.Protocol.Envelope.verify_envelope
    access.Protocol.Envelope.check_envelope access.Protocol.Envelope.consume_nonce
    access.Protocol.Cose.sign_payload access.Protocol.Cose.verify_signed_payload
    access.Utf8.as_bytes access.Utf8.from_utf8 access.Utf8.encode_code access.Protocol.Cose.accepts
    access.Common.Int.abs_diff access.Protocol.Replay.consume access.Common.Tests.option_eq
    access.Common.Tests.option_dec access.Common.Tests.bytes_dec access.Common.Tests.bytes_eq
    access.Common.Tests.nat_eq access.Common.Tests.string_eq access.Common.Int.saturate
    access.Common.Int.saturating_add access.Common.Int.saturating_mul
    access.Common.Int.saturating_sub access.Common.Int.◌+ℤ◌ access.Common.Int.◌*ℤ◌
    access.Common.Int.◌-ℤ◌ access.Common.Text.format access.Tests.entry access.Tests.index
    access.Tests.platform access.Tests.read_message access.Tests.read_signed access.Tests.split
    access.Tests.write_message access.Tests.claims_eq access.Tests.ProtocolClaims-discrete
    access.Protocol.Claims.AuthorizedStage-discrete access.Protocol.Claims.MessageType-discrete
    access.Common.Int.int_eq access.Common.Int.ℤ_dec native.Mathlib.Decide.ℕ_discrete
    access.Common.Int.as_i64 access.Protocol.Claims.stage_eq
stored = refl

abbrev cache : ReplayCache p.Backend
cache = default_cache

abbrev entitlement_of : Result String VerifiedEntitlement → VerifiedEntitlement
entitlement_of (ok value) = value
entitlement_of (err error) = record {
  verified = false;
  trust_bundle_id = "";
  trust_bundle_version = 0;
  authority_id = "";
  client_id = "";
  grant_id = "";
  session_id = "";
  authorized_stage = "";
  expires_at_s = pos 0;
  protocol_profile_id = "";
  protocol_profile_version = 0;
  rule_id = "";
  authorization_policy_bundle_id = "";
  authorization_policy_bundle_version = 0;
  authorization_policy_sha256 = "";
}

unfoldable answered : Result String VerifiedEntitlement × ReplayCache p.Backend
unfolding verify_command
answered = verify_command p host json p.backend "" bundle store now cache

verifies :
    verify_command p host json p.backend "" bundle store now cache
    ≡ (ok (entitlement_of answered.0), answered.1)
unfolding answered verify_command access.Services.Verifier.decode_command
    access.Services.Verifier.accept access.Services.Verifier.report trusts_authority store
    access.Protocol.Claims.message_type_eq access.Common.Int.wrapping_add
    access.Common.Int.wrapping_sub Exec.◌>>=◌ Exec.zoom Exec.gets Exec.lift Exec.modify Exec.pure
    access.Protocol.Envelope.sign_envelope access.Protocol.Envelope.verify_envelope
    access.Protocol.Envelope.check_envelope access.Protocol.Envelope.consume_nonce
    access.Protocol.Cose.sign_payload access.Protocol.Cose.verify_signed_payload
    access.Utf8.as_bytes access.Utf8.from_utf8 access.Utf8.encode_code access.Protocol.Cose.accepts
    access.Common.Int.abs_diff access.Protocol.Replay.consume access.Common.Tests.option_eq
    access.Common.Tests.option_dec access.Common.Tests.bytes_dec access.Common.Tests.bytes_eq
    access.Common.Tests.nat_eq access.Common.Tests.string_eq access.Common.Int.saturate
    access.Common.Int.saturating_add access.Common.Int.saturating_mul
    access.Common.Int.saturating_sub access.Common.Int.◌+ℤ◌ access.Common.Int.◌*ℤ◌
    access.Common.Int.◌-ℤ◌ access.Common.Text.format access.Tests.entry access.Tests.index
    access.Tests.platform access.Tests.read_message access.Tests.read_signed access.Tests.split
    access.Tests.write_message access.Tests.claims_eq access.Tests.ProtocolClaims-discrete
    access.Protocol.Claims.AuthorizedStage-discrete access.Protocol.Claims.MessageType-discrete
    access.Common.Int.int_eq access.Common.Int.ℤ_dec native.Mathlib.Decide.ℕ_discrete
    access.Common.Int.as_i64 access.Protocol.Claims.stage_eq
verifies = refl

verify_command-IsVerified_example :
    IsVerified p host json p.backend bundle store "" now cache answered.1
      (entitlement_of answered.0)
verify_command-IsVerified_example =
    verify_command-IsVerified p host json p.backend bundle store "" now cache answered.1
      (entitlement_of answered.0) verifies

requests : IsRequest p host json "" command (as_bytes encoded)
unfolding platform
requests = record { parsed = refl; asked = refl; hex = encoded; given = refl; decoded = refl }

abbrev lines : List Input
lines = record { line = err "closed"; unix_time = now } ∷ []

serve_once_example :
    verify_command p host json p.backend "" bundle store now
      (serve p host json p.backend bundle store lines answered.1).1
    ≢ (ok (entitlement_of answered.0), answered.1)
serve_once_example =
    serve_once p host json p.backend bundle store "" "" lines now now cache answered.1 answered.1
      (entitlement_of answered.0) (entitlement_of answered.0) command command (as_bytes encoded)
      verifies requests requests

trust_store-All_example :
    All (IsListed p host bundle.trusted_authorities) store
    × ((authority key_id : String)
        → trusts_authority bundle authority key_id ≡ true
        → IsKnown p host store key_id)
trust_store-All_example = trust_store-All p host bundle store stored

unfoldable journal : p.Backend
unfolding platform
journal = []

started :
    start p host json p.backend none none (λ path. ok journal) now
    ≡ ok (bundle, store, record { consumed = []; backend = some journal })
unfolding journal start access.Services.Verifier.load access.Protocol.Replay.persistent
    access.Protocol.Replay.with_backend access.Common.Text.trim access.Common.Text.trim_start
    access.Common.Text.trim_end access.Common.Text.is_whitespace trust_store
    access.Services.Verifier.add_authorities access.Services.Verifier.add_keys
    access.Services.decode_key store access.Common.Int.wrapping_add access.Common.Int.wrapping_sub
    Exec.◌>>=◌ Exec.zoom Exec.gets Exec.lift Exec.modify Exec.pure
    access.Protocol.Envelope.sign_envelope access.Protocol.Envelope.verify_envelope
    access.Protocol.Envelope.check_envelope access.Protocol.Envelope.consume_nonce
    access.Protocol.Cose.sign_payload access.Protocol.Cose.verify_signed_payload
    access.Utf8.as_bytes access.Utf8.from_utf8 access.Utf8.encode_code access.Protocol.Cose.accepts
    access.Common.Int.abs_diff access.Protocol.Replay.consume access.Common.Tests.option_eq
    access.Common.Tests.option_dec access.Common.Tests.bytes_dec access.Common.Tests.bytes_eq
    access.Common.Tests.nat_eq access.Common.Tests.string_eq access.Common.Int.saturate
    access.Common.Int.saturating_add access.Common.Int.saturating_mul
    access.Common.Int.saturating_sub access.Common.Int.◌+ℤ◌ access.Common.Int.◌*ℤ◌
    access.Common.Int.◌-ℤ◌ access.Common.Text.format access.Tests.entry access.Tests.index
    access.Tests.platform access.Tests.read_message access.Tests.read_signed access.Tests.split
    access.Tests.write_message access.Tests.claims_eq access.Tests.ProtocolClaims-discrete
    access.Protocol.Claims.AuthorizedStage-discrete access.Protocol.Claims.MessageType-discrete
    access.Common.Int.int_eq access.Common.Int.ℤ_dec native.Mathlib.Decide.ℕ_discrete
    access.Common.Int.as_i64 access.Protocol.Claims.stage_eq
started = refl
