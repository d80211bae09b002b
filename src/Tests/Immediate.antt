-- ===== src/Tests/Immediate.antt =====
-- A request and the redemption of its grant, over the hexadecimal texts of `hex`.
use access.Common.{
  ℕ, ◌++◌, ◌≡◌, refl, true, false, Option, none, some, List, [], ◌∷◌, String, Bytes, All, unwrap_or,
  arith, ◌<◌, ◌+◌, length, contains, get, ◌≤◌,
}
use access.Common.Tests.{string_eq, bytes_eq}
use access.Common.Int.{ℤ, pos}
use access.Common.Result.{Result, ok, err}
use access.Common.Exec
use access.Common.Text.{format}
use access.Utf8.{as_bytes}
use access.Platform.{Platform}
use access.Protocol.Claims.{ProtocolClaims, CredentialClaims, session_offer, session_proof}
use access.Protocol.Identity.{IdentityKey, TrustStore, IsSound, from_seed}
use access.Profile.{ReadinessEvidence}
use access.Session.Outcomes.{TransitionOutcome, SessionError, denied}
use access.Session.Engine.{AccessEngine, new, empty_nonce}
use access.Session.Messages.{handshake_claims}
use access.Session.Stages.{state_number}
use access.Session.Request.{request_transition}
use access.Session.Redeem.{redeem_transition}
use access.Session.Stages.{transition_names}
use access.Protocol.Replay.{ReplayCache, default_cache}
use access.Services.Verifier.{
  VerifyCommand, VerifiedEntitlement, VerifierJson, trusts_authority, verify_command,
}
use access.Services.Verifier.Issued.{verify_command-request_transition}
use access.Tests.Verifier.{host, bundle}
use access.Session.Redeem.Immediate.{redeem_transition-request_transition}
use access.Tests.{platform}
use access.Tests.Hex.{
  hex_platform, hex_platform-CoseLaws, hex_platform-CborLaws, hex_platform-HexLaws,
  hex_platform-FillLaws, to_tagged_vec-IsOctets,
}
use access.Tests.Fixtures.{now, nonce, grant, profile, evidence, metadata}

-- The bytes of the grant's nonce, in hexadecimal.
abbrev messages : List ProtocolClaims
unfolding handshake_claims
messages =
    handshake_claims session_offer "station" "chaser" now (nonce 1) (some "session")
      (some (nonce 0)) []
    ∷ handshake_claims session_proof "chaser" "station" now (nonce 2) (some "session")
        (some (nonce 0)) []
    ∷ record grant {
      grant_id = some "grant-4444444444444444444444444444444444444444444444444444444444444444";
      nonce = nonce 4;
    }
    ∷ []

abbrev p : Platform
p = hex_platform messages []

unfoldable identity : String → ℕ → IdentityKey p
unfolding platform hex_platform
identity id k = from_seed p id (k ∷ [])

unfoldable trusts : String → ℕ → TrustStore p
trusts id k = (id, (identity id k).verifying_key) ∷ []

unfoldable start : AccessEngine p
unfolding platform hex_platform identity trusts new
start =
    record (new p (identity "chaser" 1) (identity "station" 2) (identity "issuer" 3)
      (trusts "chaser" 1) (trusts "station" 2) (trusts "issuer" 3) (trusts "station" 2)
      (record {
        protocol_profile = profile;
        authorization_policy_engine = record { policies = true; metadata = metadata };
        trust_bundle_id = "bundle";
        trust_bundle_version = 1;
        trust_bundle_issued_at_s = pos 500;
      })) {
        authorization = record {
          identity_verified = true;
          session_authorized = true;
          docking_authorized = false;
        };
        session_id = some "session";
        verified_credentials = evidence;
        holder_proof_at_s = some now;
      }

unfoldable ready : ReadinessEvidence p
unfolding platform hex_platform
ready = record {
  observed_at_ms = pos 999500;
  range_m = 10;
  closing_rate_mps = 1;
  checks = ("initial_hold_confirmed", true) ∷ [];
}

unfoldable result : Result SessionError TransitionOutcome × AccessEngine p
unfolding request_transition start ready
result = request_transition p 1 now ready start

abbrev outcome_of : Result SessionError TransitionOutcome → TransitionOutcome
unfolding denied
outcome_of (ok outcome) = outcome
outcome_of (err e) = denied 0 "" ""

grants : request_transition p 1 now ready start ≡ (ok (outcome_of result.0), result.1)
unfolding request_transition result start ready outcome_of identity trusts hex_platform
    access.Tests.Hex.encode access.Tests.Hex.decode access.Session.Stages.transition_for
    access.Session.Stages.transition_names access.Session.Request.after_profile
    access.Session.Request.after_policy access.Session.Request.issue_grant
    access.Session.Request.grant_claims access.Session.Answers.granted_outcome
    access.Session.Answers.refresh_event access.Session.Request.evaluate_stage
    access.Session.Request.authorize_stage access.Profile.evaluate access.Cedar.authorize_transition
    access.Common.Int.as_i64 Exec.◌>>=◌ Exec.zoom Exec.gets Exec.lift Exec.modify Exec.pure
    access.Protocol.Envelope.sign_envelope access.Protocol.Envelope.verify_envelope
    access.Protocol.Envelope.check_envelope access.Protocol.Envelope.consume_nonce
    access.Protocol.Cose.sign_payload access.Protocol.Cose.verify_signed_payload
    access.Utf8.as_bytes access.Utf8.from_utf8 access.Utf8.encode_code access.Protocol.Cose.accepts
    access.Common.Int.abs_diff access.Protocol.Replay.consume access.Common.Tests.option_eq
    access.Common.Tests.option_dec access.Common.Tests.bytes_dec access.Common.Tests.bytes_eq
    access.Common.Tests.nat_eq access.Common.Tests.string_eq access.Common.Int.saturate
    access.Common.Int.saturating_add access.Common.Int.saturating_mul
    access.Common.Int.saturating_sub access.Common.Int.◌+ℤ◌ access.Common.Int.◌*ℤ◌
    access.Common.Int.◌-ℤ◌ access.Profile.parse_timestamp access.Profile.validate_credentials
    access.Profile.validate_foundation access.Profile.violates access.Protocol.Identity.from_seed
    access.Session.Engine.new access.Session.Engine.random_nonce
    access.Session.Messages.handshake_claims access.Session.Messages.exchange
    access.Session.Messages.send_offer access.Session.Messages.send_proof
    access.Session.Messages.bind_proof access.Common.Text.format access.Tests.entry
    access.Tests.index access.Tests.platform access.Tests.read_message access.Tests.read_signed
    access.Tests.split access.Tests.write_message access.Tests.claims_eq
    access.Tests.ProtocolClaims-discrete access.Protocol.Claims.AuthorizedStage-discrete
    access.Protocol.Claims.MessageType-discrete access.Common.Int.int_eq access.Common.Int.ℤ_dec
    access.Cedar.authorize access.Cedar.context native.Mathlib.Decide.ℕ_discrete
grants = refl

abbrev hex : String
hex = unwrap_or "" (outcome_of result.0).signed_grant_hex

signed :
    ((outcome_of result.0).signed_grant_hex ≡ some hex)
    × ((outcome_of result.0).grant_expires_at_s ≡ some (pos 1030))
unfolding request_transition result start ready outcome_of identity trusts hex_platform
    access.Tests.Hex.encode access.Tests.Hex.decode access.Session.Stages.transition_for
    access.Session.Stages.transition_names access.Session.Request.after_profile
    access.Session.Request.after_policy access.Session.Request.issue_grant
    access.Session.Request.grant_claims access.Session.Answers.granted_outcome
    access.Session.Answers.refresh_event access.Session.Request.evaluate_stage
    access.Session.Request.authorize_stage access.Profile.evaluate access.Cedar.authorize_transition
    access.Common.Int.as_i64 Exec.◌>>=◌ Exec.zoom Exec.gets Exec.lift Exec.modify Exec.pure
    access.Protocol.Envelope.sign_envelope access.Protocol.Envelope.verify_envelope
    access.Protocol.Envelope.check_envelope access.Protocol.Envelope.consume_nonce
    access.Protocol.Cose.sign_payload access.Protocol.Cose.verify_signed_payload
    access.Utf8.as_bytes access.Utf8.from_utf8 access.Utf8.encode_code access.Protocol.Cose.accepts
    access.Common.Int.abs_diff access.Protocol.Replay.consume access.Common.Tests.option_eq
    access.Common.Tests.option_dec access.Common.Tests.bytes_dec access.Common.Tests.bytes_eq
    access.Common.Tests.nat_eq access.Common.Tests.string_eq access.Common.Int.saturate
    access.Common.Int.saturating_add access.Common.Int.saturating_mul
    access.Common.Int.saturating_sub access.Common.Int.◌+ℤ◌ access.Common.Int.◌*ℤ◌
    access.Common.Int.◌-ℤ◌ access.Profile.parse_timestamp access.Profile.validate_credentials
    access.Profile.validate_foundation access.Profile.violates access.Protocol.Identity.from_seed
    access.Session.Engine.new access.Session.Engine.random_nonce
    access.Session.Messages.handshake_claims access.Session.Messages.exchange
    access.Session.Messages.send_offer access.Session.Messages.send_proof
    access.Session.Messages.bind_proof access.Common.Text.format access.Tests.entry
    access.Tests.index access.Tests.platform access.Tests.read_message access.Tests.read_signed
    access.Tests.split access.Tests.write_message access.Tests.claims_eq
    access.Tests.ProtocolClaims-discrete access.Protocol.Claims.AuthorizedStage-discrete
    access.Protocol.Claims.MessageType-discrete access.Common.Int.int_eq access.Common.Int.ℤ_dec
    access.Cedar.authorize access.Cedar.context native.Mathlib.Decide.ℕ_discrete
signed = (refl, refl)

station-IsSound : IsSound p start.station
unfolding start identity from_seed new hex_platform platform
    access.Protocol.Identity.local_payload_signer access.Common.Tests.string_eq
    access.Common.Tests.bytes_eq access.Common.Tests.bytes_dec native.Mathlib.Decide.ℕ_discrete
station-IsSound message bytes h = let same : 2 ∷ [] ≡ bytes = cc in (bytes, refl, rw (← same) refl)

station_trusted : get start.gate_trust start.station.key_id ≡ some start.station.verifying_key
unfolding start identity trusts from_seed new hex_platform platform access.Common.Tests.string_eq
station_trusted = refl

in_session :
    (start.authorization.identity_verified ≡ true) × (start.authorization.session_authorized ≡ true)
unfolding start
in_session = (refl, refl)

appends : (bytes : Bytes) (b : p.Backend) → (p.backend.append_and_sync bytes b).0 ≡ ok tt
unfolding hex_platform platform
appends bytes b = refl

-- The gate has consumed nothing.
fresh :
    (k : ℕ) (bytes : Bytes)
    → start.fills ≤ k
    → p.fill start.random_source k empty_nonce ≡ some bytes
    → (contains result.1.gate_replay.consumed bytes ≡ false)
      × (contains result.1.consumed_grants.consumed
            (as_bytes (format ("grant-" ∷ p.hex_encode bytes ∷ [])))
          ≡ false)
unfolding request_transition result start ready outcome_of identity trusts hex_platform
    access.Tests.Hex.encode access.Tests.Hex.decode access.Session.Stages.transition_for
    access.Session.Stages.transition_names access.Session.Request.after_profile
    access.Session.Request.after_policy access.Session.Request.issue_grant
    access.Session.Request.grant_claims access.Session.Answers.granted_outcome
    access.Session.Answers.refresh_event access.Session.Request.evaluate_stage
    access.Session.Request.authorize_stage access.Profile.evaluate access.Cedar.authorize_transition
    access.Common.Int.as_i64 Exec.◌>>=◌ Exec.zoom Exec.gets Exec.lift Exec.modify Exec.pure
    access.Protocol.Envelope.sign_envelope access.Protocol.Envelope.verify_envelope
    access.Protocol.Envelope.check_envelope access.Protocol.Envelope.consume_nonce
    access.Protocol.Cose.sign_payload access.Protocol.Cose.verify_signed_payload
    access.Utf8.as_bytes access.Utf8.from_utf8 access.Utf8.encode_code access.Protocol.Cose.accepts
    access.Common.Int.abs_diff access.Protocol.Replay.consume access.Common.Tests.option_eq
    access.Common.Tests.option_dec access.Common.Tests.bytes_dec access.Common.Tests.bytes_eq
    access.Common.Tests.nat_eq access.Common.Tests.string_eq access.Common.Int.saturate
    access.Common.Int.saturating_add access.Common.Int.saturating_mul
    access.Common.Int.saturating_sub access.Common.Int.◌+ℤ◌ access.Common.Int.◌*ℤ◌
    access.Common.Int.◌-ℤ◌ access.Profile.parse_timestamp access.Profile.validate_credentials
    access.Profile.validate_foundation access.Profile.violates access.Protocol.Identity.from_seed
    access.Session.Engine.new access.Session.Engine.random_nonce
    access.Session.Messages.handshake_claims access.Session.Messages.exchange
    access.Session.Messages.send_offer access.Session.Messages.send_proof
    access.Session.Messages.bind_proof access.Common.Text.format access.Tests.entry
    access.Tests.index access.Tests.platform access.Tests.read_message access.Tests.read_signed
    access.Tests.split access.Tests.write_message access.Tests.claims_eq
    access.Tests.ProtocolClaims-discrete access.Protocol.Claims.AuthorizedStage-discrete
    access.Protocol.Claims.MessageType-discrete access.Common.Int.int_eq access.Common.Int.ℤ_dec
    access.Cedar.authorize access.Cedar.context native.Mathlib.Decide.ℕ_discrete
fresh k bytes above h = (refl, refl)

redeem_transition-request_transition_example :
    (answer : TransitionOutcome) × (f : AccessEngine p) × (redeem_transition p hex 1 now ready
        result.1
      ≡ (ok answer, f))
    × (state_number f.state ≡ 1)
redeem_transition-request_transition_example =
    redeem_transition-request_transition p (hex_platform-CoseLaws messages [])
      (hex_platform-CborLaws messages []) (hex_platform-HexLaws messages [])
      (hex_platform-FillLaws messages []) 1 now ready start result.1 (outcome_of result.0) hex
      (pos 1030) grants signed.0 signed.1 (omega arith) (to_tagged_vec-IsOctets messages [])
      station-IsSound station_trusted in_session.0 in_session.1 appends fresh

-- A client that trusts the station.
unfoldable store : TrustStore p
store = trusts "station" 2

abbrev command : VerifyCommand
command = record {
  command = "verify_entitlement";
  entitlement_hex = some hex;
  expected_authority = some "station";
  expected_session_id = some "session";
  expected_stage = some "approach";
  now_s = none;
}

abbrev json : VerifierJson
json = record { bundle_from_slice = λ bytes. ok bundle; command_from_str = λ text. ok command }

trusted : get store start.station.key_id ≡ some start.station.verifying_key
unfolding store start identity trusts from_seed new hex_platform platform
    access.Common.Tests.string_eq
trusted = refl

vouched : trusts_authority bundle start.station.key_id start.station.key_id ≡ true
unfolding trusts_authority start identity from_seed new hex_platform platform
    access.Common.Tests.string_eq
vouched = refl

known :
    (bundle.client_id ≡ start.chaser.key_id)
    × (some "station" ≡ some start.station.key_id)
    × (some "session" ≡ start.session_id)
    × (transition_names start.state 1 ≡ some ("hold", "approach"))
unfolding start identity from_seed new hex_platform platform transition_names
known = (refl, refl, refl, refl)

verify_command-request_transition_example :
    (out : VerifiedEntitlement) × (c' : ReplayCache p.Backend) × (verify_command p host json
        p.backend "" bundle store now default_cache
      ≡ (ok out, c'))
    × ((outcome_of result.0).grant_id ≡ some out.grant_id)
verify_command-request_transition_example =
    verify_command-request_transition p (hex_platform-CoseLaws messages [])
      (hex_platform-CborLaws messages []) (hex_platform-HexLaws messages [])
      (hex_platform-FillLaws messages []) 1 now now ready start result.1 (outcome_of result.0) hex
      (pos 1030) host json p.backend bundle store "" command "hold" "approach" default_cache grants
      signed.0 signed.1 (omega arith) (to_tagged_vec-IsOctets messages []) station-IsSound trusted
      vouched known.0 refl refl refl known.1 known.2 known.3 refl refl appends
      (λ k bytes above h. refl)
