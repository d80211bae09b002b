-- ===== src/Tests/Authority.antt =====
-- The authority, from its configuration through a handshake, a request and a redemption.
use access.Common.{
  ℕ, ◌++◌, ◌≡◌, ◌≢◌, refl, sym, ◌∙◌, true, false, Option, none, some, List, [], ◌∷◌, String, Bytes,
  replicate, if◌then◌else◌, ◌==◌,
}
use access.Common.Tests.{string_eq}
use access.Common.Int.{ℤ, pos}
use access.Common.Result.{Result, ok, err}
use access.Common.Exec
use access.Platform.{Platform}
use access.Utf8.{as_bytes}
use access.Protocol.Claims.{
  ProtocolClaims, CredentialClaims, access_request, session_offer, session_proof,
}
use access.StateMachine.{hold, approach}
use access.Profile.{ReadinessEvidence}
use access.Session.Outcomes.{nominal}
use access.Session.Engine.{AccessEngine}
use access.Session.Messages.{handshake_claims}
use access.Session.Establish.{registration_claims, certification_claims}
use access.Session.History.{run}
use access.Services.{Host, Input, finished}
use access.Services.Authority.{
  TrustBundle, AuthorityOs, AuthorityJson, Command, establish, transition, redeem_entitlement,
  serve,
}
use access.Services.Authority.Setup.{Environment, start}
use access.Services.Authority.Served.{served-protected}
use access.Services.Authority.Refines.{all_operations, serve-run}
use access.Tests.{platform}
use access.Tests.Fixtures.{now, nonce, grant, profile, readiness, engine}

abbrev chaser_key : String
chaser_key = "CCCCCCCCCCCCCCCCCCCCCCCCCCCCCCCC"

abbrev station_key : String
station_key = "SSSSSSSSSSSSSSSSSSSSSSSSSSSSSSSS"

abbrev issuer_key : String
issuer_key = "IIIIIIIIIIIIIIIIIIIIIIIIIIIIIIII"

-- "issuer", a payload, and the signature of the issuer's key
abbrev credential : Bytes → Bytes
credential payload = 6 ∷ (105 ∷ 115 ∷ 115 ∷ 117 ∷ 101 ∷ 114 ∷ []) ++ payload ++ replicate 32 73

abbrev session : String
session = "access-AAAAAAAAAAAAAAAAAAAAAAAAAAAAAAAA"

abbrev messages : List ProtocolClaims
unfolding handshake_claims
messages =
    handshake_claims access_request "chaser" "station" now (nonce 1) none none []
    ∷ handshake_claims session_offer "station" "chaser" now (nonce 3) (some session)
        (some (nonce 2)) []
    ∷ handshake_claims session_proof "chaser" "station" now (nonce 4) (some session)
        (some (nonce 2)) (credential (0 ∷ []) ∷ credential (1 ∷ 0 ∷ []) ∷ [])
    ∷ handshake_claims session_offer "station" "chaser" now (nonce 6) (some session)
        (some (nonce 5)) []
    ∷ handshake_claims session_proof "chaser" "station" now (nonce 7) (some session)
        (some (nonce 5)) []
    ∷ record grant {
      grant_id = some "grant-IIIIIIIIIIIIIIIIIIIIIIIIIIIIIIII";
      nonce = nonce 9;
      session_id = some session;
    }
    ∷ []

abbrev credentials : List CredentialClaims
unfolding registration_claims certification_claims
credentials =
    registration_claims "issuer" "chaser" now nominal
    ∷ certification_claims "issuer" "chaser" now
    ∷ []

abbrev p : Platform
p = platform messages credentials

unfoldable ready : ReadinessEvidence p
unfolding readiness
ready = readiness messages credentials

abbrev host : Host
host = record {
  hex_error = λ text. "hex";
  timestamp_error = λ text. "time";
  key_error = λ bytes. "key";
  read = λ path. ok [];
  read_to_string = λ path. ok "00";
}

-- What the signer prints for a role.
abbrev signature_text : List String → String
signature_text (name ∷ role ∷ rest) =
    if role == "chaser" then chaser_key else if role == "station" then station_key else issuer_key
signature_text args = ""

unfoldable os : AuthorityOs p
unfolding platform
os = record {
  run_process = λ command args stdin. finished true (as_bytes (signature_text args)) [];
  replace_invalid = λ bytes. "";
  open_journal = λ path. ok [];
}

abbrev trust : TrustBundle
trust = record {
  bundle_id = "bundle";
  version = 1;
  issued_at = "start";
  keys =
      record { key_id = "chaser"; public_key_hex = chaser_key; scopes = "station_peer" ∷ [] }
      ∷ record {
        key_id = "station";
        public_key_hex = station_key;
        scopes = "chaser_peer" ∷ "transition_gate" ∷ [];
      }
      ∷ record { key_id = "issuer"; public_key_hex = issuer_key; scopes = "credential_issuer" ∷ [] }
      ∷ [];
}

-- A line is the name of its command.
unfoldable command_of : String → Result String (Command p)
unfolding ready
command_of text =
    if text == "establish"
    then ok (establish "nominal" none)
    else if text == "transition"
    then ok (transition 1 none ready)
    else if text == "redeem"
    then ok (
        redeem_entitlement 1 "\u{7}station\u{5}\0\0\0\0\0SSSSSSSSSSSSSSSSSSSSSSSSSSSSSSSS" none
          ready)
    else err "expected value at line 1 column 1"

unfoldable json : AuthorityJson p
unfolding command_of
json = record {
  trust_from_slice = λ bytes. ok trust;
  policy_from_slice = λ bytes. ok (record {
    bundle_id = "policies";
    bundle_version = 3;
    issued_at = "start";
    valid_until = "end";
    source_file = "policy";
  });
  profile_from_slice = λ bytes. ok profile;
  command_from_str = command_of;
}

abbrev env : Environment
env = record {
  identities_file = none;
  signer_command = none;
  trust_bundle_file = none;
  protocol_profile_file = none;
  authorization_policy_bundle_file = none;
  state_dir = none;
  default_signer_command = "access_signer";
}

abbrev engine_of : Result String (AccessEngine p) → AccessEngine p
unfolding engine
engine_of (ok e) = e
engine_of (err error) = engine messages credentials

unfoldable begun : AccessEngine p
unfolding start os json engine_of
begun = engine_of (start p host os json env now)

starts : start p host os json env now ≡ ok begun
unfolding begun start engine_of os json access.Services.Authority.Setup.build_engine
    access.Services.Authority.Setup.load_trust access.Services.Authority.Setup.load_policy
    access.Services.Authority.Setup.store_for access.Services.Authority.Setup.add_records
    access.Services.Authority.Setup.external_identity access.Services.decode_key
    access.Common.Text.is_whitespace access.Common.Text.trim access.Common.Text.trim_start
    access.Common.Text.trim_end access.Session.Engine.enable_persistent_state
    access.Protocol.Replay.persistent access.Protocol.Replay.with_backend access.Cedar.from_source
    engine access.Session.Establish.establish_session access.Session.Establish.prepare_session
    access.Session.Engine.reset access.Session.Messages.send_request
    access.Session.Establish.verify_presentation access.Session.Establish.authorize_claims
    access.Session.Establish.issue_credentials access.Session.Establish.verified_evidence
    access.Session.Establish.evidence_of access.Session.Establish.establishment_events
    access.Session.Establish.registration_claims access.Session.Establish.certification_claims
    access.Protocol.Replay.reset_ephemeral access.Protocol.Credential.issue_credential
    access.Protocol.Credential.verify_credential access.Cedar.authorize_session
    access.Common.Int.wrapping_add access.Common.Int.wrapping_sub access.Tests.credential_eq
    access.Tests.CredentialClaims-discrete Exec.◌>>=◌ Exec.zoom Exec.gets Exec.lift Exec.modify
    Exec.pure access.Protocol.Envelope.sign_envelope access.Protocol.Envelope.verify_envelope
    access.Protocol.Envelope.check_envelope access.Protocol.Envelope.consume_nonce
    access.Protocol.Cose.sign_payload access.Protocol.Cose.verify_signed_payload
    access.Utf8.as_bytes access.Utf8.from_utf8 access.Utf8.encode_code access.Protocol.Cose.accepts
    access.Common.Int.abs_diff access.Protocol.Replay.consume access.Common.Tests.option_eq
    access.Common.Tests.option_dec access.Common.Tests.bytes_dec access.Common.Tests.bytes_eq
    access.Common.Tests.nat_eq access.Common.Tests.string_eq access.Common.Int.saturate
    access.Common.Int.saturating_add access.Common.Int.saturating_mul
    access.Common.Int.saturating_sub access.Common.Int.◌+ℤ◌ access.Common.Int.◌*ℤ◌
    access.Common.Int.◌-ℤ◌ access.Profile.parse_timestamp access.Profile.validate_credentials
    access.Profile.validate_foundation access.Profile.violates access.Protocol.Identity.from_seed
    access.Session.Engine.new access.Session.Engine.random_nonce
    access.Session.Messages.handshake_claims access.Session.Messages.exchange
    access.Session.Messages.send_offer access.Session.Messages.send_proof
    access.Session.Messages.bind_proof access.Common.Text.format access.Tests.entry
    access.Tests.index access.Tests.platform access.Tests.read_message access.Tests.read_signed
    access.Tests.split access.Tests.write_message access.Tests.claims_eq
    access.Tests.ProtocolClaims-discrete access.Protocol.Claims.AuthorizedStage-discrete
    access.Protocol.Claims.MessageType-discrete access.Common.Int.int_eq access.Common.Int.ℤ_dec
    access.Cedar.authorize access.Cedar.context native.Mathlib.Decide.ℕ_discrete
    access.Session.Request.request_transition access.Session.Stages.transition_for
    access.Session.Stages.transition_names access.Session.Request.after_profile
    access.Session.Request.after_policy access.Session.Request.issue_grant
    access.Session.Request.grant_claims access.Session.Answers.granted_outcome
    access.Session.Answers.refresh_event access.Session.Request.evaluate_stage
    access.Session.Request.authorize_stage access.Profile.evaluate access.Cedar.authorize_transition
    access.Common.Int.as_i64 access.Tests.Fixtures.readiness access.Session.Redeem.redeem_transition
    access.Session.Redeem.match_grant access.Session.Redeem.take_pending
    access.Protocol.Claims.stage_eq access.Session.Redeem.mismatches_request
    access.Session.Redeem.mismatches_rule access.Session.Redeem.redeemed_outcome
    access.Session.Redeem.release access.StateMachine.reduce
starts = refl

abbrev line : String → Input
line text = record { line = ok text; unix_time = now }

abbrev inputs : List Input
inputs = line "establish" ∷ line "describe it" ∷ line "transition" ∷ line "redeem" ∷ []

unfoldable ended : AccessEngine p
unfolding serve begun json
ended = (serve p json inputs begun).1

served : (serve p json inputs begun).1 ≡ ended
unfolding ended
served = refl

ended_state : ended.state ≡ approach
unfolding ended serve access.Services.Authority.answer access.Services.Authority.handle_command
    access.Services.Authority.dispatch access.Services.Authority.parse_scenario
    access.Services.respond access.Services.Authority.Setup.external_sign command_of ready begun
    start engine_of os json access.Services.Authority.Setup.build_engine
    access.Services.Authority.Setup.load_trust access.Services.Authority.Setup.load_policy
    access.Services.Authority.Setup.store_for access.Services.Authority.Setup.add_records
    access.Services.Authority.Setup.external_identity access.Services.decode_key
    access.Common.Text.is_whitespace access.Common.Text.trim access.Common.Text.trim_start
    access.Common.Text.trim_end access.Session.Engine.enable_persistent_state
    access.Protocol.Replay.persistent access.Protocol.Replay.with_backend access.Cedar.from_source
    engine access.Session.Establish.establish_session access.Session.Establish.prepare_session
    access.Session.Engine.reset access.Session.Messages.send_request
    access.Session.Establish.verify_presentation access.Session.Establish.authorize_claims
    access.Session.Establish.issue_credentials access.Session.Establish.verified_evidence
    access.Session.Establish.evidence_of access.Session.Establish.establishment_events
    access.Session.Establish.registration_claims access.Session.Establish.certification_claims
    access.Protocol.Replay.reset_ephemeral access.Protocol.Credential.issue_credential
    access.Protocol.Credential.verify_credential access.Cedar.authorize_session
    access.Common.Int.wrapping_add access.Common.Int.wrapping_sub access.Tests.credential_eq
    access.Tests.CredentialClaims-discrete Exec.◌>>=◌ Exec.zoom Exec.gets Exec.lift Exec.modify
    Exec.pure access.Protocol.Envelope.sign_envelope access.Protocol.Envelope.verify_envelope
    access.Protocol.Envelope.check_envelope access.Protocol.Envelope.consume_nonce
    access.Protocol.Cose.sign_payload access.Protocol.Cose.verify_signed_payload
    access.Utf8.as_bytes access.Utf8.from_utf8 access.Utf8.encode_code access.Protocol.Cose.accepts
    access.Common.Int.abs_diff access.Protocol.Replay.consume access.Common.Tests.option_eq
    access.Common.Tests.option_dec access.Common.Tests.bytes_dec access.Common.Tests.bytes_eq
    access.Common.Tests.nat_eq access.Common.Tests.string_eq access.Common.Int.saturate
    access.Common.Int.saturating_add access.Common.Int.saturating_mul
    access.Common.Int.saturating_sub access.Common.Int.◌+ℤ◌ access.Common.Int.◌*ℤ◌
    access.Common.Int.◌-ℤ◌ access.Profile.parse_timestamp access.Profile.validate_credentials
    access.Profile.validate_foundation access.Profile.violates access.Protocol.Identity.from_seed
    access.Session.Engine.new access.Session.Engine.random_nonce
    access.Session.Messages.handshake_claims access.Session.Messages.exchange
    access.Session.Messages.send_offer access.Session.Messages.send_proof
    access.Session.Messages.bind_proof access.Common.Text.format access.Tests.entry
    access.Tests.index access.Tests.platform access.Tests.read_message access.Tests.read_signed
    access.Tests.split access.Tests.write_message access.Tests.claims_eq
    access.Tests.ProtocolClaims-discrete access.Protocol.Claims.AuthorizedStage-discrete
    access.Protocol.Claims.MessageType-discrete access.Common.Int.int_eq access.Common.Int.ℤ_dec
    access.Cedar.authorize access.Cedar.context native.Mathlib.Decide.ℕ_discrete
    access.Session.Request.request_transition access.Session.Stages.transition_for
    access.Session.Stages.transition_names access.Session.Request.after_profile
    access.Session.Request.after_policy access.Session.Request.issue_grant
    access.Session.Request.grant_claims access.Session.Answers.granted_outcome
    access.Session.Answers.refresh_event access.Session.Request.evaluate_stage
    access.Session.Request.authorize_stage access.Profile.evaluate access.Cedar.authorize_transition
    access.Common.Int.as_i64 access.Tests.Fixtures.readiness access.Session.Redeem.redeem_transition
    access.Session.Redeem.match_grant access.Session.Redeem.take_pending
    access.Protocol.Claims.stage_eq access.Session.Redeem.mismatches_request
    access.Session.Redeem.mismatches_rule access.Session.Redeem.redeemed_outcome
    access.Session.Redeem.release access.StateMachine.reduce
ended_state = refl

ended_past_hold : ended.state ≢ hold
ended_past_hold h = let clash : approach ≡ hold = sym ended_state ∙ h in cc

served-protected_example :
    (session_id : String) × (ended.session_id ≡ some session_id)
    × (ended.authorization.session_authorized ≡ true)
    × (ended.authorization.identity_verified ≡ true)
served-protected_example =
    served-protected p host os json env now inputs begun ended starts served ended_past_hold

serve-run_example : (serve p json inputs begun).1 ≡ run p (all_operations p json inputs) begun
serve-run_example = serve-run p json inputs begun
