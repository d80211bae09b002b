-- ===== src/Tests/Establish.antt =====
-- The handshake, run on the fixtures.
use access.Common.{
  ℕ, ◌++◌, ◌≡◌, ◌≢◌, refl, arith, true, false, Option, none, some, List, [], ◌∷◌, String, Bytes,
}
use access.Common.Int.{ℤ, pos}
use access.Common.Result.{Result, ok, err}
use access.Common.Exec
use access.Platform.{Platform}
use access.Protocol.Claims.{
  ProtocolClaims, CredentialClaims, access_request, session_offer, session_proof,
}
use access.Session.Outcomes.{
  SessionOutcome, SessionError, nominal, expired_credential, random_source,
}
use access.Session.Engine.{AccessEngine}
use access.Session.Messages.{handshake_claims}
use access.Session.Establish.{registration_claims, certification_claims, establish_session}
use access.Session.Establish.Closed.{IsClosed, establish_failed-IsClosed}
use access.Session.Establish.Established.{IsEstablished, establish_session-IsEstablished}
use access.Session.Establish.Expired.{establish_session-expired}
use access.Tests.{platform, platform-CoseLaws, platform-CborLaws}
use access.Tests.Fixtures.{now, nonce, decision, engine}

-- "issuer", a payload, and the signature of key 3
abbrev credential : Bytes → Bytes
credential payload = 6 ∷ (105 ∷ 115 ∷ 115 ∷ 117 ∷ 101 ∷ 114 ∷ []) ++ payload ++ (3 ∷ [])

abbrev session : String
session = "access-AAAAAAAAAAAAAAAAAAAAAAAAAAAAAAAA"

abbrev messages : List ProtocolClaims
unfolding handshake_claims
messages =
    handshake_claims access_request "chaser" "station" now (nonce 1) none none []
    ∷ handshake_claims session_offer "station" "chaser" now (nonce 3) (some session)
        (some (nonce 2)) []
    ∷ handshake_claims session_proof "chaser" "station" now (nonce 4) (some session)
        (some (nonce 2)) (credential (0 ∷ []) ∷ credential (1 ∷ 0 ∷ []) ∷ [])
    ∷ []

abbrev credentials : List CredentialClaims
unfolding registration_claims certification_claims
credentials =
    registration_claims "issuer" "chaser" now nominal
    ∷ certification_claims "issuer" "chaser" now
    ∷ []

abbrev p : Platform
p = platform messages credentials

unfoldable start : AccessEngine p
unfolding engine
start = engine messages credentials

unfoldable result : Result SessionError SessionOutcome × AccessEngine p
unfolding establish_session start
result = establish_session p now nominal start

abbrev outcome_of : Result SessionError SessionOutcome → SessionOutcome
outcome_of (ok outcome) = outcome
outcome_of (err e) = record {
  session_id = "";
  protocol_profile_id = "";
  protocol_profile_version = 0;
  authorization_decision = decision;
  events = [];
}

establishes : establish_session p now nominal start ≡ (ok (outcome_of result.0), result.1)
unfolding establish_session result start access.Session.Establish.prepare_session
    access.Session.Engine.reset access.Session.Messages.send_request
    access.Session.Establish.verify_presentation access.Session.Establish.authorize_claims
    access.Session.Establish.issue_credentials access.Session.Establish.verified_evidence
    access.Session.Establish.evidence_of access.Session.Establish.establishment_events
    access.Session.Establish.registration_claims access.Session.Establish.certification_claims
    access.Protocol.Replay.reset_ephemeral access.Protocol.Credential.issue_credential
    access.Protocol.Credential.verify_credential access.Cedar.authorize_session
    access.Common.Int.wrapping_add access.Common.Int.wrapping_sub access.Tests.credential_eq
    access.Tests.CredentialClaims-discrete Exec.◌>>=◌ Exec.zoom Exec.gets Exec.lift Exec.modify
    Exec.pure access.Protocol.Envelope.sign_envelope access.Protocol.Envelope.verify_envelope
    access.Protocol.Envelope.check_envelope access.Protocol.Envelope.consume_nonce
    access.Protocol.Cose.sign_payload access.Protocol.Cose.verify_signed_payload
    access.Utf8.as_bytes access.Utf8.from_utf8 access.Utf8.encode_code access.Protocol.Cose.accepts
    access.Common.Int.abs_diff access.Protocol.Replay.consume access.Common.Tests.option_eq
    access.Common.Tests.option_dec access.Common.Tests.bytes_dec access.Common.Tests.bytes_eq
    access.Common.Tests.nat_eq access.Common.Tests.string_eq access.Common.Int.saturate
    access.Common.Int.saturating_add access.Common.Int.saturating_mul
    access.Common.Int.saturating_sub access.Common.Int.◌+ℤ◌ access.Common.Int.◌*ℤ◌
    access.Common.Int.◌-ℤ◌ access.Profile.parse_timestamp access.Profile.validate_credentials
    access.Profile.validate_foundation access.Profile.violates access.Protocol.Identity.from_seed
    access.Session.Engine.new access.Session.Engine.random_nonce
    access.Session.Messages.handshake_claims access.Session.Messages.exchange
    access.Session.Messages.send_offer access.Session.Messages.send_proof
    access.Session.Messages.bind_proof access.Common.Text.format access.Tests.Fixtures.engine
    access.Tests.Fixtures.identity access.Tests.Fixtures.trusts access.Tests.entry
    access.Tests.index access.Tests.platform access.Tests.read_message access.Tests.read_signed
    access.Tests.split access.Tests.write_message access.Tests.claims_eq
    access.Tests.ProtocolClaims-discrete access.Protocol.Claims.AuthorizedStage-discrete
    access.Protocol.Claims.MessageType-discrete access.Common.Int.int_eq access.Common.Int.ℤ_dec
    access.Cedar.authorize access.Cedar.context native.Mathlib.Decide.ℕ_discrete
establishes = refl

establish_session-IsEstablished_example : IsEstablished p now start result.1 (outcome_of result.0)
establish_session-IsEstablished_example =
    establish_session-IsEstablished p now nominal start result.1 (outcome_of result.0) establishes

-- The same engine with a random source that fails.
unfoldable broken : AccessEngine p
unfolding start platform
broken = record start { random_source = false }

unfoldable abandoned : AccessEngine p
unfolding establish_session broken
abandoned = (establish_session p now nominal broken).1

fails : establish_session p now nominal broken ≡ (err random_source, abandoned)
unfolding broken abandoned establish_session result start access.Session.Establish.prepare_session
    access.Session.Engine.reset access.Session.Messages.send_request
    access.Session.Establish.verify_presentation access.Session.Establish.authorize_claims
    access.Session.Establish.issue_credentials access.Session.Establish.verified_evidence
    access.Session.Establish.evidence_of access.Session.Establish.establishment_events
    access.Session.Establish.registration_claims access.Session.Establish.certification_claims
    access.Protocol.Replay.reset_ephemeral access.Protocol.Credential.issue_credential
    access.Protocol.Credential.verify_credential access.Cedar.authorize_session
    access.Common.Int.wrapping_add access.Common.Int.wrapping_sub access.Tests.credential_eq
    access.Tests.CredentialClaims-discrete Exec.◌>>=◌ Exec.zoom Exec.gets Exec.lift Exec.modify
    Exec.pure access.Protocol.Envelope.sign_envelope access.Protocol.Envelope.verify_envelope
    access.Protocol.Envelope.check_envelope access.Protocol.Envelope.consume_nonce
    access.Protocol.Cose.sign_payload access.Protocol.Cose.verify_signed_payload
    access.Utf8.as_bytes access.Utf8.from_utf8 access.Utf8.encode_code access.Protocol.Cose.accepts
    access.Common.Int.abs_diff access.Protocol.Replay.consume access.Common.Tests.option_eq
    access.Common.Tests.option_dec access.Common.Tests.bytes_dec access.Common.Tests.bytes_eq
    access.Common.Tests.nat_eq access.Common.Tests.string_eq access.Common.Int.saturate
    access.Common.Int.saturating_add access.Common.Int.saturating_mul
    access.Common.Int.saturating_sub access.Common.Int.◌+ℤ◌ access.Common.Int.◌*ℤ◌
    access.Common.Int.◌-ℤ◌ access.Profile.parse_timestamp access.Profile.validate_credentials
    access.Profile.validate_foundation access.Profile.violates access.Protocol.Identity.from_seed
    access.Session.Engine.new access.Session.Engine.random_nonce
    access.Session.Messages.handshake_claims access.Session.Messages.exchange
    access.Session.Messages.send_offer access.Session.Messages.send_proof
    access.Session.Messages.bind_proof access.Common.Text.format access.Tests.Fixtures.engine
    access.Tests.Fixtures.identity access.Tests.Fixtures.trusts access.Tests.entry
    access.Tests.index access.Tests.platform access.Tests.read_message access.Tests.read_signed
    access.Tests.split access.Tests.write_message access.Tests.claims_eq
    access.Tests.ProtocolClaims-discrete access.Protocol.Claims.AuthorizedStage-discrete
    access.Protocol.Claims.MessageType-discrete access.Common.Int.int_eq access.Common.Int.ℤ_dec
    access.Cedar.authorize access.Cedar.context native.Mathlib.Decide.ℕ_discrete
fails = refl

establish_failed-IsClosed_example : IsClosed abandoned
establish_failed-IsClosed_example =
    establish_failed-IsClosed p now nominal broken abandoned random_source fails

establish_session-expired_example :
    establish_session p now expired_credential start ≢ (ok (outcome_of result.0), result.1)
establish_session-expired_example =
    establish_session-expired p (platform-CoseLaws messages credentials)
      (platform-CborLaws messages credentials) now start result.1 (outcome_of result.0)
      (omega arith) (omega arith)
