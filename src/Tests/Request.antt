-- ===== src/Tests/Request.antt =====
-- A request for the first protected state, run on the fixtures.
use access.Common.{
  ℕ, ◌++◌, ◌≡◌, refl, true, false, Option, none, some, List, [], ◌∷◌, String, Bytes, arith,
}
use access.Common.Int.{ℤ, pos, ◌≤ℤ◌, ◌+ℤ◌, i64_max}
use access.Common.Result.{Result, ok, err}
use access.Common.Exec
use access.Platform.{Platform}
use access.Protocol.Claims.{ProtocolClaims, CredentialClaims, session_offer, session_proof}
use access.Profile.{ReadinessEvidence}
use access.Session.Outcomes.{TransitionOutcome, SessionError, denied}
use access.Session.Engine.{AccessEngine}
use access.Session.Engine.Frame.{Frame}
use access.Session.Messages.{handshake_claims}
use access.Session.Request.{request_transition}
use access.Session.Request.Keeps.{request_transition-Frame}
use access.Session.Request.Expiry.{IsSignedUntil, expiry-within}
use access.Tests.{platform}
use access.Tests.Fixtures.{now, nonce, grant, readiness, in_session}

abbrev messages : List ProtocolClaims
unfolding handshake_claims
messages =
    handshake_claims session_offer "station" "chaser" now (nonce 1) (some "session")
      (some (nonce 0)) []
    ∷ handshake_claims session_proof "chaser" "station" now (nonce 2) (some "session")
        (some (nonce 0)) []
    ∷ record grant { grant_id = some "grant-DDDDDDDDDDDDDDDDDDDDDDDDDDDDDDDD"; nonce = nonce 4 }
    ∷ []

abbrev p : Platform
p = platform messages []

unfoldable start : AccessEngine p
unfolding in_session
start = in_session messages []

unfoldable ready : ReadinessEvidence p
unfolding readiness
ready = readiness messages []

unfoldable result : Result SessionError TransitionOutcome × AccessEngine p
unfolding request_transition start ready
result = request_transition p 1 now ready start

abbrev outcome_of : Result SessionError TransitionOutcome → TransitionOutcome
unfolding denied
outcome_of (ok outcome) = outcome
outcome_of (err e) = denied 0 "" ""

grants : request_transition p 1 now ready start ≡ (ok (outcome_of result.0), result.1)
unfolding request_transition result start ready outcome_of access.Session.Stages.transition_for
    access.Session.Stages.transition_names access.Session.Request.after_profile
    access.Session.Request.after_policy access.Session.Request.issue_grant
    access.Session.Request.grant_claims access.Session.Answers.granted_outcome
    access.Session.Answers.refresh_event access.Session.Request.evaluate_stage
    access.Session.Request.authorize_stage access.Profile.evaluate access.Cedar.authorize_transition
    access.Common.Int.as_i64 access.Tests.Fixtures.in_session access.Tests.Fixtures.readiness
    Exec.◌>>=◌ Exec.zoom Exec.gets Exec.lift Exec.modify Exec.pure
    access.Protocol.Envelope.sign_envelope access.Protocol.Envelope.verify_envelope
    access.Protocol.Envelope.check_envelope access.Protocol.Envelope.consume_nonce
    access.Protocol.Cose.sign_payload access.Protocol.Cose.verify_signed_payload
    access.Utf8.as_bytes access.Utf8.from_utf8 access.Utf8.encode_code access.Protocol.Cose.accepts
    access.Common.Int.abs_diff access.Protocol.Replay.consume access.Common.Tests.option_eq
    access.Common.Tests.option_dec access.Common.Tests.bytes_dec access.Common.Tests.bytes_eq
    access.Common.Tests.nat_eq access.Common.Tests.string_eq access.Common.Int.saturate
    access.Common.Int.saturating_add access.Common.Int.saturating_mul
    access.Common.Int.saturating_sub access.Common.Int.◌+ℤ◌ access.Common.Int.◌*ℤ◌
    access.Common.Int.◌-ℤ◌ access.Profile.parse_timestamp access.Profile.validate_credentials
    access.Profile.validate_foundation access.Profile.violates access.Protocol.Identity.from_seed
    access.Session.Engine.new access.Session.Engine.random_nonce
    access.Session.Messages.handshake_claims access.Session.Messages.exchange
    access.Session.Messages.send_offer access.Session.Messages.send_proof
    access.Session.Messages.bind_proof access.Common.Text.format access.Tests.Fixtures.engine
    access.Tests.Fixtures.identity access.Tests.Fixtures.trusts access.Tests.entry
    access.Tests.index access.Tests.platform access.Tests.read_message access.Tests.read_signed
    access.Tests.split access.Tests.write_message access.Tests.claims_eq
    access.Tests.ProtocolClaims-discrete access.Protocol.Claims.AuthorizedStage-discrete
    access.Protocol.Claims.MessageType-discrete access.Common.Int.int_eq access.Common.Int.ℤ_dec
    access.Cedar.authorize access.Cedar.context native.Mathlib.Decide.ℕ_discrete
grants = refl

request_transition-Frame_example : Frame start (request_transition p 1 now ready start).1
request_transition-Frame_example = request_transition-Frame p 1 now ready start

granted :
    ((outcome_of result.0).approved ≡ true) × ((outcome_of result.0).entitlement_ttl_s ≡ some 30)
unfolding request_transition result start ready outcome_of access.Session.Stages.transition_for
    access.Session.Stages.transition_names access.Session.Request.after_profile
    access.Session.Request.after_policy access.Session.Request.issue_grant
    access.Session.Request.grant_claims access.Session.Answers.granted_outcome
    access.Session.Answers.refresh_event access.Session.Request.evaluate_stage
    access.Session.Request.authorize_stage access.Profile.evaluate access.Cedar.authorize_transition
    access.Common.Int.as_i64 access.Tests.Fixtures.in_session access.Tests.Fixtures.readiness
    Exec.◌>>=◌ Exec.zoom Exec.gets Exec.lift Exec.modify Exec.pure
    access.Protocol.Envelope.sign_envelope access.Protocol.Envelope.verify_envelope
    access.Protocol.Envelope.check_envelope access.Protocol.Envelope.consume_nonce
    access.Protocol.Cose.sign_payload access.Protocol.Cose.verify_signed_payload
    access.Utf8.as_bytes access.Utf8.from_utf8 access.Utf8.encode_code access.Protocol.Cose.accepts
    access.Common.Int.abs_diff access.Protocol.Replay.consume access.Common.Tests.option_eq
    access.Common.Tests.option_dec access.Common.Tests.bytes_dec access.Common.Tests.bytes_eq
    access.Common.Tests.nat_eq access.Common.Tests.string_eq access.Common.Int.saturate
    access.Common.Int.saturating_add access.Common.Int.saturating_mul
    access.Common.Int.saturating_sub access.Common.Int.◌+ℤ◌ access.Common.Int.◌*ℤ◌
    access.Common.Int.◌-ℤ◌ access.Profile.parse_timestamp access.Profile.validate_credentials
    access.Profile.validate_foundation access.Profile.violates access.Protocol.Identity.from_seed
    access.Session.Engine.new access.Session.Engine.random_nonce
    access.Session.Messages.handshake_claims access.Session.Messages.exchange
    access.Session.Messages.send_offer access.Session.Messages.send_proof
    access.Session.Messages.bind_proof access.Common.Text.format access.Tests.Fixtures.engine
    access.Tests.Fixtures.identity access.Tests.Fixtures.trusts access.Tests.entry
    access.Tests.index access.Tests.platform access.Tests.read_message access.Tests.read_signed
    access.Tests.split access.Tests.write_message access.Tests.claims_eq
    access.Tests.ProtocolClaims-discrete access.Protocol.Claims.AuthorizedStage-discrete
    access.Protocol.Claims.MessageType-discrete access.Common.Int.int_eq access.Common.Int.ℤ_dec
    access.Cedar.authorize access.Cedar.context native.Mathlib.Decide.ℕ_discrete
granted = (refl, refl)

expiry-within_example :
    (expiry : ℤ) × IsSignedUntil p (outcome_of result.0) start.station expiry
    × (now ≤ℤ expiry)
    × (expiry ≤ℤ now +ℤ pos 30)
    × (expiry ≤ℤ i64_max)
expiry-within_example =
    expiry-within p 1 now ready start result.1 (outcome_of result.0) 30 grants granted.0 granted.1
      (omega arith) (omega arith) (omega arith)
