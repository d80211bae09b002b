-- ===== src/Tests/History.antt =====
-- The engine through a handshake, a request and the redemption of its grant, run on the fixtures.
use access.Common.{
  ℕ, ◌++◌, ◌≡◌, ◌≢◌, refl, sym, ◌∙◌, true, false, Option, none, some, List, [], ◌∷◌, String, Bytes,
}
use access.Common.Int.{ℤ, pos}
use access.Common.Exec
use access.Platform.{Platform}
use access.Protocol.Claims.{
  ProtocolClaims, CredentialClaims, access_request, session_offer, session_proof,
}
use access.Protocol.Identity.{IdentityKey, TrustStore}
use access.StateMachine.{DockingState, hold, approach}
use access.Profile.{ReadinessEvidence}
use access.Session.Outcomes.{nominal}
use access.Session.Engine.{AccessEngine, AccessEngineConfig, new}
use access.Session.Messages.{handshake_claims}
use access.Session.Establish.{registration_claims, certification_claims}
use access.Session.History.{Operation, establish, request, redeem, run, run-protected}
use access.Tests.{platform}
use access.Tests.Fixtures.{now, nonce, grant, identity, trusts, readiness, engine}

-- "issuer", a payload, and the signature of key 3
abbrev credential : Bytes → Bytes
credential payload = 6 ∷ (105 ∷ 115 ∷ 115 ∷ 117 ∷ 101 ∷ 114 ∷ []) ++ payload ++ (3 ∷ [])

abbrev session : String
session = "access-AAAAAAAAAAAAAAAAAAAAAAAAAAAAAAAA"

abbrev messages : List ProtocolClaims
unfolding handshake_claims
messages =
    handshake_claims access_request "chaser" "station" now (nonce 1) none none []
    ∷ handshake_claims session_offer "station" "chaser" now (nonce 3) (some session)
        (some (nonce 2)) []
    ∷ handshake_claims session_proof "chaser" "station" now (nonce 4) (some session)
        (some (nonce 2)) (credential (0 ∷ []) ∷ credential (1 ∷ 0 ∷ []) ∷ [])
    ∷ handshake_claims session_offer "station" "chaser" now (nonce 6) (some session)
        (some (nonce 5)) []
    ∷ handshake_claims session_proof "chaser" "station" now (nonce 7) (some session)
        (some (nonce 5)) []
    ∷ record grant {
      grant_id = some "grant-IIIIIIIIIIIIIIIIIIIIIIIIIIIIIIII";
      nonce = nonce 9;
      session_id = some session;
    }
    ∷ []

abbrev credentials : List CredentialClaims
unfolding registration_claims certification_claims
credentials =
    registration_claims "issuer" "chaser" now nominal
    ∷ certification_claims "issuer" "chaser" now
    ∷ []

abbrev p : Platform
p = platform messages credentials

unfoldable start : AccessEngine p
unfolding engine
start = engine messages credentials

unfoldable ready : ReadinessEvidence p
unfolding readiness
ready = readiness messages credentials

-- The grant is the sixth message of the table.
abbrev operations : List (Operation p)
operations =
    establish now nominal
    ∷ request 1 now ready
    ∷ redeem "\u{7}station\u{5}\0\0\0\0\0\u{2}" 1 now ready
    ∷ []

unfoldable arrived : AccessEngine p
unfolding run start
arrived = run p operations start

arrived_state : arrived.state ≡ approach
unfolding run arrived start ready access.Session.Establish.establish_session
    access.Session.Establish.prepare_session access.Session.Engine.reset
    access.Session.Messages.send_request access.Session.Establish.verify_presentation
    access.Session.Establish.authorize_claims access.Session.Establish.issue_credentials
    access.Session.Establish.verified_evidence access.Session.Establish.evidence_of
    access.Session.Establish.establishment_events access.Session.Establish.registration_claims
    access.Session.Establish.certification_claims access.Protocol.Replay.reset_ephemeral
    access.Protocol.Credential.issue_credential access.Protocol.Credential.verify_credential
    access.Cedar.authorize_session access.Common.Int.wrapping_add access.Common.Int.wrapping_sub
    access.Tests.credential_eq access.Tests.CredentialClaims-discrete Exec.◌>>=◌ Exec.zoom Exec.gets
    Exec.lift Exec.modify Exec.pure access.Protocol.Envelope.sign_envelope
    access.Protocol.Envelope.verify_envelope access.Protocol.Envelope.check_envelope
    access.Protocol.Envelope.consume_nonce access.Protocol.Cose.sign_payload
    access.Protocol.Cose.verify_signed_payload access.Utf8.as_bytes access.Utf8.from_utf8
    access.Utf8.encode_code access.Protocol.Cose.accepts access.Common.Int.abs_diff
    access.Protocol.Replay.consume access.Common.Tests.option_eq access.Common.Tests.option_dec
    access.Common.Tests.bytes_dec access.Common.Tests.bytes_eq access.Common.Tests.nat_eq
    access.Common.Tests.string_eq access.Common.Int.saturate access.Common.Int.saturating_add
    access.Common.Int.saturating_mul access.Common.Int.saturating_sub access.Common.Int.◌+ℤ◌
    access.Common.Int.◌*ℤ◌ access.Common.Int.◌-ℤ◌ access.Profile.parse_timestamp
    access.Profile.validate_credentials access.Profile.validate_foundation access.Profile.violates
    access.Protocol.Identity.from_seed access.Session.Engine.new access.Session.Engine.random_nonce
    access.Session.Messages.handshake_claims access.Session.Messages.exchange
    access.Session.Messages.send_offer access.Session.Messages.send_proof
    access.Session.Messages.bind_proof access.Common.Text.format access.Tests.Fixtures.engine
    access.Tests.Fixtures.identity access.Tests.Fixtures.trusts access.Tests.entry
    access.Tests.index access.Tests.platform access.Tests.read_message access.Tests.read_signed
    access.Tests.split access.Tests.write_message access.Tests.claims_eq
    access.Tests.ProtocolClaims-discrete access.Protocol.Claims.AuthorizedStage-discrete
    access.Protocol.Claims.MessageType-discrete access.Common.Int.int_eq access.Common.Int.ℤ_dec
    access.Cedar.authorize access.Cedar.context native.Mathlib.Decide.ℕ_discrete
    access.Session.Request.request_transition access.Session.Stages.transition_for
    access.Session.Stages.transition_names access.Session.Request.after_profile
    access.Session.Request.after_policy access.Session.Request.issue_grant
    access.Session.Request.grant_claims access.Session.Answers.granted_outcome
    access.Session.Answers.refresh_event access.Session.Request.evaluate_stage
    access.Session.Request.authorize_stage access.Profile.evaluate access.Cedar.authorize_transition
    access.Common.Int.as_i64 access.Tests.Fixtures.readiness access.Session.Redeem.redeem_transition
    access.Session.Redeem.match_grant access.Session.Redeem.take_pending
    access.Protocol.Claims.stage_eq access.Session.Redeem.mismatches_request
    access.Session.Redeem.mismatches_rule access.Session.Redeem.redeemed_outcome
    access.Session.Redeem.release access.StateMachine.reduce
arrived_state = refl

arrived_past_hold : arrived.state ≢ hold
arrived_past_hold h = let clash : approach ≡ hold = sym arrived_state ∙ h in cc

reached :
    arrived
    ≡ run p operations (
        new p start.chaser start.station start.credential_issuer start.station_peer_trust
          start.chaser_peer_trust start.credential_trust start.gate_trust start.config)
unfolding arrived start engine new
reached = refl

run-protected_example :
    (session_id : String) × (arrived.session_id ≡ some session_id)
    × (arrived.authorization.session_authorized ≡ true)
    × (arrived.authorization.identity_verified ≡ true)
run-protected_example =
    run-protected p start.chaser start.station start.credential_issuer start.station_peer_trust
      start.chaser_peer_trust start.credential_trust start.gate_trust start.config operations
      arrived reached arrived_past_hold
