-- ===== src/Tests/Protocol.antt =====
-- Messages, credentials and the replay cache, run on the fixtures.
use access.Common.{
  ℕ, ◌≤◌, ◌++◌, ◌≡◌, ◌≢◌, ◌↔◌, refl, true, false, Option, none, some, List, [], ◌∷◌, String, Bytes,
  get, contains, length, arith,
}
use access.Common.Tests.{string_eq, bytes_eq}
use access.Common.Int.{ℤ, pos, ◌≤ℤ◌, abs_diff, unsigned_abs}
use access.Common.Result.{ok}
use access.Common.Exec
use access.Platform.{Platform}
use access.Protocol.Claims.{
  ProtocolClaims, CredentialClaims, ProtocolError, invalid_envelope, replay, min_nonce_bytes,
}
use access.Protocol.Identity.{IdentityKey, TrustStore, IsSound}
use access.Protocol.Cose.{verify_signed_payload}
use access.Protocol.Credential.{issue_credential, verify_credential, credential_aad}
use access.Protocol.Credential.Laws.{IsValid, verify_credential_iff, issue_verify_round_trip}
use access.Protocol.Envelope.{
  VerifiedEnvelope, sign_envelope, check_envelope, verify_envelope, envelope_aad,
}
use access.Protocol.Envelope.Accepted.{
  IsChecked, check_envelope_iff, verify_envelope-IsChecked, verify_envelope_once,
}
use access.Protocol.Envelope.RoundTrip.{sign_verify_round_trip}
use access.Protocol.Replay.{ReplayStateBackend, ReplayCache, default_cache, consume}
use access.Protocol.Replay.Once.{after}
use access.Utf8.{as_bytes, from_utf8}
use access.Utf8.Laws.{from_utf8-as_bytes}
use access.Session.Establish.{certification_claims}
use access.Tests.{platform, platform-CoseLaws, platform-CborLaws}
use access.Tests.Fixtures.{now, nonce, grant, identity, trusts}

abbrev credential : CredentialClaims
unfolding certification_claims
credential = certification_claims "issuer" "chaser" now

abbrev p : Platform
p = platform (grant ∷ []) (credential ∷ [])

-- "station", the payload of the first message of the table, and the signature of key 2
abbrev signed_grant : Bytes
signed_grant = 7 ∷ (115 ∷ 116 ∷ 97 ∷ 116 ∷ 105 ∷ 111 ∷ 110 ∷ []) ++ (0 ∷ 2 ∷ [])

-- The same for "issuer" and key 3
abbrev signed_credential : Bytes
signed_credential = 6 ∷ (105 ∷ 115 ∷ 115 ∷ 117 ∷ 101 ∷ 114 ∷ []) ++ (0 ∷ 3 ∷ [])

unfoldable station : IdentityKey p
unfolding identity
station = identity (grant ∷ []) (credential ∷ []) "station" 2

unfoldable issuer : IdentityKey p
unfolding identity
issuer = identity (grant ∷ []) (credential ∷ []) "issuer" 3

unfoldable trust : TrustStore p
unfolding trusts
trust = trusts (grant ∷ []) (credential ∷ []) "station" 2

unfoldable issuers : TrustStore p
unfolding trusts
issuers = trusts (grant ∷ []) (credential ∷ []) "issuer" 3

abbrev verified : VerifiedEnvelope
verified = record { signer = "station"; claims = grant }

abbrev used : ReplayCache p.Backend
used = record { consumed = nonce 7 ∷ []; backend = none }

from_utf8-as_bytes_example : from_utf8 (as_bytes "añb") ≡ some "añb"
from_utf8-as_bytes_example = from_utf8-as_bytes "añb"

check_envelope_iff_example :
    (check_envelope p signed_grant trust "chaser" now (pos 30) ≡ ok verified)
    ↔ IsChecked p signed_grant trust "chaser" now (pos 30) verified
check_envelope_iff_example = check_envelope_iff p signed_grant trust "chaser" now (pos 30) verified

verifies :
    verify_envelope p p.backend signed_grant trust "chaser" now (pos 30) default_cache
    ≡ (ok verified, used)
unfolding Exec.◌>>=◌ Exec.lift Exec.pure station issuer trust issuers
    access.Protocol.Envelope.sign_envelope access.Protocol.Envelope.verify_envelope
    access.Protocol.Envelope.check_envelope access.Protocol.Envelope.consume_nonce
    access.Protocol.Credential.issue_credential access.Protocol.Cose.sign_payload
    access.Protocol.Cose.verify_signed_payload access.Utf8.as_bytes access.Utf8.from_utf8
    access.Utf8.encode_code access.Protocol.Cose.accepts access.Common.Int.abs_diff
    access.Protocol.Replay.consume access.Common.Tests.option_eq access.Common.Tests.option_dec
    access.Common.Tests.bytes_dec access.Common.Tests.bytes_eq access.Common.Tests.nat_eq
    access.Common.Tests.string_eq access.Common.Int.wrapping_add access.Common.Int.wrapping_sub
    access.Common.Int.◌+ℤ◌ access.Common.Int.◌-ℤ◌ access.Session.Establish.certification_claims
    access.Protocol.Identity.from_seed access.Tests.Fixtures.identity access.Tests.Fixtures.trusts
    access.Tests.entry access.Tests.index access.Tests.platform access.Tests.read_message
    access.Tests.read_signed access.Tests.split access.Tests.write_message access.Tests.claims_eq
    access.Tests.ProtocolClaims-discrete access.Tests.credential_eq
    access.Tests.CredentialClaims-discrete access.Protocol.Claims.AuthorizedStage-discrete
    access.Protocol.Claims.MessageType-discrete access.Common.Int.int_eq access.Common.Int.ℤ_dec
    native.Mathlib.Decide.ℕ_discrete
verifies = refl

verify_envelope-IsChecked_example :
    IsChecked p signed_grant trust "chaser" now (pos 30) verified
    × (contains {A = Bytes} [] (nonce 7) ≡ false)
    × (used.consumed ≡ nonce 7 ∷ [])
verify_envelope-IsChecked_example =
    verify_envelope-IsChecked p p.backend signed_grant trust "chaser" now (pos 30) default_cache
      used verified verifies

verify_envelope_once_example :
    verify_envelope p p.backend signed_grant trust "chaser" now
      (pos 30)
      (after p.backend used (nonce 1 ∷ []))
    ≢ (ok verified, used)
verify_envelope_once_example =
    verify_envelope_once p p.backend signed_grant trust trust "chaser" "chaser" now now (pos 30)
      (pos 30) default_cache used used verified verified (nonce 1 ∷ []) verifies

station-IsSound : IsSound p station
unfolding station issuer trust issuers access.Protocol.Identity.from_seed
    access.Tests.Fixtures.identity access.Tests.Fixtures.trusts access.Tests.platform
    access.Common.Tests.string_eq access.Common.Tests.bytes_eq access.Common.Tests.bytes_dec
    native.Mathlib.Decide.ℕ_discrete
station-IsSound message bytes h = let same : 2 ∷ [] ≡ bytes = cc in (bytes, refl, rw (← same) refl)

issuer-IsSound : IsSound p issuer
unfolding station issuer trust issuers access.Protocol.Identity.from_seed
    access.Tests.Fixtures.identity access.Tests.Fixtures.trusts access.Tests.platform
    access.Common.Tests.string_eq access.Common.Tests.bytes_eq access.Common.Tests.bytes_dec
    native.Mathlib.Decide.ℕ_discrete
issuer-IsSound message bytes h = let same : 3 ∷ [] ≡ bytes = cc in (bytes, refl, rw (← same) refl)

signs : sign_envelope p grant station ≡ ok signed_grant
unfolding Exec.◌>>=◌ Exec.lift Exec.pure station issuer trust issuers
    access.Protocol.Envelope.sign_envelope access.Protocol.Envelope.verify_envelope
    access.Protocol.Envelope.check_envelope access.Protocol.Envelope.consume_nonce
    access.Protocol.Credential.issue_credential access.Protocol.Cose.sign_payload
    access.Protocol.Cose.verify_signed_payload access.Utf8.as_bytes access.Utf8.from_utf8
    access.Utf8.encode_code access.Protocol.Cose.accepts access.Common.Int.abs_diff
    access.Protocol.Replay.consume access.Common.Tests.option_eq access.Common.Tests.option_dec
    access.Common.Tests.bytes_dec access.Common.Tests.bytes_eq access.Common.Tests.nat_eq
    access.Common.Tests.string_eq access.Common.Int.wrapping_add access.Common.Int.wrapping_sub
    access.Common.Int.◌+ℤ◌ access.Common.Int.◌-ℤ◌ access.Session.Establish.certification_claims
    access.Protocol.Identity.from_seed access.Tests.Fixtures.identity access.Tests.Fixtures.trusts
    access.Tests.entry access.Tests.index access.Tests.platform access.Tests.read_message
    access.Tests.read_signed access.Tests.split access.Tests.write_message access.Tests.claims_eq
    access.Tests.ProtocolClaims-discrete access.Tests.credential_eq
    access.Tests.CredentialClaims-discrete access.Protocol.Claims.AuthorizedStage-discrete
    access.Protocol.Claims.MessageType-discrete access.Common.Int.int_eq access.Common.Int.ℤ_dec
    native.Mathlib.Decide.ℕ_discrete
signs = refl

station_trusted : get trust station.key_id ≡ some station.verifying_key
unfolding station issuer trust issuers access.Protocol.Identity.from_seed
    access.Tests.Fixtures.identity access.Tests.Fixtures.trusts access.Tests.platform
    access.Common.Tests.string_eq access.Common.Tests.bytes_eq access.Common.Tests.bytes_dec
    native.Mathlib.Decide.ℕ_discrete
station_trusted = refl

within : abs_diff now grant.issued_at_s ≤ unsigned_abs (pos 30)
unfolding abs_diff
within = omega arith

sign_verify_round_trip_example :
    verify_envelope p p.backend signed_grant trust "chaser" now
      (pos 30)
      (record { consumed = []; backend = none })
    ≡ (
      ok (record { signer = station.key_id; claims = grant }),
      record { consumed = nonce 7 ∷ []; backend = none },
    )
sign_verify_round_trip_example =
    sign_verify_round_trip p (platform-CoseLaws (grant ∷ []) (credential ∷ []))
      (platform-CborLaws (grant ∷ []) (credential ∷ [])) station station-IsSound grant signed_grant
      p.backend trust now (pos 30) [] signs station_trusted within (omega arith) refl

verify_credential_iff_example :
    (verify_credential p signed_credential issuers "chaser" now ≡ ok credential)
    ↔ IsValid p signed_credential issuers "chaser" now credential
verify_credential_iff_example =
    verify_credential_iff p signed_credential issuers "chaser" now credential

issues : issue_credential p credential issuer ≡ ok signed_credential
unfolding Exec.◌>>=◌ Exec.lift Exec.pure station issuer trust issuers
    access.Protocol.Envelope.sign_envelope access.Protocol.Envelope.verify_envelope
    access.Protocol.Envelope.check_envelope access.Protocol.Envelope.consume_nonce
    access.Protocol.Credential.issue_credential access.Protocol.Cose.sign_payload
    access.Protocol.Cose.verify_signed_payload access.Utf8.as_bytes access.Utf8.from_utf8
    access.Utf8.encode_code access.Protocol.Cose.accepts access.Common.Int.abs_diff
    access.Protocol.Replay.consume access.Common.Tests.option_eq access.Common.Tests.option_dec
    access.Common.Tests.bytes_dec access.Common.Tests.bytes_eq access.Common.Tests.nat_eq
    access.Common.Tests.string_eq access.Common.Int.wrapping_add access.Common.Int.wrapping_sub
    access.Common.Int.◌+ℤ◌ access.Common.Int.◌-ℤ◌ access.Session.Establish.certification_claims
    access.Protocol.Identity.from_seed access.Tests.Fixtures.identity access.Tests.Fixtures.trusts
    access.Tests.entry access.Tests.index access.Tests.platform access.Tests.read_message
    access.Tests.read_signed access.Tests.split access.Tests.write_message access.Tests.claims_eq
    access.Tests.ProtocolClaims-discrete access.Tests.credential_eq
    access.Tests.CredentialClaims-discrete access.Protocol.Claims.AuthorizedStage-discrete
    access.Protocol.Claims.MessageType-discrete access.Common.Int.int_eq access.Common.Int.ℤ_dec
    native.Mathlib.Decide.ℕ_discrete
issues = refl

issuer_trusted : get issuers issuer.key_id ≡ some issuer.verifying_key
unfolding station issuer trust issuers access.Protocol.Identity.from_seed
    access.Tests.Fixtures.identity access.Tests.Fixtures.trusts access.Tests.platform
    access.Common.Tests.string_eq access.Common.Tests.bytes_eq access.Common.Tests.bytes_dec
    native.Mathlib.Decide.ℕ_discrete
issuer_trusted = refl

begun : credential.issued_at_s ≤ℤ now
unfolding credential certification_claims access.Common.Int.wrapping_sub access.Common.Int.◌-ℤ◌
    access.Common.Int.◌+ℤ◌
begun = ground arith

unexpired : now ≤ℤ credential.expires_at_s
unfolding credential certification_claims access.Common.Int.wrapping_add access.Common.Int.◌+ℤ◌
unexpired = ground arith

issue_verify_round_trip_example :
    verify_credential p signed_credential issuers "chaser" now ≡ ok credential
unfolding credential certification_claims
issue_verify_round_trip_example =
    issue_verify_round_trip p (platform-CoseLaws (grant ∷ []) (credential ∷ []))
      (platform-CborLaws (grant ∷ []) (credential ∷ [])) issuer issuer-IsSound credential
      signed_credential issuers now issues issuer_trusted begun unexpired
