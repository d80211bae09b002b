-- ===== src/Services/Verifier.antt =====
-- rust/access_core/src/bin/access_entitlement_verifier.rs: the client's check of an entitlement.
pub mod Verified
pub mod Once
pub mod Trust
pub mod Accepts
pub mod Issued
use access.Common.{
  ℕ, ◌+◌, Bool, true, false, not, ◌||◌, ◌&&◌, Option, none, some, List, [], ◌∷◌, String, Bytes, any,
  unwrap_or, if◌then◌else◌, ◌==◌, ◌!=◌,
}
use access.Common.Tests.{string_eq, nat_eq, option_eq}
use access.Common.Int.{ℤ, ltb_ℤ}
use access.Common.Text.{format, trim, is_empty_text}
use access.Common.Result.{Result, ok, err, ◌>>=◌, ◌>>◌, ok_or, bail_if, map_err}
use access.Common.Exec
use access.Common.Exec.{Exec}
use access.Platform.{Platform}
use access.Protocol.Claims.{
  AuthorizedStage, MessageType, authorization_grant, message_type_eq, ProtocolClaims,
}
use access.Protocol.Identity.{TrustStore, trust_insert}
use access.Protocol.Envelope.{VerifiedEnvelope, verify_envelope}
use access.Protocol.Replay.{ReplayStateBackend, ReplayCache, persistent}
use access.Session.Outcomes.{max_clock_skew_s}
use access.Services.{Host, Input, Response, respond, decode_hex, timestamp, decode_key}
use access.Services.Errors.{protocol_error_text}

pub record SigningKeyRecord : Type 0 where
  pub key_id : String
  pub algorithm : String
  pub public_key_hex : String

pub record TrustedAuthority : Type 0 where
  pub authority_id : String
  pub signing_keys : List SigningKeyRecord

pub record ClientTrustBundle : Type 0 where
  pub bundle_id : String
  pub version : ℕ
  pub client_id : String
  pub valid_from : String
  pub valid_until : String
  pub trusted_authorities : List TrustedAuthority

pub record VerifyCommand : Type 0 where
  pub command : String
  pub entitlement_hex : Option String
  pub expected_authority : Option String
  pub expected_session_id : Option String
  pub expected_stage : Option String
  pub now_s : Option ℤ

pub record VerifiedEntitlement : Type 0 where
  pub verified : Bool
  pub trust_bundle_id : String
  pub trust_bundle_version : ℕ
  pub authority_id : String
  pub client_id : String
  pub grant_id : String
  pub session_id : String
  pub authorized_stage : String
  pub expires_at_s : ℤ
  pub protocol_profile_id : String
  pub protocol_profile_version : ℕ
  pub rule_id : String
  pub authorization_policy_bundle_id : String
  pub authorization_policy_bundle_version : ℕ
  pub authorization_policy_sha256 : String

-- `serde_json` at the two types that the verifier reads.
pub record VerifierJson : Type 0 where
  pub bundle_from_slice : Bytes → Result String ClientTrustBundle
  pub command_from_str : String → Result String VerifyCommand

-- `serde_json::to_value(stage)`, a text in snake case
abbrev pub stage_name : AuthorizedStage → String
stage_name AuthorizedStage.hold = "hold"
stage_name AuthorizedStage.approach = "approach"
stage_name AuthorizedStage.final_approach = "final_approach"
stage_name AuthorizedStage.soft_capture = "soft_capture"
stage_name AuthorizedStage.hard_dock = "hard_dock"

-- `ClientTrustBundle::trusts_authority`
unfoldable pub trusts_authority : ClientTrustBundle → String → String → Bool
trusts_authority self authority_id key_id =
    any
      (λ authority.
        authority.authority_id == authority_id
        && any (λ key. key.key_id == key_id) authority.signing_keys)
      self.trusted_authorities

module _ (p : Platform) (H : Host) where
  -- The inner loop of `trust_store`, over the keys of an authority, with its `store` and `count`.
  unfoldable pub add_keys :
      List SigningKeyRecord → TrustStore p → ℕ → Result String (TrustStore p × ℕ)
  add_keys [] store count = ok (store, count)
  add_keys (key ∷ rest) store count = do
    bail_if (key.algorithm != "Ed25519")
        (format ("unsupported entitlement algorithm: " ∷ key.algorithm ∷ []))
    verifying_key ← decode_key p H key.public_key_hex
    add_keys rest (trust_insert p store key.key_id verifying_key) (count + 1)

  -- The outer loop, over the authorities.
  unfoldable pub add_authorities :
      List TrustedAuthority → TrustStore p → ℕ → Result String (TrustStore p × ℕ)
  add_authorities [] store count = ok (store, count)
  add_authorities (authority ∷ rest) store count = do
    (store', count') ← add_keys authority.signing_keys store count
    add_authorities rest store' count'

  -- `ClientTrustBundle::trust_store`
  unfoldable pub trust_store : ClientTrustBundle → Result String (TrustStore p)
  trust_store self = do
    (store, count) ← add_authorities self.trusted_authorities [] 0
    bail_if (count == 0) "client trust bundle contains no authority signing keys"
    ok store

module _ (p : Platform) (H : Host) (J : VerifierJson) where
  -- `ClientTrustBundle::load`
  unfoldable pub load : String → ℤ → Result String ClientTrustBundle
  load path now_s = do
    bytes ← H.read path
    bundle ← J.bundle_from_slice bytes
    valid_from ← timestamp p H bundle.valid_from
    valid_until ← timestamp p H bundle.valid_until
    bail_if (ltb_ℤ now_s valid_from || ltb_ℤ valid_until now_s)
        "client trust bundle is outside its validity interval"
    bail_if (is_empty_text (trim bundle.bundle_id) || is_empty_text (trim bundle.client_id))
        "client trust bundle identifiers must not be empty"
    ok bundle

  -- The part of `verify_command` before the envelope is verified.
  unfoldable pub decode_command : String → Result String (VerifyCommand × Bytes)
  decode_command input = do
    command ← J.command_from_str input
    bail_if (command.command == "describe") "describe is not a verification command"
    bail_if (command.command != "verify_entitlement")
        (format ("unknown command: " ∷ command.command ∷ []))
    entitlement_hex ← ok_or command.entitlement_hex "entitlement_hex is required"
    encoded ← decode_hex p H entitlement_hex
    ok (command, encoded)

-- The answer to an entitlement that has passed its checks, if its claims name all that is answered.
unfoldable pub report :
    ClientTrustBundle
    → String
    → ProtocolClaims
    → ℤ
    → String
    → AuthorizedStage
    → Result String VerifiedEntitlement
report bundle signer claims expires_at_s session_id stage = do
  grant_id ← ok_or claims.grant_id "grant has no identifier"
  protocol_profile_id ← ok_or claims.protocol_profile_id "grant has no protocol profile"
  protocol_profile_version ←
      ok_or claims.protocol_profile_version "grant has no protocol profile version"
  rule_id ← ok_or claims.rule_id "grant has no rule binding"
  policy_id ←
      ok_or claims.authorization_policy_bundle_id
        "grant has no ACCESS authorization policy bundle binding"
  policy_version ←
      ok_or claims.authorization_policy_bundle_version
        "grant has no ACCESS authorization policy bundle version"
  policy_sha256 ←
      ok_or claims.authorization_policy_sha256 "grant has no ACCESS authorization policy digest"
  ok (record {
    verified = true;
    trust_bundle_id = bundle.bundle_id;
    trust_bundle_version = bundle.version;
    authority_id = signer;
    client_id = bundle.client_id;
    grant_id = grant_id;
    session_id = session_id;
    authorized_stage = stage_name stage;
    expires_at_s = expires_at_s;
    protocol_profile_id = protocol_profile_id;
    protocol_profile_version = protocol_profile_version;
    rule_id = rule_id;
    authorization_policy_bundle_id = policy_id;
    authorization_policy_bundle_version = policy_version;
    authorization_policy_sha256 = policy_sha256;
  })

-- The part after it: the claims against the command and the bundle.
unfoldable pub accept :
    VerifyCommand → ClientTrustBundle → ℤ → VerifiedEnvelope → Result String VerifiedEntitlement
unfolding report
accept command bundle now_s verified = do
  let claims = verified.claims
  bail_if (claims.message_type != authorization_grant)
      "message is not an ACCESS authorization grant"
  expected_authority ← ok_or command.expected_authority "expected_authority is required"
  bail_if
      (verified.signer != expected_authority
        || not (trusts_authority bundle expected_authority verified.signer))
      "entitlement issuer is not the expected trusted authority"
  expires_at_s ← ok_or claims.expires_at_s "grant has no expiry"
  bail_if (ltb_ℤ expires_at_s now_s) "grant is expired"
  session_id ← ok_or claims.session_id "grant has no session binding"
  bail_if (command.expected_session_id != some session_id)
      "grant session does not match the active ACCESS session"
  stage ← ok_or claims.authorized_stage "grant has no authorized stage"
  bail_if (command.expected_stage != some (stage_name stage))
      "grant stage does not match the requested operation"
  report bundle verified.signer claims expires_at_s session_id stage

module _ (p : Platform) (H : Host) (J : VerifierJson) {S : Type 0} (B : ReplayStateBackend S) where
  unfoldable pub verify_command :
      String
      → ClientTrustBundle
      → TrustStore p
      → ℤ
      → Exec String (ReplayCache S) VerifiedEntitlement
  unfolding Exec.◌>>=◌
  verify_command input bundle trust unix_time =
      Exec.◌>>=◌ (Exec.lift (decode_command p H J input)) λ (command, encoded).
        let now_s = unwrap_or unix_time command.now_s in
        Exec.◌>>=◌
          (Exec.zoom protocol_error_text (λ cache. cache) (λ cache _. cache)
            (verify_envelope p B encoded trust bundle.client_id now_s max_clock_skew_s))
          λ verified. Exec.lift (accept command bundle now_s verified)

  -- `main` up to its loop, of the two paths that it takes from the environment.
  unfoldable pub start :
      Option String
      → Option String
      → (String → Result String S)
      → ℤ
      → Result String (ClientTrustBundle × TrustStore p × ReplayCache S)
  unfolding load trust_store persistent
  start bundle_path replay_path open_journal now_s = do
    bundle ←
        load p H J (unwrap_or "config/access/simulation-client-trust-bundle.json" bundle_path) now_s
    trust ← trust_store p H bundle
    replay ← map_err protocol_error_text (
        persistent B open_journal
          (unwrap_or "state/access-client/consumed-entitlements.log" replay_path))
    ok (bundle, trust, replay)

  -- One round of the loop of `main`.
  unfoldable pub answer :
      ClientTrustBundle
      → TrustStore p
      → Input
      → ReplayCache S
      → Response VerifiedEntitlement × ReplayCache S
  unfolding respond
  answer bundle trust input cache = elim input.line [
    | ok line ↦
        let (result, cache') = verify_command line bundle trust input.unix_time cache in
        (respond result, cache')
    | err error ↦ (respond (err error), cache)
  ]

  -- The loop of `main`.
  unfoldable pub serve :
      ClientTrustBundle
      → TrustStore p
      → List Input
      → ReplayCache S
      → List (Response VerifiedEntitlement) × ReplayCache S
  unfolding answer
  serve bundle trust [] cache = ([], cache)
  serve bundle trust (input ∷ rest) cache =
      let (response, cache') = answer bundle trust input cache in
      let (responses, cache'') = serve bundle trust rest cache' in (response ∷ responses, cache'')
