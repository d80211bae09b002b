-- ===== src/Services/Authority/Setup.antt =====
-- rust/access_core/src/bin/access_authority.rs: the configuration that `main` reads, and the engine
-- that it builds of it.
use access.Common.{
  ℕ, ◌+◌, true, false, ◌||◌, Option, none, some, List, [], ◌∷◌, String, Bytes, unwrap_or, ◌==◌,
}
use access.Common.Tests.{string_eq, nat_eq}
use access.Common.Int.{ℤ, ltb_ℤ}
use access.Common.Text.{format, trim, is_empty_text}
use access.Common.Result.{Result, ok, err, ◌>>=◌, ◌>>◌, bail_if, map_err}
use access.Platform.{Platform}
use access.Utf8.{from_utf8}
use access.Protocol.Identity.{IdentityKey, TrustStore, trust_insert, from_signer}
use access.Protocol.Replay.{persistent}
use access.Cedar.{policy_error_text, from_source}
use access.Session.Engine.{AccessEngine, new, enable_persistent_state}
use access.Services.{
  Host, decode_hex, timestamp, decode_key, ProcessResult, not_started, write_failed, wait_failed,
  no_stdin, finished,
}
use access.Services.Errors.{session_error_text}
use access.Services.Authority.{
  TrustRecord, TrustBundle, AuthorizationPolicyBundle, AuthorityOs, AuthorityJson, keys_for,
}

-- `env_path`, of the value of the variable
abbrev pub env_path : Option String → String → String
env_path value default = unwrap_or default value

-- The environment variables of `main`, and `default_signer_command()`.
pub record Environment : Type 0 where
  pub identities_file : Option String
  pub signer_command : Option String
  pub trust_bundle_file : Option String
  pub protocol_profile_file : Option String
  pub authorization_policy_bundle_file : Option String
  pub state_dir : Option String
  pub default_signer_command : String

-- `let [record] = records.as_slice() else { … }`
abbrev pub only : {A : Type 0} → List A → String → Result String A
only (a ∷ []) error = ok a
only _ error = err error

module _ (p : Platform) (H : Host) (O : AuthorityOs p) where
  -- `String::from_utf8_lossy`
  abbrev pub from_utf8_lossy : Bytes → String
  from_utf8_lossy bytes = elim (from_utf8 bytes) [ none ↦ O.replace_invalid bytes | some s ↦ s ]

  -- What `ExternalSigner::sign` makes of how the process ended.
  unfoldable pub signature_of : String → ProcessResult → Result String Bytes
  signature_of role (not_started error) =
      err (format ("could not start " ∷ role ∷ " signer: " ∷ error ∷ []))
  signature_of role no_stdin = err "signer stdin unavailable"
  signature_of role (write_failed error) =
      err (format ("could not write signer request: " ∷ error ∷ []))
  signature_of role (wait_failed error) = err (format ("signer process failed: " ∷ error ∷ []))
  signature_of role (finished false stdout stderr) = err (trim (from_utf8_lossy stderr))
  signature_of role (finished true stdout stderr) =
      map_err (λ error. format ("signer returned invalid signature encoding: " ∷ error ∷ []))
        (decode_hex p H (trim (from_utf8_lossy stdout)))

  -- `ExternalSigner::sign`, of the signer's command, role and identities path
  unfoldable pub external_sign : String → String → String → Bytes → Result String Bytes
  unfolding signature_of
  external_sign command role identities_path payload = signature_of role (
      O.run_process command ("--role" ∷ role ∷ "--identities-file" ∷ identities_path ∷ [])
        (p.hex_encode payload))

  -- The loop of `TrustBundle::store_for`, with its `store` and `count`.
  unfoldable pub add_records :
      List TrustRecord → TrustStore p → ℕ → Result String (TrustStore p × ℕ)
  add_records [] store count = ok (store, count)
  add_records (record' ∷ rest) store count = do
    verifying_key ← decode_key p H record'.public_key_hex
    add_records rest (trust_insert p store record'.key_id verifying_key) (count + 1)

  -- `TrustBundle::store_for`
  unfoldable pub store_for : TrustBundle → String → Result String (TrustStore p)
  unfolding add_records
  store_for self scope = do
    (store, count) ← add_records (keys_for self scope) [] 0
    bail_if (count == 0) (format ("trust bundle has no keys for scope: " ∷ scope ∷ []))
    ok store

  -- `TrustBundle::external_identity`
  unfoldable pub external_identity :
      TrustBundle → String → String → String → String → Result String (IdentityKey p)
  external_identity self scope role command identities_path = do
    record' ←
        only (keys_for self scope)
          (format ("trust scope must contain exactly one key: " ∷ scope ∷ []))
    verifying_key ← decode_key p H record'.public_key_hex
    ok (from_signer p record'.key_id verifying_key (external_sign command role identities_path))

  module _ (J : AuthorityJson p) where
    -- `TrustBundle::load`
    unfoldable pub load_trust : String → Result String TrustBundle
    load_trust path = do
      bytes ← H.read path
      bundle ← J.trust_from_slice bytes
      bail_if (is_empty_text (trim bundle.bundle_id)) "trust bundle_id must not be empty"
      ok bundle

    -- `AuthorizationPolicyBundle::load`
    unfoldable pub load_policy : String → ℤ → Result String (AuthorizationPolicyBundle × String)
    load_policy path now_s = do
      bytes ← H.read path
      bundle ← J.policy_from_slice bytes
      issued_at ← timestamp p H bundle.issued_at
      valid_until ← timestamp p H bundle.valid_until
      bail_if (ltb_ℤ now_s issued_at || ltb_ℤ valid_until now_s)
          "ACCESS authorization policy bundle is outside its validity interval"
      source ← H.read_to_string bundle.source_file
      ok (bundle, source)

    -- The engine of `main`, before its journals are opened.
    unfoldable pub build_engine : Environment → ℤ → Result String (AccessEngine p)
    unfolding load_trust load_policy store_for external_identity
    build_engine env now_s = do
      let identity_path = env_path env.identities_file "config/access/simulation-identities.json"
      let signer_command = env_path env.signer_command env.default_signer_command
      trust ←
          load_trust (env_path env.trust_bundle_file "config/access/simulation-trust-bundle.json")
      profile_bytes ←
          H.read (env_path env.protocol_profile_file "config/access/access-protocol-profile.json")
      protocol_profile ← J.profile_from_slice profile_bytes
      (bundle, source) ←
          load_policy
            (env_path env.authorization_policy_bundle_file
              "config/access/access-authorization-policy-bundle.json")
            now_s
      policy_engine ←
          map_err policy_error_text (from_source p bundle.bundle_id bundle.bundle_version source)
      issued_at_s ← timestamp p H trust.issued_at
      chaser ← external_identity trust "station_peer" "chaser" signer_command identity_path
      station ← external_identity trust "chaser_peer" "station" signer_command identity_path
      issuer ←
          external_identity trust "credential_issuer" "credential_issuer" signer_command
            identity_path
      station_peer_trust ← store_for trust "station_peer"
      chaser_peer_trust ← store_for trust "chaser_peer"
      credential_trust ← store_for trust "credential_issuer"
      gate_trust ← store_for trust "transition_gate"
      ok (
          new p chaser station issuer station_peer_trust chaser_peer_trust credential_trust
            gate_trust
            (record {
              protocol_profile = protocol_profile;
              authorization_policy_engine = policy_engine;
              trust_bundle_id = trust.bundle_id;
              trust_bundle_version = trust.version;
              trust_bundle_issued_at_s = issued_at_s;
            }))

    -- `state_dir.join(name)`
    abbrev pub journal_path : Environment → String → String
    journal_path env name =
        format (env_path env.state_dir "state/access-authority" ∷ "/" ∷ name ∷ [])

    -- The result of a set-up step on the engine, with the engine after it.
    abbrev pub ready : Result String (Unit {0}) → AccessEngine p → Result String (AccessEngine p)
    ready (ok _) e = ok e
    ready (err error) e = err error

    -- `main` up to its loop.
    unfoldable pub start : Environment → ℤ → Result String (AccessEngine p)
    unfolding build_engine
    start env now_s = do
      built ← build_engine env now_s
      let (result, opened) =
          enable_persistent_state p
            (λ name. persistent p.backend O.open_journal (journal_path env name)) built
      ready (map_err session_error_text result) opened
