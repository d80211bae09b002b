-- ===== src/Services/Authority.antt =====
-- rust/access_core/src/bin/access_authority.rs: the authority, an engine behind a line protocol.
pub mod Setup
pub mod Refines
pub mod Started
pub mod Served
use access.Common.{
  ℕ, ◌+◌, Bool, true, false, not, ◌||◌, Option, none, some, List, [], ◌∷◌, String, Bytes, any,
  contains, filter, unwrap_or, if◌then◌else◌, ◌==◌,
}
use access.Common.Tests.{string_eq, nat_eq}
use access.Common.Int.{ℤ, ltb_ℤ}
use access.Common.Text.{format, trim, is_empty_text}
use access.Common.Result.{Result, ok, err, ◌>>=◌, ◌>>◌, ok_or, bail_if, map_err}
use access.Common.Exec
use access.Common.Exec.{Exec}
use access.Platform.{Platform}
use access.Utf8.{from_utf8}
use access.Protocol.Identity.{IdentityKey, TrustStore, trust_insert, from_signer}
use access.Protocol.Replay.{persistent}
use access.Profile.{ProtocolProfile, ReadinessEvidence}
use access.Cedar.{AccessPolicyMetadata, policy_error_text, from_source}
use access.Session.Outcomes.{
  AccessScenario, nominal, expired_credential, corridor_violation, latch_not_ready, SessionOutcome,
  TransitionOutcome, SessionError,
}
use access.Session.Engine.{AccessEngine, AccessEngineConfig, new, enable_persistent_state}
use access.Session.Establish.{establish_session}
use access.Session.Request.{request_transition}
use access.Session.Redeem.{redeem_transition}
use access.Services.{
  Host, Input, Response, respond, decode_hex, timestamp, decode_key, ProcessResult, not_started,
  write_failed, wait_failed, no_stdin, finished,
}
use access.Services.Errors.{session_error_text}

pub record TrustRecord : Type 0 where
  pub key_id : String
  pub public_key_hex : String
  pub scopes : List String

pub record TrustBundle : Type 0 where
  pub bundle_id : String
  pub version : ℕ
  pub issued_at : String
  pub keys : List TrustRecord

pub record AuthorizationPolicyBundle : Type 0 where
  pub bundle_id : String
  pub bundle_version : ℕ
  pub issued_at : String
  pub valid_until : String
  pub source_file : String

-- What the authority takes from the operating system besides files: a child process by command,
-- arguments and stdin; the replacement of ill-formed UTF-8; the opening of a journal.
pub record AuthorityOs (p : Platform) : Type 0 where
  pub run_process : String → List String → String → ProcessResult
  pub replace_invalid : Bytes → String
  pub open_journal : String → Result String p.Backend

unfoldable pub parse_scenario : String → Result String AccessScenario
parse_scenario value =
    if value == "" || value == "nominal"
    then ok nominal
    else if value == "expired_credential"
    then ok expired_credential
    else if value == "corridor_violation"
    then ok corridor_violation
    else if value == "latch_not_ready"
    then ok latch_not_ready
    else err (format ("unknown scenario: " ∷ value ∷ []))

-- The records of the keys with a scope.
abbrev pub keys_for : TrustBundle → String → List TrustRecord
keys_for self scope = filter (λ (key : TrustRecord). contains key.scopes scope) self.keys

-- The value of a response, before `serde_json::to_value`.
pub data Reply : Type 0 where
  description : ProtocolProfile → AccessPolicyMetadata → Reply
  session : SessionOutcome → Reply
  outcome : TransitionOutcome → Reply

module _ (p : Platform) where
  pub data Command : Type 0 where
    describe : Command
    establish : String → Option ℤ → Command
    transition : ℕ → Option ℤ → ReadinessEvidence p → Command
    redeem_entitlement : ℕ → String → Option ℤ → ReadinessEvidence p → Command

  -- `serde_json` at the four types that the authority reads.
  pub record AuthorityJson : Type 0 where
    pub trust_from_slice : Bytes → Result String TrustBundle
    pub policy_from_slice : Bytes → Result String AuthorizationPolicyBundle
    pub profile_from_slice : Bytes → Result String ProtocolProfile
    pub command_from_str : String → Result String Command

  abbrev pub on_engine :
      {A : Type 0} → Exec SessionError (AccessEngine p) A → Exec String (AccessEngine p) A
  on_engine = Exec.zoom session_error_text (λ e. e) (λ e _. e)

  -- The `match` of `handle_command`.
  unfoldable pub dispatch : Command → ℤ → Exec String (AccessEngine p) Reply
  unfolding parse_scenario
  dispatch describe unix_time =
      Exec.gets
        λ e. description e.config.protocol_profile e.config.authorization_policy_engine.metadata
  dispatch (establish scenario now_s) unix_time =
      Exec.◌>>=◌ (Exec.lift (parse_scenario scenario)) λ scenario'.
        Exec.◌>>=◌ (on_engine (establish_session p (unwrap_or unix_time now_s) scenario'))
          λ o. Exec.pure (session o)
  dispatch (transition requested_state now_s readiness) unix_time =
      Exec.◌>>=◌
        (on_engine (request_transition p requested_state (unwrap_or unix_time now_s) readiness))
        λ o. Exec.pure (outcome o)
  dispatch (redeem_entitlement requested_state entitlement_hex now_s readiness) unix_time =
      Exec.◌>>=◌
        (on_engine (
          redeem_transition p entitlement_hex requested_state (unwrap_or unix_time now_s)
            readiness))
        λ o. Exec.pure (outcome o)

  module _ (J : AuthorityJson) where
    unfoldable pub handle_command : String → ℤ → AccessEngine p → Response Reply × AccessEngine p
    unfolding dispatch respond
    handle_command input unix_time e =
        let (result, e') =
          Exec.◌>>=◌ (Exec.lift (J.command_from_str input)) (λ command. dispatch command unix_time)
            e in
        (respond result, e')

    -- One round of the loop of `main`.
    unfoldable pub answer : Input → AccessEngine p → Response Reply × AccessEngine p
    unfolding handle_command respond
    answer input e = elim input.line [
      | ok line ↦ handle_command line input.unix_time e
      | err error ↦ (respond (err error), e)
    ]

    -- The loop of `main`.
    unfoldable pub serve : List Input → AccessEngine p → List (Response Reply) × AccessEngine p
    unfolding answer
    serve [] e = ([], e)
    serve (input ∷ rest) e =
        let (response, e') = answer input e in
        let (responses, e'') = serve rest e' in (response ∷ responses, e'')
