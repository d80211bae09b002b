-- ===== src/Session/Engine.antt =====
-- rust/access_core/src/session.rs: the state of `AccessEngine`, and the operations that set it up.
pub mod Frame
pub mod Persistent
use access.Common.{
  ℕ, suc, Bool, true, false, Option, none, some, List, [], String, Bytes, replicate,
}
use access.Common.Int.{ℤ}
use access.Common.Result.{Result, ok, err, ok_or}
use access.Common.Exec.{Exec, pure, modify, zoom, ◌>>=◌, ◌>>◌}
use access.Platform.{Platform}
use access.Protocol.Claims.{ProtocolError}
use access.Protocol.Identity.{IdentityKey, TrustStore}
use access.Protocol.Replay.{ReplayCache, default_cache, reset_ephemeral}
use access.StateMachine.{DockingState, hold, AuthorizationContext, default_context}
use access.Profile.{ProtocolProfile, VerifiedCredentialEvidence}
use access.Cedar.{CedarPolicyEngine, AccessDecision}
use access.Session.Outcomes.{AccessScenario, nominal, SessionError, protocol, random_source}

-- `vec![0_u8; 32]`
abbrev pub empty_nonce : Bytes
empty_nonce = replicate 32 0

pub record PendingEntitlement : Type 0 where
  pub requested_state : ℕ
  pub authorization_decision : AccessDecision

module _ (p : Platform) where
  pub record AccessEngineConfig : Type 0 where
    pub protocol_profile : ProtocolProfile
    pub authorization_policy_engine : CedarPolicyEngine p
    pub trust_bundle_id : String
    pub trust_bundle_version : ℕ
    pub trust_bundle_issued_at_s : ℤ

  -- A replay cache over the backend of the platform.
  abbrev pub Cache : Type 0
  Cache = ReplayCache p.Backend

  -- `fills` counts the calls that the random source has had: its own state moves with each.
  pub record AccessEngine : Type 0 where
    pub chaser : IdentityKey p
    pub station : IdentityKey p
    pub credential_issuer : IdentityKey p
    pub station_peer_trust : TrustStore p
    pub chaser_peer_trust : TrustStore p
    pub credential_trust : TrustStore p
    pub gate_trust : TrustStore p
    pub station_replay : Cache
    pub chaser_replay : Cache
    pub gate_replay : Cache
    pub consumed_grants : Cache
    pub config : AccessEngineConfig
    pub state : DockingState
    pub authorization : AuthorizationContext
    pub session_id : Option String
    pub verified_credentials : List VerifiedCredentialEvidence
    pub holder_proof_at_s : Option ℤ
    pub pending_entitlements : List (String × PendingEntitlement)
    pub scenario : AccessScenario
    pub random_source : p.RandomSource
    pub fills : ℕ

  unfoldable pub new :
      IdentityKey p
      → IdentityKey p
      → IdentityKey p
      → TrustStore p
      → TrustStore p
      → TrustStore p
      → TrustStore p
      → AccessEngineConfig
      → AccessEngine
  new chaser station credential_issuer station_peer_trust chaser_peer_trust credential_trust
        gate_trust config =
      record {
        chaser = chaser;
        station = station;
        credential_issuer = credential_issuer;
        station_peer_trust = station_peer_trust;
        chaser_peer_trust = chaser_peer_trust;
        credential_trust = credential_trust;
        gate_trust = gate_trust;
        station_replay = default_cache;
        chaser_replay = default_cache;
        gate_replay = default_cache;
        consumed_grants = default_cache;
        config = config;
        state = hold;
        authorization = default_context;
        session_id = none;
        verified_credentials = [];
        holder_proof_at_s = none;
        pending_entitlements = [];
        scenario = nominal;
        random_source = p.os_random_source;
        fills = 0;
      }

  unfoldable pub with_random_source : p.RandomSource → AccessEngine → AccessEngine
  with_random_source source self = record self { random_source = source; fills = 0 }

  unfoldable pub set_replay_state : Cache → Cache → Cache → Cache → AccessEngine → AccessEngine
  set_replay_state station_replay chaser_replay gate_replay consumed_grants self = record self {
    station_replay = station_replay;
    chaser_replay = chaser_replay;
    gate_replay = gate_replay;
    consumed_grants = consumed_grants;
  }

  abbrev pub Method : Type 0 → Type 0
  Method A = Exec SessionError AccessEngine A

  -- A cache that could not be opened leaves the field that it was for.
  unfoldable pub assign :
      Result ProtocolError Cache → (Cache → AccessEngine → AccessEngine) → Method (Unit {0})
  assign (ok cache) put self = (ok tt, put cache self)
  assign (err e) put self = (err (protocol e), self)

  -- `persistent` opens the journal of a name in the state directory.
  unfoldable pub enable_persistent_state : (String → Result ProtocolError Cache) → Method (Unit {0})
  unfolding assign
  enable_persistent_state persistent = do
    assign (persistent "station-nonces.log") (λ c e. record e { station_replay = c })
    assign (persistent "chaser-nonces.log") (λ c e. record e { chaser_replay = c })
    assign (persistent "gate-nonces.log") (λ c e. record e { gate_replay = c })
    assign (persistent "consumed-grants.log") (λ c e. record e { consumed_grants = c })

  unfoldable pub reset : AccessEngine → AccessEngine
  reset self = record self {
    station_replay = reset_ephemeral self.station_replay;
    chaser_replay = reset_ephemeral self.chaser_replay;
    gate_replay = reset_ephemeral self.gate_replay;
    consumed_grants = reset_ephemeral self.consumed_grants;
    state = hold;
    authorization = default_context;
    session_id = none;
    verified_credentials = [];
    holder_proof_at_s = none;
    pending_entitlements = [];
  }

  unfoldable pub random_nonce : Method Bytes
  random_nonce self = (
    ok_or (p.fill self.random_source self.fills empty_nonce) random_source,
    record self { fills = suc self.fills },
  )

  -- A call with `&mut self.station_replay`, and so for the other caches.
  abbrev pub on_station_replay : {A : Type 0} → Exec ProtocolError Cache A → Method A
  on_station_replay =
      zoom protocol (λ (e : AccessEngine). e.station_replay)
        (λ c e. record e { station_replay = c })

  abbrev pub on_chaser_replay : {A : Type 0} → Exec ProtocolError Cache A → Method A
  on_chaser_replay =
      zoom protocol (λ (e : AccessEngine). e.chaser_replay) (λ c e. record e { chaser_replay = c })

  abbrev pub on_gate_replay : {A : Type 0} → Exec ProtocolError Cache A → Method A
  on_gate_replay =
      zoom protocol (λ (e : AccessEngine). e.gate_replay) (λ c e. record e { gate_replay = c })

  abbrev pub on_consumed_grants : {A : Type 0} → Exec ProtocolError Cache A → Method A
  on_consumed_grants =
      zoom protocol (λ (e : AccessEngine). e.consumed_grants)
        (λ c e. record e { consumed_grants = c })
