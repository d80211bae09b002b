-- ===== src/Session/Engine/Frame.antt =====
-- What the handshake messages and the issue of a grant leave alone.
use access.Common.{suc, ◌≡◌, refl, arith}
use access.Common.Exec.{Exec}
use access.Common.Exec.Keeps.{Keeps, Keeps-zoom}
use access.Platform.{Platform}
use access.Protocol.Claims.{ProtocolError}
use access.Session.Engine.{AccessEngine, Cache, random_nonce, on_station_replay, on_chaser_replay}

module _ {p : Platform} where
  -- The configuration, the keys, the four trust stores and the session of an engine, and its
  -- protected state.
  pub record Frame (e0 e : AccessEngine p) : Type 0 where
    pub chaser : e.chaser ≡ e0.chaser
    pub station : e.station ≡ e0.station
    pub credential_issuer : e.credential_issuer ≡ e0.credential_issuer
    pub station_peer_trust : e.station_peer_trust ≡ e0.station_peer_trust
    pub chaser_peer_trust : e.chaser_peer_trust ≡ e0.chaser_peer_trust
    pub credential_trust : e.credential_trust ≡ e0.credential_trust
    pub gate_trust : e.gate_trust ≡ e0.gate_trust
    pub config : e.config ≡ e0.config
    pub state : e.state ≡ e0.state
    pub authorization : e.authorization ≡ e0.authorization
    pub session_id : e.session_id ≡ e0.session_id
    pub verified_credentials : e.verified_credentials ≡ e0.verified_credentials

  pub Frame-refl : (e : AccessEngine p) → Frame e e
  Frame-refl e = record {
    chaser = refl;
    station = refl;
    credential_issuer = refl;
    station_peer_trust = refl;
    chaser_peer_trust = refl;
    credential_trust = refl;
    gate_trust = refl;
    config = refl;
    state = refl;
    authorization = refl;
    session_id = refl;
    verified_credentials = refl;
  }

  -- A predicate that a message's caches and the random source do not enter.
  pub record IsLoose (P : AccessEngine p → Type 0) : Type 0 where
    pub station_replay :
        (c : Cache p) (e : AccessEngine p) → P e → P (record e { station_replay = c })
    pub chaser_replay :
        (c : Cache p) (e : AccessEngine p) → P e → P (record e { chaser_replay = c })
    pub fills : (e : AccessEngine p) → P e → P (record e { fills = suc e.fills })

  pub Frame-IsLoose : (e0 : AccessEngine p) → IsLoose (Frame e0)
  Frame-IsLoose e0 = record {
    station_replay = λ c e f. ground arith;
    chaser_replay = λ c e f. ground arith;
    fills = λ e f. ground arith;
  }

  module _ (P : AccessEngine p → Type 0) (loose : IsLoose P) where
    pub Keeps-random_nonce : Keeps P (random_nonce p)
    unfolding random_nonce
    Keeps-random_nonce = record { at = λ e h. loose.fills e h }

    pub Keeps-on_station_replay :
        {A : Type 0} (m : Exec ProtocolError (Cache p) A) → Keeps P (on_station_replay p m)
    Keeps-on_station_replay m = Keeps-zoom _ _ _ m loose.station_replay

    pub Keeps-on_chaser_replay :
        {A : Type 0} (m : Exec ProtocolError (Cache p) A) → Keeps P (on_chaser_replay p m)
    Keeps-on_chaser_replay m = Keeps-zoom _ _ _ m loose.chaser_replay
