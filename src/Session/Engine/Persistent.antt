-- ===== src/Session/Engine/Persistent.antt =====
-- What the opening of the durable caches leaves alone.
use access.Common.{String}
use access.Common.Result.{Result, ok, err}
use access.Common.Exec.Keeps.{Keeps, Keeps-bind}
use access.Platform.{Platform}
use access.Protocol.Claims.{ProtocolError}
use access.Session.Engine.{AccessEngine, Cache, assign, enable_persistent_state}

module _ {p : Platform} (P : AccessEngine p → Type 0) where
  -- A predicate that no cache enters.
  pub record IsCacheless : Type 0 where
    pub station_replay :
        (c : Cache p) (e : AccessEngine p) → P e → P (record e { station_replay = c })
    pub chaser_replay :
        (c : Cache p) (e : AccessEngine p) → P e → P (record e { chaser_replay = c })
    pub gate_replay : (c : Cache p) (e : AccessEngine p) → P e → P (record e { gate_replay = c })
    pub consumed_grants :
        (c : Cache p) (e : AccessEngine p) → P e → P (record e { consumed_grants = c })

  Keeps-assign :
      (r : Result ProtocolError (Cache p)) (put : Cache p → AccessEngine p → AccessEngine p)
      → ((c : Cache p) (e : AccessEngine p) → P e → P (put c e))
      → Keeps P (assign p r put)
  unfolding assign
  Keeps-assign (ok cache) put k = record { at = λ e h. k cache e h }
  Keeps-assign (err error) put k = record { at = λ e h. h }

  pub Keeps-enable_persistent_state :
      (persistent : String → Result ProtocolError (Cache p))
      → IsCacheless
      → Keeps P (enable_persistent_state p persistent)
  unfolding enable_persistent_state
  Keeps-enable_persistent_state persistent k =
      Keeps-bind _ _ (Keeps-assign _ _ k.station_replay) λ _.
        Keeps-bind _ _ (Keeps-assign _ _ k.chaser_replay) λ _.
          Keeps-bind _ _ (Keeps-assign _ _ k.gate_replay) λ _. Keeps-assign _ _ k.consumed_grants
