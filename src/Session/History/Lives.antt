-- ===== src/Session/History/Lives.antt =====
-- The life of a gate: operations of its engine, and restarts of its process, which build a new engine
-- and open the journals that the old one left.
use access.Common.{◌≡◌, refl, ap, ◌∙◌, String, ◌==◌, if◌then◌else◌}
use access.Common.Tests.{string_eq}
use access.Common.Result.{Result, ok, err}
use access.Common.Exec.{bind-then}
use access.Platform.{Platform}
use access.Protocol.Claims.{ProtocolError}
use access.Protocol.Replay.Restart
use access.Session.Outcomes.{SessionError}
use access.Session.Engine.{AccessEngine, Cache, assign, enable_persistent_state}
use access.Session.History.{Operation, perform}

module _ (p : Platform) where
  -- The cache of a name, as a new process opens it from the journal of the engine's cache.
  unfoldable pub reopened : AccessEngine p → String → Result ProtocolError (Cache p)
  reopened e name =
      if name == "station-nonces.log"
      then Restart.restart p.backend e.station_replay
      else if name == "chaser-nonces.log"
      then Restart.restart p.backend e.chaser_replay
      else if name == "gate-nonces.log"
      then Restart.restart p.backend e.gate_replay
      else Restart.restart p.backend e.consumed_grants

  -- The engines that follow one: each operation, whatever it returns, leads to the engine that it
  -- leaves, and a restart to any new engine, of whatever configuration, with the journals opened.
  pub data Lives (e : AccessEngine p) : AccessEngine p → Type 0 where
    here : Lives e e
    performs : (f : AccessEngine p) (o : Operation p) → Lives e f → Lives e (perform p o f)
    restarts :
        (f built opened : AccessEngine p)
        → Lives e f
        → enable_persistent_state p (reopened f) built ≡ (ok tt, opened)
        → Lives e opened

module _ {p : Platform} where
  assign-eq-ok :
      (r : Result ProtocolError (Cache p)) (put : Cache p → AccessEngine p → AccessEngine p)
      (e e' : AccessEngine p)
      → assign p r put e ≡ (ok tt, e')
      → (c : Cache p) × (r ≡ ok c) × (put c e ≡ e')
  unfolding assign
  assign-eq-ok (ok c) put e e' h =
      (c, refl, ap (λ (x : Result SessionError (Unit {0}) × AccessEngine p). x.1) h)
  assign-eq-ok (err error) put e e' h = cc

  -- A process that has started has the gate's cache of the journal.
  pub reopened-gate :
      (e built opened : AccessEngine p)
      → enable_persistent_state p (reopened p e) built ≡ (ok tt, opened)
      → Restart.restart p.backend e.gate_replay ≡ ok opened.gate_replay
  unfolding enable_persistent_state reopened string_eq
  reopened-gate e built opened h = bind-then _ _ h λ _ s1 _ h1. bind-then _ _ h1 λ _ s2 _ h2.
      bind-then _ _ h2 λ _ s3 gate last.
        let (c, loaded, put) = assign-eq-ok _ _ s2 s3 gate in
        let (_, _, put') = assign-eq-ok _ _ s3 opened last in
        loaded
        ∙ ap ok (
            ap (λ (x : AccessEngine p). x.gate_replay) put
            ∙ ap (λ (x : AccessEngine p). x.gate_replay) put')
