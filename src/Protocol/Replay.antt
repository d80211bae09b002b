-- ===== src/Protocol/Replay.antt =====
-- rust/access_core/src/protocol.rs: `ReplayCache` and the interface of its durable backend.
pub mod Accepts
pub mod Once
pub mod Restart
pub mod Backed
use access.Common.{
  Bool, true, false, Option, none, some, List, [], ◌∷◌, String, Bytes, contains, if◌then◌else◌,
}
use access.Common.Result.{Result, ok, err, ◌>>=◌, map_err}
use access.Common.Tests.{bytes_eq}
use access.Protocol.Claims.{ProtocolError, replay, persistent_state}

-- A `dyn ReplayStateBackend` over its own state `S`: both methods take `&mut self`.
pub record ReplayStateBackend (S : Type 0) : Type 0 where
  pub load : S → Result String (List Bytes) × S
  pub append_and_sync : Bytes → S → Result String (Unit {0}) × S

pub record ReplayCache (S : Type 0) : Type 0 where
  pub consumed : List Bytes
  pub backend : Option S

abbrev pub default_cache : {S : Type 0} → ReplayCache S
default_cache = record { consumed = []; backend = none }

module _ {S : Type 0} (B : ReplayStateBackend S) where
  abbrev loaded : Result String (List Bytes) × S → Result ProtocolError (ReplayCache S)
  loaded (ok values, b) = ok (record { consumed = values; backend = some b })
  loaded (err e, b) = err (persistent_state e)

  -- `ReplayCache::with_backend`
  unfoldable pub with_backend : S → Result ProtocolError (ReplayCache S)
  with_backend b = loaded (B.load b)

  abbrev synced :
      Bytes
      → List Bytes
      → Result String (Unit {0}) × S
      → Result ProtocolError (Unit {0}) × ReplayCache S
  synced nonce old (ok _, b) = (ok tt, record { consumed = nonce ∷ old; backend = some b })
  synced nonce old (err e, b) =
      (err (persistent_state e), record { consumed = old; backend = some b })

  abbrev commit : Bytes → List Bytes → Option S → Result ProtocolError (Unit {0}) × ReplayCache S
  commit nonce old none = (ok tt, record { consumed = nonce ∷ old; backend = none })
  commit nonce old (some b) = synced nonce old (B.append_and_sync nonce b)

  -- `ReplayCache::consume`
  unfoldable pub consume : Bytes → ReplayCache S → Result ProtocolError (Unit {0}) × ReplayCache S
  consume nonce c =
      if contains c.consumed nonce then (err replay, c) else commit nonce c.consumed c.backend

-- `ReplayCache::persistent`, over the opening of a journal
unfoldable pub persistent :
    {S : Type 0}
    → ReplayStateBackend S
    → (String → Result String S)
    → String
    → Result ProtocolError (ReplayCache S)
unfolding with_backend
persistent B open_journal path = do
  backend ← map_err persistent_state (open_journal path)
  with_backend B backend

abbrev cleared : {S : Type 0} → List Bytes → Option S → List Bytes
cleared old none = []
cleared old (some b) = old

-- `ReplayCache::reset_ephemeral`
unfoldable pub reset_ephemeral : {S : Type 0} → ReplayCache S → ReplayCache S
reset_ephemeral c = record c { consumed = cleared c.consumed c.backend }
