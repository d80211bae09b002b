-- ===== src/Protocol/Replay/Accepts.antt =====
-- When a replay cache accepts an identifier.
use access.Common.{◌≡◌, refl, ◌↔◌, false, Option, none, some, List, String, Bytes, contains}
use access.Common.Tests.{bytes_eq}
use access.Common.Result.{Result, ok, err}
use access.Protocol.Replay.{ReplayStateBackend, ReplayCache, consume, commit, synced}
use access.Protocol.Replay.Once.{consume-eq-ok}

module _ {S : Type 0} (B : ReplayStateBackend S) (nonce : Bytes) where
  -- The identifier is new, and the backend, where there is one, commits it.
  pub record Accepts (c : ReplayCache S) : Type 0 where
    pub unused : contains c.consumed nonce ≡ false
    pub appends : (b : S) → c.backend ≡ some b → (B.append_and_sync nonce b).0 ≡ ok tt

  synced-appends :
      (old : List Bytes) (r : Result String (Unit {0}) × S) (c' : ReplayCache S)
      → synced B nonce old r ≡ (ok tt, c')
      → r.0 ≡ ok tt
  synced-appends old (ok _, b) c' h = refl
  synced-appends old (err e, b) c' h = cc

  commit-appends :
      (old : List Bytes) (backend : Option S) (c' : ReplayCache S)
      → commit B nonce old backend ≡ (ok tt, c')
      → (b : S) → backend ≡ some b
      → (B.append_and_sync nonce b).0 ≡ ok tt
  commit-appends old none c' h b e = cc
  commit-appends old (some a) c' h b e =
      let same : a ≡ b = cc in rw (← same) (synced-appends old (B.append_and_sync nonce a) c' h)

  appends-synced :
      (old : List Bytes) (r : Result String (Unit {0}) × S)
      → r.0 ≡ ok tt
      → (c' : ReplayCache S) × (synced B nonce old r ≡ (ok tt, c'))
  appends-synced old (ok _, b) h = (_, refl)
  appends-synced old (err e, b) h = cc

  appends-commit :
      (old : List Bytes) (backend : Option S)
      → ((b : S) → backend ≡ some b → (B.append_and_sync nonce b).0 ≡ ok tt)
      → (c' : ReplayCache S) × (commit B nonce old backend ≡ (ok tt, c'))
  appends-commit old none k = (_, refl)
  appends-commit old (some a) k = appends-synced old (B.append_and_sync nonce a) (k a refl)

  -- An identifier is consumed exactly when the cache accepts it.
  pub consume_iff :
      (c : ReplayCache S) → ((c' : ReplayCache S) × (consume B nonce c ≡ (ok tt, c'))) ↔ Accepts c
  unfolding consume
  consume_iff c = (
    λ (c', h).
        let unused = (consume-eq-ok B nonce c c' h).0 in
        record {
          unused = unused;
          appends = commit-appends c.consumed c.backend c' (rw unused at h);
        },
    λ k. rw (k.unused) (appends-commit c.consumed c.backend k.appends),
  )
