-- ===== src/Protocol/Replay/Restart.antt =====
-- A durable backend carries the consumed identifiers over a restart.
use access.Common.{
  ◌≡◌, refl, true, none, some, List, [], ◌∷◌, ◌++◌, Bytes, contains, arith, contains-append,
}
use access.Common.Result.{Result, ok, err}
use access.Common.Tests.{bytes_eq}
use access.Protocol.Claims.{ProtocolError, replay}
use access.Protocol.Replay.{
  ReplayStateBackend, ReplayCache, default_cache, with_backend, consume, commit,
}
use access.Protocol.Replay.Once.{consume-consumed, consume-eq-ok}

module _ {S : Type 0} (B : ReplayStateBackend S) where
  -- What the interface documents: success means that the identifier is durably committed.
  pub record IsDurable : Type 0 where
    pub load-append :
        (v : Bytes) (s s' : S) (vs : List Bytes)
        → (B.load s).0 ≡ ok vs
        → B.append_and_sync v s ≡ (ok tt, s')
        → (B.load s').0 ≡ ok (vs ++ v ∷ [])

  -- The cache that a new process builds from the state that the old one left.
  unfoldable pub restart : ReplayCache S → Result ProtocolError (ReplayCache S)
  unfolding with_backend
  restart c = elim c.backend [ none ↦ ok default_cache | some b ↦ with_backend B b ]

  -- The journal holds all that the cache has consumed.
  pub record IsSynced (c : ReplayCache S) : Type 0 where
    pub store : S
    pub stored : c.backend ≡ some store
    pub journal : List Bytes
    pub loads : (B.load store).0 ≡ ok journal
    pub covers : (m : Bytes) → contains c.consumed m ≡ true → contains journal m ≡ true

  with_backend-eq-ok :
      (b : S) (vs : List Bytes)
      → (B.load b).0 ≡ ok vs
      → (r : ReplayCache S) × (with_backend B b ≡ ok r)
        × (r.consumed ≡ vs)
        × (r.backend ≡ some (B.load b).1)
  unfolding with_backend
  with_backend-eq-ok b vs h =
      (record { consumed = vs; backend = some (B.load b).1 }, ground arith, refl, refl)

  -- After a restart, an identifier that a synced cache has consumed is refused as a replay.
  pub restart_refuses :
      (c : ReplayCache S) (m : Bytes)
      → IsSynced c
      → contains c.consumed m ≡ true
      → (r : ReplayCache S) × (restart c ≡ ok r) × (consume B m r ≡ (err replay, r))
  unfolding restart
  restart_refuses c m v h =
      let (r, made, same, _) = with_backend-eq-ok v.store v.journal v.loads in
      (r, rw (v.stored, restart) made, consume-consumed B m r (rw same (v.covers m h)))

  module _ (D : IsDurable) where
    commit-some :
        (nonce : Bytes) (old : List Bytes) (b : S) (c' : ReplayCache S)
        → commit B nonce old (some b) ≡ (ok tt, c')
        → (b' : S) × (B.append_and_sync nonce b ≡ (ok tt, b')) × (c'.backend ≡ some b')
    commit-some nonce old b c' h = ((B.append_and_sync nonce b).1, ground arith, ground arith)

    consume_appends :
        (nonce : Bytes) (c c' : ReplayCache S) (b : S)
        → c.backend ≡ some b
        → consume B nonce c ≡ (ok tt, c')
        → (b' : S) × (B.append_and_sync nonce b ≡ (ok tt, b')) × (c'.backend ≡ some b')
    unfolding consume
    consume_appends nonce c c' b e h = commit-some nonce c.consumed b c' (ground arith)

    -- A successful consumption keeps the journal in step with the cache.
    pub consume-IsSynced :
        (nonce : Bytes) (c c' : ReplayCache S)
        → IsSynced c
        → consume B nonce c ≡ (ok tt, c')
        → IsSynced c'
    consume-IsSynced nonce c c' v h =
        let (b', appended, stored) = consume_appends nonce c c' v.store v.stored h in
        let grown = (consume-eq-ok B nonce c c' h).1 in
        record {
          store = b';
          stored = stored;
          journal = v.journal ++ nonce ∷ [];
          loads = D.load-append nonce v.store b' v.journal v.loads appended;
          covers = λ m k.
              rw (contains-append v.journal (nonce ∷ []) m) (ground (arith, grown, v.covers m));
        }

    -- When a synced cache over a durable backend has accepted an identifier, a restart succeeds, and
    -- the new cache refuses as a replay that identifier and every one consumed before it.
    pub restart_after_consume :
        (nonce m : Bytes) (c c' : ReplayCache S)
        → IsSynced c
        → consume B nonce c ≡ (ok tt, c')
        → contains (nonce ∷ c.consumed) m ≡ true
        → (r : ReplayCache S) × (restart c' ≡ ok r) × (consume B m r ≡ (err replay, r))
    restart_after_consume nonce m c c' v h k =
        let grown = (consume-eq-ok B nonce c c' h).1 in
        restart_refuses c' m (consume-IsSynced nonce c c' v h) (rw grown k)
