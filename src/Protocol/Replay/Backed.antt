-- ===== src/Protocol/Replay/Backed.antt =====
-- A cache over a durable backend keeps what it has consumed, through a reset and through a restart
-- of the process.
use access.Common.{
  ◌≡◌, refl, ap, subst, ◌∙◌, inl, inr, true, Option, none, some, List, String, Bytes, contains,
  contains-cons_self, Bool-cases,
}
use access.Common.Result.{Result, ok, err, ok-injective}
use access.Common.Tests.{bytes_eq}
use access.Common.Exec.Keeps.{Keeps}
use access.Protocol.Claims.{ProtocolError}
use access.Protocol.Replay.{
  ReplayStateBackend, ReplayCache, consume, commit, synced, loaded, with_backend, reset_ephemeral,
}
use access.Protocol.Replay.Once.{consume-eq-ok, contains-consume}
use access.Protocol.Replay.Restart.{restart}

module _ {S : Type 0} where
  abbrev pub IsBacked : ReplayCache S → Type 0
  IsBacked c = (b : S) × (c.backend ≡ some b)

  module _ (B : ReplayStateBackend S) where
    -- Whatever is loaded from the backend has the identifier.
    abbrev pub IsCommitted : Bytes → S → Type 0
    IsCommitted nonce b = (vs : List Bytes) → (B.load b).0 ≡ ok vs → contains vs nonce ≡ true

    -- What the trait documents: an identifier is durably committed before success is returned. It
    -- then stays, whatever is loaded or appended later, and whether that append succeeds or fails. The
    -- file of Protocol.Journal is such a backend only while no failed write has left text without a
    -- newline in it.
    pub record IsLasting : Type 0 where
      pub commits :
          (nonce : Bytes) (b b' : S)
          → B.append_and_sync nonce b ≡ (ok tt, b')
          → IsCommitted nonce b'
      pub appends :
          (nonce other : Bytes) (b : S)
          → IsCommitted nonce b
          → IsCommitted nonce (B.append_and_sync other b).1
      pub loads : (nonce : Bytes) (b : S) → IsCommitted nonce b → IsCommitted nonce (B.load b).1

    -- The cache has consumed the identifier, and its backend has committed it.
    pub record IsSpent (nonce : Bytes) (c : ReplayCache S) : Type 0 where
      pub store : S
      pub stored : c.backend ≡ some store
      pub committed : IsCommitted nonce store
      pub spent : contains c.consumed nonce ≡ true

    reset_backed :
        (old : List Bytes) (backend : Option S) (b : S)
        → backend ≡ some b
        → (reset_ephemeral (record { consumed = old; backend = backend })).consumed ≡ old
    unfolding reset_ephemeral
    reset_backed old none b h = cc
    reset_backed old (some a) b h = refl

    reset_stored :
        (c : ReplayCache S) (b : S) → c.backend ≡ some b → (reset_ephemeral c).backend ≡ some b
    unfolding reset_ephemeral
    reset_stored c b h = h

    pub reset_ephemeral-IsSpent :
        (nonce : Bytes) (c : ReplayCache S) → IsSpent nonce c → IsSpent nonce (reset_ephemeral c)
    reset_ephemeral-IsSpent nonce c k = record {
      store = k.store;
      stored = reset_stored c k.store k.stored;
      committed = k.committed;
      spent =
          ap (λ old. contains old nonce) (reset_backed c.consumed c.backend k.store k.stored)
          ∙ k.spent;
    }

    loaded-eq-ok :
        (x : Result String (List Bytes) × S) (r : ReplayCache S)
        → loaded B x ≡ ok r
        → (vs : List Bytes) × (x.0 ≡ ok vs) × (record { consumed = vs; backend = some (x.1) } ≡ r)
    loaded-eq-ok (ok values, b) r h = (values, refl, ok-injective h)
    loaded-eq-ok (err e, b) r h = cc

    module _ (D : IsLasting) where
      with_backend-IsSpent :
          (nonce : Bytes) (b : S) (r : ReplayCache S)
          → IsCommitted nonce b
          → with_backend B b ≡ ok r
          → IsSpent nonce r
      unfolding with_backend
      with_backend-IsSpent nonce b r h made =
          let (vs, read, same) = loaded-eq-ok (B.load b) r made in
          subst (IsSpent nonce) same (record {
            store = (B.load b).1;
            stored = refl;
            committed = D.loads nonce b h;
            spent = h vs read;
          })

      -- A process that starts again from the journal of a cache has what the cache had consumed.
      pub restart-IsSpent :
          (nonce : Bytes) (c r : ReplayCache S)
          → IsSpent nonce c
          → restart B c ≡ ok r
          → IsSpent nonce r
      unfolding restart
      restart-IsSpent nonce c r k h =
          with_backend-IsSpent nonce k.store r k.committed (rw k.stored at h)

      synced-stored :
          (nonce : Bytes) (old : List Bytes) (x : Result String (Unit {0}) × S)
          → (synced B nonce old x).1.backend ≡ some (x.1)
      synced-stored nonce old (ok _, b) = refl
      synced-stored nonce old (err e, b) = refl

      commit-stored :
          (nonce : Bytes) (old : List Bytes) (backend : Option S) (b : S)
          → backend ≡ some b
          → (commit B nonce old backend).1.backend ≡ some (B.append_and_sync nonce b).1
      commit-stored nonce old none b h = cc
      commit-stored nonce old (some a) b h =
          let same : a ≡ b = cc in rw (← same) (synced-stored nonce old (B.append_and_sync nonce a))

      -- Whatever is presented to the cache, accepted or not, a spent identifier stays spent.
      consume-IsSpent :
          (spent nonce : Bytes) (c : ReplayCache S)
          → IsSpent spent c
          → IsSpent spent (consume B nonce c).1
      unfolding consume
      consume-IsSpent spent nonce c k = elim (Bool-cases (contains c.consumed nonce)) [
        | inl e ↦ rw e k
        | inr e ↦ record {
          store = (B.append_and_sync nonce k.store).1;
          stored = rw e (commit-stored nonce c.consumed c.backend k.store k.stored);
          committed = D.appends spent nonce k.store k.committed;
          spent = contains-consume B nonce spent c k.spent;
        }
      ]

      pub Keeps-consume-IsSpent : (spent nonce : Bytes) → Keeps (IsSpent spent) (consume B nonce)
      Keeps-consume-IsSpent spent nonce = record { at = consume-IsSpent spent nonce }

      synced-commits :
          (nonce : Bytes) (old : List Bytes) (b : S) (x : Result String (Unit {0}) × S)
          (c' : ReplayCache S)
          → B.append_and_sync nonce b ≡ x
          → synced B nonce old x ≡ (ok tt, c')
          → IsSpent nonce c'
      synced-commits nonce old b (ok _, b') c' h k =
          subst (IsSpent nonce)
            (ap (λ (y : Result ProtocolError (Unit {0}) × ReplayCache S). y.1) k)
            (record {
              store = b';
              stored = refl;
              committed = D.commits nonce b b' h;
              spent = contains-cons_self nonce old;
            })
      synced-commits nonce old b (err e, b') c' h k = cc

      commit-commits :
          (nonce : Bytes) (old : List Bytes) (backend : Option S) (c' : ReplayCache S)
          → ((b : S) × (backend ≡ some b))
          → commit B nonce old backend ≡ (ok tt, c')
          → IsSpent nonce c'
      commit-commits nonce old none c' (b, e) h = cc
      commit-commits nonce old (some a) c' (b, e) h =
          synced-commits nonce old a (B.append_and_sync nonce a) c' refl h

      -- An identifier that a durable cache accepts is spent.
      pub consumed-IsSpent :
          (nonce : Bytes) (c c' : ReplayCache S)
          → IsBacked c
          → consume B nonce c ≡ (ok tt, c')
          → IsSpent nonce c'
      unfolding consume
      consumed-IsSpent nonce c c' backed h =
          let unused = (consume-eq-ok B nonce c c' h).0 in
          commit-commits nonce c.consumed c.backend c' backed (rw unused at h)
