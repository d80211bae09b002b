-- ===== src/Protocol/Replay/Once.antt =====
-- An identifier is accepted once.
use access.Common.{
  ◌≡◌, refl, inl, inr, true, false, Option, none, some, List, [], ◌∷◌, String, Bytes, contains,
  arith, Bool-cases,
}
use access.Common.Result.{Result, ok, err}
use access.Common.Tests.{bytes_eq}
use access.Protocol.Claims.{ProtocolError, replay}
use access.Protocol.Replay.{ReplayStateBackend, ReplayCache, consume, commit, synced}

module _ {S : Type 0} (B : ReplayStateBackend S) where
  abbrev pub Outcome : Bytes → List Bytes → Result ProtocolError (Unit {0}) × ReplayCache S → Type 0
  Outcome nonce old (ok _, c) = (contains old nonce ≡ false) × (c.consumed ≡ nonce ∷ old)
  Outcome nonce old (err e, c) = c.consumed ≡ old

  synced-Outcome :
      (nonce : Bytes) (old : List Bytes) (r : Result String (Unit {0}) × S)
      → contains old nonce ≡ false
      → Outcome nonce old (synced B nonce old r)
  synced-Outcome nonce old (ok _, b) h = (h, refl)
  synced-Outcome nonce old (err e, b) h = refl

  commit-Outcome :
      (nonce : Bytes) (old : List Bytes) (b : Option S)
      → contains old nonce ≡ false
      → Outcome nonce old (commit B nonce old b)
  commit-Outcome nonce old none h = (h, refl)
  commit-Outcome nonce old (some b) h = synced-Outcome nonce old (B.append_and_sync nonce b) h

  -- A consumption that succeeds was of an identifier not consumed before and records exactly it;
  -- one that fails, by replay or by the backend, leaves the consumed identifiers as they were.
  pub consume-Outcome :
      (nonce : Bytes) (c : ReplayCache S) → Outcome nonce c.consumed (consume B nonce c)
  unfolding consume
  consume-Outcome nonce c = elim (Bool-cases (contains c.consumed nonce)) [
    | inl e ↦ rw e refl
    | inr e ↦ rw e (commit-Outcome nonce c.consumed c.backend e)
  ]

  -- What is consumed is refused as a replay, and the cache stays as it is.
  pub consume-consumed :
      (nonce : Bytes) (c : ReplayCache S)
      → contains c.consumed nonce ≡ true
      → consume B nonce c ≡ (err replay, c)
  unfolding consume
  consume-consumed nonce c h = rw h

  pub consume-eq-ok :
      (nonce : Bytes) (c c' : ReplayCache S)
      → consume B nonce c ≡ (ok tt, c')
      → (contains c.consumed nonce ≡ false) × (c'.consumed ≡ nonce ∷ c.consumed)
  consume-eq-ok nonce c c' h = rw h at (consume-Outcome nonce c)

  mono-Outcome :
      (nonce other : Bytes) (old : List Bytes) (r : Result ProtocolError (Unit {0}) × ReplayCache S)
      → Outcome nonce old r
      → contains old other ≡ true
      → contains r.1.consumed other ≡ true
  mono-Outcome nonce other old (ok _, c) (h, e) k = rw e (ground arith)
  mono-Outcome nonce other old (err x, c) e k = rw e k

  pub contains-consume :
      (nonce other : Bytes) (c : ReplayCache S)
      → contains c.consumed other ≡ true
      → contains (consume B nonce c).1.consumed other ≡ true
  contains-consume nonce other c h =
      mono-Outcome nonce other c.consumed (consume B nonce c) (consume-Outcome nonce c) h

  -- The identifiers that a cache accepts of those presented to it, in order.
  pub accepted : ReplayCache S → List Bytes → List Bytes
  accepted c [] = []
  accepted c (nonce ∷ rest) =
      let (r, c') = consume B nonce c in
      let later = accepted c' rest in elim r [ ok _ ↦ nonce ∷ later | err _ ↦ later ]

  -- No identifier that a cache has consumed is among those that it accepts later.
  pub accepted_not_consumed :
      (m : Bytes) (c : ReplayCache S) (ns : List Bytes)
      → contains c.consumed m ≡ true
      → contains (accepted c ns) m ≡ false
  unfolding accepted
  accepted_not_consumed m c [] h = refl
  accepted_not_consumed m c (n ∷ ns) h =
      let later = accepted_not_consumed m (consume B n c).1 ns (contains-consume n m c h) in
      ground (arith, later, consume-Outcome n c)

  abbrev pub Distinct : List Bytes → Type 0
  Distinct [] = Unit
  Distinct (x ∷ xs) = (contains xs x ≡ false) × Distinct xs

  -- Of any sequence of identifiers presented to a cache, over whatever backend, those accepted are
  -- pairwise different.
  pub accepted-Distinct : (c : ReplayCache S) (ns : List Bytes) → Distinct (accepted c ns)
  unfolding accepted
  accepted-Distinct c [] = tt
  accepted-Distinct c (n ∷ ns) = ground (
    arith,
    accepted-Distinct (consume B n c).1 ns,
    accepted_not_consumed n (consume B n c).1 ns,
    consume-Outcome n c,
  )

  -- The cache after further identifiers were presented to it.
  unfoldable pub after : ReplayCache S → List Bytes → ReplayCache S
  after c [] = c
  after c (nonce ∷ rest) = after (consume B nonce c).1 rest

  pub contains-after :
      (c : ReplayCache S) (ns : List Bytes) (m : Bytes)
      → contains c.consumed m ≡ true
      → contains (after c ns).consumed m ≡ true
  unfolding after
  contains-after c [] m h = h
  contains-after c (n ∷ ns) m h = contains-after (consume B n c).1 ns m (contains-consume n m c h)

  synced_ok :
      (nonce : Bytes) (old : List Bytes) (r : Result String (Unit {0}) × S)
      → r.0 ≡ ok tt
      → (c : ReplayCache S) × (synced B nonce old r ≡ (ok tt, c))
  synced_ok nonce old (ok _, b) h = (record { consumed = nonce ∷ old; backend = some b }, refl)
  synced_ok nonce old (err e, b) h = cc

  commit_ok :
      (nonce : Bytes) (old : List Bytes) (backend : Option S)
      → ((b : S) → (B.append_and_sync nonce b).0 ≡ ok tt)
      → (c : ReplayCache S) × (commit B nonce old backend ≡ (ok tt, c))
  commit_ok nonce old none appends = (record { consumed = nonce ∷ old; backend = none }, refl)
  commit_ok nonce old (some b) appends = synced_ok nonce old (B.append_and_sync nonce b) (appends b)

  -- An unused identifier is consumed where the backend appends.
  pub consume_unused :
      (nonce : Bytes) (c : ReplayCache S)
      → ((b : S) → (B.append_and_sync nonce b).0 ≡ ok tt)
      → contains c.consumed nonce ≡ false
      → (c' : ReplayCache S) × (consume B nonce c ≡ (ok tt, c'))
  unfolding consume
  consume_unused nonce c appends unused =
      let (c', e) = commit_ok nonce c.consumed c.backend appends in (c', rw unused e)
