-- ===== src/Services/Verifier/Trust.antt =====
-- The keys that the verifier trusts are the bundle's, and each of the bundle's has its place.
use access.Common.{
  ℕ, ◌+◌, ◌≡◌, refl, ap, subst, ◌⊎◌, inl, inr, Bool, true, false, ◌&&◌, some, List, [], ◌∷◌, String,
  Bytes, any, Any, All, get, length, ◌==◌, ◌!=◌, Bool-cases, arith,
}
use access.Common.Tests.{string_eq, nat_eq}
use access.Common.Result.{ok, ok-injective, try-then, bail_if-then, ok_or-then, ok_or-eq-ok}
use access.Platform.{Platform}
use access.Protocol.Identity.{TrustStore, trust_insert}
use access.Services.{Host, decode_key}
use access.Services.Verifier.{
  SigningKeyRecord, TrustedAuthority, ClientTrustBundle, trusts_authority, add_keys,
  add_authorities, trust_store,
}

and_right : (a b : Bool) → (a && b) ≡ true → b ≡ true
and_right a b h = ground arith

module _ (p : Platform) (H : Host) where
  -- The record is of this identifier and key: 32 bytes in hex, a point of the curve, and for
  -- Ed25519.
  pub record IsOf (id : String) (key : p.VerifyingKey) (r : SigningKeyRecord) : Type 0 where
    pub named : r.key_id ≡ id
    pub algorithm : r.algorithm ≡ "Ed25519"
    pub bytes : Bytes
    pub decoded : p.hex_decode r.public_key_hex ≡ some bytes
    pub sized : length bytes ≡ 32
    pub read : p.verifying_key_from_bytes bytes ≡ some key

  decode_key-IsOf :
      (r : SigningKeyRecord) (key : p.VerifyingKey)
      → r.algorithm != "Ed25519" ≡ false
      → decode_key p H r.public_key_hex ≡ ok key
      → IsOf r.key_id key r
  unfolding decode_key
  decode_key-IsOf r key a h = ok_or-then (p.hex_decode r.public_key_hex) _ _ h λ bytes decoded h1.
      bail_if-then (length bytes != 32) _ _ h1 λ sized h2. record {
        named = refl;
        algorithm = ground (arith, a);
        bytes = bytes;
        decoded = decoded;
        sized = ground (arith, sized);
        read = ok_or-eq-ok _ _ h2;
      }

  -- Some authority of the bundle has the key.
  abbrev pub IsListed : List TrustedAuthority → String × p.VerifyingKey → Type 0
  IsListed authorities (id, key) = Any (λ a. Any (IsOf id key) a.signing_keys) authorities

  module _ (P : String × p.VerifyingKey → Type 0) where
    -- Each entry that the keys add is of one of them.
    add_keys-All :
        (keys : List SigningKeyRecord) (store store' : TrustStore p) (n n' : ℕ)
        → ((id : String) (key : p.VerifyingKey) → Any (IsOf id key) keys → P (id, key))
        → All P store
        → add_keys p H keys store n ≡ ok (store', n')
        → All P store'
    unfolding add_keys
    add_keys-All [] store store' n n' listed h e =
        let same : store ≡ store' = ap (λ x. x.0) (ok-injective e) in subst (All P) same h
    add_keys-All (r ∷ rest) store store' n n' listed h e =
        bail_if-then (r.algorithm != "Ed25519") _ _ e λ algorithm e1.
          try-then (decode_key p H r.public_key_hex) _ e1 λ key decoded e2.
            add_keys-All rest (trust_insert p store r.key_id key) store' (n + 1) n'
              (λ id k m. listed id k (inr m))
              (listed r.key_id key (inl (decode_key-IsOf r key algorithm decoded)), h) e2

    add_authorities-All :
        (authorities : List TrustedAuthority) (store store' : TrustStore p) (n n' : ℕ)
        → ((id : String) (key : p.VerifyingKey) → IsListed authorities (id, key) → P (id, key))
        → All P store
        → add_authorities p H authorities store n ≡ ok (store', n')
        → All P store'
    unfolding add_authorities
    add_authorities-All [] store store' n n' listed h e =
        let same : store ≡ store' = ap (λ x. x.0) (ok-injective e) in subst (All P) same h
    add_authorities-All (a ∷ rest) store store' n n' listed h e =
        try-then (add_keys p H a.signing_keys store n) _ e λ (store1, n1) added e1.
          add_authorities-All rest store1 store' n1 n' (λ id k m. listed id k (inr m))
            (add_keys-All a.signing_keys store store1 n n1 (λ id k m. listed id k (inl m)) h added)
            e1

  -- An identifier that the store has keeps a key.
  abbrev pub IsKnown : TrustStore p → String → Type 0
  IsKnown store id = (key : p.VerifyingKey) × (get store id ≡ some key)

  IsKnown-trust_insert :
      (store : TrustStore p) (id other : String) (key : p.VerifyingKey)
      → IsKnown store other
      → IsKnown (trust_insert p store id key) other
  IsKnown-trust_insert store id other key (k, h) = elim (Bool-cases (id == other)) [
    | inl e ↦ (key, rw e refl)
    | inr e ↦ (k, rw e h)
  ]

  IsKnown-or_later :
      (r : SigningKeyRecord) (rest : List SigningKeyRecord) (store : TrustStore p)
      (key : p.VerifyingKey) (other : String)
      → (any (λ key. key.key_id == other) (r ∷ rest) ≡ true) ⊎ IsKnown store other
      → (any (λ key. key.key_id == other) rest ≡ true)
        ⊎ IsKnown (trust_insert p store r.key_id key) other
  IsKnown-or_later r rest store key other (inr h) =
      inr (IsKnown-trust_insert store r.key_id other key h)
  IsKnown-or_later r rest store key other (inl h) = elim (Bool-cases (r.key_id == other)) [
    | inl e ↦ inr (key, rw e refl)
    | inr e ↦ inl (rw e at h)
  ]

  add_keys-IsKnown :
      (other : String) (keys : List SigningKeyRecord) (store store' : TrustStore p) (n n' : ℕ)
      → add_keys p H keys store n ≡ ok (store', n')
      → (any (λ key. key.key_id == other) keys ≡ true) ⊎ IsKnown store other
      → IsKnown store' other
  unfolding add_keys
  add_keys-IsKnown other [] store store' n n' e (inl h) = cc
  add_keys-IsKnown other [] store store' n n' e (inr h) =
      subst (λ s. IsKnown s other) (ap (λ x. x.0) (ok-injective e)) h
  add_keys-IsKnown other (r ∷ rest) store store' n n' e h =
      bail_if-then (r.algorithm != "Ed25519") _ _ e λ _ e1.
        try-then (decode_key p H r.public_key_hex) _ e1 λ key decoded e2.
          add_keys-IsKnown other rest (trust_insert p store r.key_id key) store' (n + 1) n' e2
            (IsKnown-or_later r rest store key other h)

  add_authorities-IsKnown :
      (id other : String) (authorities : List TrustedAuthority) (store store' : TrustStore p)
      (n n' : ℕ)
      → add_authorities p H authorities store n ≡ ok (store', n')
      → (any
            (λ a. a.authority_id == id && any (λ key. key.key_id == other) a.signing_keys)
            authorities
          ≡ true)
        ⊎ IsKnown store other
      → IsKnown store' other
  unfolding add_authorities
  add_authorities-IsKnown id other [] store store' n n' e (inl h) = cc
  add_authorities-IsKnown id other [] store store' n n' e (inr h) =
      subst (λ s. IsKnown s other) (ap (λ x. x.0) (ok-injective e)) h
  add_authorities-IsKnown id other (a ∷ rest) store store' n n' e (inr h) =
      try-then (add_keys p H a.signing_keys store n) _ e λ (store1, n1) added e1.
        add_authorities-IsKnown id other rest store1 store' n1 n' e1
          (inr (add_keys-IsKnown other a.signing_keys store store1 n n1 added (inr h)))
  add_authorities-IsKnown id other (a ∷ rest) store store' n n' e (inl h) =
      try-then (add_keys p H a.signing_keys store n) _ e λ (store1, n1) added e1.
        let named = a.authority_id == id in
        let has = any (λ key. key.key_id == other) a.signing_keys in
        elim (Bool-cases (named && has)) [
          | inl here ↦ add_authorities-IsKnown id other rest store1 store' n1 n' e1 (
              inr (
                add_keys-IsKnown other a.signing_keys store store1 n n1 added
                  (inl (and_right named has here))))
          | inr later ↦
              add_authorities-IsKnown id other rest store1 store' n1 n' e1 (inl (rw later at h))
        ]

  -- Every key of the verifier's store is one that the bundle lists, an Ed25519 key of 32 bytes under
  -- its identifier; and every key identifier that the bundle gives an authority has a key in it.
  pub trust_store-All :
      (bundle : ClientTrustBundle) (store : TrustStore p)
      → trust_store p H bundle ≡ ok store
      → All (IsListed bundle.trusted_authorities) store
        × ((authority key : String)
            → trusts_authority bundle authority key ≡ true
            → IsKnown store key)
  unfolding trust_store trusts_authority
  trust_store-All bundle store e =
      try-then (add_authorities p H bundle.trusted_authorities [] 0) _ e λ (store1, n) added e1.
        bail_if-then (n == 0) _ _ e1 λ _ e2.
          let same = ok-injective e2 in
          let authorities = bundle.trusted_authorities in
          subst
            (λ s.
              All (IsListed authorities) s
              × ((authority key : String)
                  → trusts_authority bundle authority key ≡ true
                  → IsKnown s key))
            same
            (
              add_authorities-All (IsListed authorities) authorities [] store1 0 n (λ id key m. m)
                  tt added,
              λ authority key h.
                  add_authorities-IsKnown authority key authorities [] store1 0 n added (inl h),
            )
