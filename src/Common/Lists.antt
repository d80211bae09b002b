-- ===== src/Common/Lists.antt =====
-- Lists measured by native numbers, the iterator methods of the source, and `HashMap` as an
-- association list.
use Prim.Native.Nat.{ℕ, zero, suc, ◌+◌}
use mathlib.Core.Path.{◌≡◌, refl, subst}
use mathlib.Core.Logic.{◌⊎◌, inl, inr}
use mathlib.Core.Bool.{Bool, true, false}
use mathlib.Core.Option.{Option, none, some, some-injective}
use mathlib.Core.List.{List, [], ◌∷◌, ◌++◌}
use native.Mathlib.Omega.{arith}
use access.Common.Tests.{Eq, ◌==◌, contains, if◌then◌else◌, Bool-cases}

module _ {ℓ} {A : Type ℓ} where
  abbrev pub length : List A → ℕ
  length [] = 0
  length (x ∷ xs) = suc (length xs)

  abbrev pub replicate : ℕ → A → List A
  replicate zero a = []
  replicate (suc n) a = a ∷ replicate n a

  abbrev pub is_empty : List A → Bool
  is_empty [] = true
  is_empty (_ ∷ _) = false

  -- `iter().any(test)`
  abbrev pub any : (A → Bool) → List A → Bool
  any test [] = false
  any test (x ∷ xs) = if test x then true else any test xs

  -- `iter().find(test)`
  abbrev pub find : (A → Bool) → List A → Option A
  find test [] = none
  find test (x ∷ xs) = if test x then some x else find test xs

  -- `iter().filter(test)`
  abbrev pub filter : (A → Bool) → List A → List A
  filter test [] = []
  filter test (x ∷ xs) = if test x then x ∷ filter test xs else filter test xs

  abbrev pub unwrap_or : A → Option A → A
  unwrap_or d none = d
  unwrap_or d (some a) = a

  abbrev pub All {κ} : (A → Type κ) → List A → Type κ
  All P [] = Unit
  All P (x ∷ xs) = P x × All P xs

  abbrev pub Any : (A → Type 0) → List A → Type 0
  Any P [] = ⊥
  Any P (x ∷ xs) = P x ⊎ Any P xs

  pub length-append : (xs ys : List A) → length (xs ++ ys) ≡ length xs + length ys
  length-append [] ys = omega arith
  length-append (x ∷ xs) ys = omega (arith, length-append xs ys)

  -- What `find` returns passes its test.
  pub find-test : (test : A → Bool) (xs : List A) (a : A) → find test xs ≡ some a → test a ≡ true
  find-test test [] a h = cc
  find-test test (x ∷ xs) a h = elim (Bool-cases (test x)) [
    | inl e ↦ let same : some x ≡ some a = rw e at h in ground arith
    | inr e ↦ find-test test xs a (rw e at h)
  ]

module _ {ℓ κ} {K : Type ℓ} ⦃e : Eq K⦄ {V : Type κ} where
  abbrev pub get : List (K × V) → K → Option V
  get [] k = none
  get ((j, v) ∷ m) k = if j == k then some v else get m k

  -- `insert` overwrites: the newest entry of a key hides the older ones.
  abbrev pub insert : List (K × V) → K → V → List (K × V)
  insert m k v = (k, v) ∷ m

  abbrev pub without : List (K × V) → K → List (K × V)
  without [] k = []
  without ((j, v) ∷ m) k = if j == k then without m k else (j, v) ∷ without m k

  pub get-without_self : (m : List (K × V)) (k : K) → get (without m k) k ≡ none
  get-without_self [] k = refl
  get-without_self ((j, v) ∷ m) k = ground (arith, get-without_self m k)

  pub get-without :
      (m : List (K × V)) (k j : K) → get (without m k) j ≡ (if k == j then none else get m j)
  get-without [] k j = ground arith
  get-without ((i, v) ∷ m) k j = ground (arith, get-without m k j)

  pub get-insert :
      (m : List (K × V)) (k j : K) (v : V)
      → get (insert m k v) j ≡ (if k == j then some v else get m j)
  get-insert m k j v = refl

  pub get-insert_self : (m : List (K × V)) (k : K) (v : V) → get (insert m k v) k ≡ some v
  get-insert_self m k v = ground arith

module _ {ℓ} {A : Type ℓ} ⦃e : Eq A⦄ where
  pub contains-cons_self : (a : A) (xs : List A) → contains (a ∷ xs) a ≡ true
  contains-cons_self a xs = ground arith

  pub contains-append :
      (xs ys : List A) (a : A)
      → contains (xs ++ ys) a ≡ (if contains xs a then true else contains ys a)
  contains-append [] ys a = refl
  contains-append (x ∷ xs) ys a = ground (arith, contains-append xs ys a)

eq_true : {K : Type 0} ⦃e : Eq K⦄ (j k : K) → j == k ≡ true → j ≡ k
eq_true j k h = ground arith

module _ {K V : Type 0} ⦃e : Eq K⦄ where
  -- What is found in a map is in it.
  pub get-All :
      (P : K × V → Type 0) (m : List (K × V)) (k : K) (v : V)
      → All P m
      → get m k ≡ some v
      → P (k, v)
  get-All P [] k v h found = cc
  get-All P ((j, w) ∷ m) k v (h, rest) found = elim (Bool-cases (j == k)) [
    | inl same ↦
        let one : some w ≡ some v = rw same at found in
        let both : (j, w) ≡ (k, v) = rw (eq_true j k same, some-injective _ _ one) refl in
        subst P both h
    | inr other ↦ get-All P m k v rest (rw other at found)
  ]
