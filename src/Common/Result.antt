-- ===== src/Common/Result.antt =====
-- Rust's `Result<A, E>` and the `?` operator.
use mathlib.Core.Path.{◌≡◌, refl}
use mathlib.Core.Logic.{◌⊎◌, inl, inr}
use mathlib.Core.Bool.{Bool, true, false}
use mathlib.Core.Option.{Option, none, some}
use mathlib.Core.List.{List, [], ◌∷◌}

pub data Result {ℓ κ} (E : Type ℓ) (A : Type κ) : Type (ℓ ⊔ κ) where
  ok : A → Result E A
  err : E → Result E A

infixl 5 ◌>>=◌ ◌>>◌
abbrev pub ◌>>=◌ {ℓ κ λ'} :
    {E : Type ℓ} {A : Type κ} {B : Type λ'} → Result E A → (A → Result E B) → Result E B
ok a >>= f = f a
err e >>= f = err e

module _ {ℓ κ} {E : Type ℓ} {A : Type κ} where
  abbrev pub ok_or : Option A → E → Result E A
  ok_or none e = err e
  ok_or (some a) e = ok a

  pub Result-cases : (r : Result E A) → ((a : A) × (r ≡ ok a)) ⊎ ((e : E) × (r ≡ err e))
  Result-cases (ok a) = inl (a, refl)
  Result-cases (err e) = inr (e, refl)

  pub ok_or-eq-ok : (o : Option A) (e : E) {a : A} → ok_or o e ≡ ok a → o ≡ some a
  ok_or-eq-ok none e h = cc
  ok_or-eq-ok (some a) e h = cc

abbrev pub ◌>>◌ {ℓ κ} : {E : Type ℓ} {B : Type κ} → Result E (Unit {0}) → Result E B → Result E B
m >> k = m >>= λ _. k

-- An early `return Err(e)` where the test holds.
abbrev pub bail_if {ℓ} : {E : Type ℓ} → Bool → E → Result E (Unit {0})
bail_if true e = err e
bail_if false e = ok tt

abbrev pub map_err {ℓ κ λ'} :
    {E : Type ℓ} {F : Type κ} {A : Type λ'} → (E → F) → Result E A → Result F A
map_err f (ok a) = ok a
map_err f (err e) = err (f e)

-- `map(f).collect::<Result<Vec<_>, _>>()`: the first error ends the walk.
abbrev pub traverse {ℓ κ λ'} :
    {E : Type ℓ} {A : Type κ} {B : Type λ'} → (A → Result E B) → List A → Result E (List B)
traverse f [] = ok []
traverse f (x ∷ xs) = do b ← f x; bs ← traverse f xs; ok (b ∷ bs)

-- What a successful `?` came from, for proofs where the parts stay shut.
module _ {ℓ κ λ'} {E : Type ℓ} {A : Type κ} {B : Type λ'} where
  pub >>=-eq-ok :
      (first : Result E A) (next : A → Result E B) {value : B}
      → (first >>= next) ≡ ok value
      → (step : A) × (first ≡ ok step) × (next step ≡ ok value)
  >>=-eq-ok (err e) next returned = cc
  >>=-eq-ok (ok step) next returned = (step, refl, returned)

pub bail_if-eq-ok {ℓ} : {E : Type ℓ} (b : Bool) (e : E) → bail_if b e ≡ ok tt → b ≡ false
bail_if-eq-ok true e h = cc
bail_if-eq-ok false e h = refl

pub map_err-eq-ok {ℓ κ λ'} :
    {E : Type ℓ} {F : Type κ} {A : Type λ'} (f : E → F) (r : Result E A) {a : A}
    → map_err f r ≡ ok a
    → r ≡ ok a
map_err-eq-ok f (ok a) h = cc
map_err-eq-ok f (err e) h = cc

-- Inversion of a block that succeeded, one statement at a time: what is established is handed on.
module _ {ℓ} {E A B : Type 0} {C : Type ℓ} {b : B} where
  pub try-then :
      (m : Result E A) (f : A → Result E B)
      → (m >>= f) ≡ ok b
      → ((a : A) → m ≡ ok a → f a ≡ ok b → C)
      → C
  try-then (ok a) f h k = k a refl h
  try-then (err e) f h k = cc

module _ {ℓ} {E B : Type 0} {C : Type ℓ} {b : B} where
  pub bail_if-then :
      (test : Bool) (e : E) (f : Unit {0} → Result E B)
      → (bail_if test e >>= f) ≡ ok b
      → (test ≡ false → f tt ≡ ok b → C)
      → C
  bail_if-then true e f h k = cc
  bail_if-then false e f h k = k refl h

module _ {ℓ} {E A B : Type 0} {C : Type ℓ} {b : B} where
  pub ok_or-then :
      (o : Option A) (e : E) (f : A → Result E B)
      → (ok_or o e >>= f) ≡ ok b
      → ((a : A) → o ≡ some a → f a ≡ ok b → C)
      → C
  ok_or-then none e f h k = cc
  ok_or-then (some a) e f h k = k a refl h

pub ok-injective : {E A : Type 0} {a b : A} → ◌≡◌ {A = Result E A} (ok a) (ok b) → a ≡ b
ok-injective h = cc

pub ok_or-some : {E A : Type 0} (o : Option A) (e : E) {a : A} → o ≡ some a → ok_or o e ≡ ok a
ok_or-some o e h = rw h refl

pub bail_if-false : {E : Type 0} (b : Bool) (e : E) → b ≡ false → bail_if b e ≡ ok tt
bail_if-false b e h = rw h refl

pub map_err-ok :
    {E F A : Type 0} (f : E → F) (r : Result E A) {a : A} → r ≡ ok a → map_err f r ≡ ok a
map_err-ok f r h = rw h refl
