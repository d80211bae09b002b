-- ===== src/Common/Exec.antt =====
-- Methods over `&mut self` that return a `Result`: what was written before an error stays written.
pub mod Keeps
use mathlib.Core.Path.{◌≡◌, refl}
use mathlib.Core.Bool.{Bool, true, false}
use native.Mathlib.Omega.{arith}
use access.Common.Result.{Result, ok, err, map_err}

abbrev pub Exec : Type 0 → Type 0 → Type 0 → Type 0
Exec E S A = S → Result E A × S

module _ {E S A : Type 0} where
  unfoldable pub pure : A → Exec E S A
  pure a s = (ok a, s)

  -- `r?` for a call that does not write the state.
  unfoldable pub lift : Result E A → Exec E S A
  lift r s = (r, s)

  unfoldable pub gets : (S → A) → Exec E S A
  gets f s = (ok (f s), s)

module _ {E S : Type 0} where
  unfoldable pub modify : (S → S) → Exec E S (Unit {0})
  modify f s = (ok tt, f s)

abbrev pub continue : {E S A B : Type 0} → Result E A → (A → Exec E S B) → Exec E S B
continue (ok a) f s = f a s
continue (err e) f s = (err e, s)

module _ {E S A B : Type 0} where
  infixl 5 ◌>>=◌ ◌>>◌
  -- opening this opens `pure`, `lift`, `gets` and `modify` too
  unfoldable pub ◌>>=◌ : Exec E S A → (A → Exec E S B) → Exec E S B
  unfolding pure lift gets modify
  ◌>>=◌ m f s = let (r, s') = m s in continue r f s'

  abbrev pub ◌>>◌ : Exec E S A → Exec E S B → Exec E S B
  m >> k = m >>= λ _. k

-- A method of a part of the state, and the conversion of its error.
module _ {E F S T A : Type 0} where
  unfoldable pub zoom : (F → E) → (S → T) → (T → S → S) → Exec F T A → Exec E S A
  zoom f part put m s = let (r, t) = m (part s) in (map_err f r, put t s)

module _ {E S A B : Type 0} (m : Exec E S A) (f : A → Exec E S B) (s : S) where
  bind-inversion :
      (x : Result E A × S) {b : B} {t : S}
      → m s ≡ x
      → continue x.0 f x.1 ≡ (ok b, t)
      → (a : A) × (s' : S) × (m s ≡ (ok a, s')) × (f a s' ≡ (ok b, t))
  bind-inversion (ok a, s') e h = (a, s', e, h)
  bind-inversion (err e', s') e h = cc

  -- Inversion of a successful `?` in a method.
  pub >>=-eq-ok :
      {b : B} {t : S}
      → (m >>= f) s ≡ (ok b, t)
      → (a : A) × (s' : S) × (m s ≡ (ok a, s')) × (f a s' ≡ (ok b, t))
  unfolding ◌>>=◌
  >>=-eq-ok h = bind-inversion (m s) refl h

module _ {E S A : Type 0} where
  pub lift-eq-ok :
      (r : Result E A) (s : S) {a : A} {t : S} → lift r s ≡ (ok a, t) → (r ≡ ok a) × (s ≡ t)
  unfolding lift
  lift-eq-ok r s h = (cc, cc)

  pub gets-eq-ok :
      (f : S → A) (s : S) {a : A} {t : S} → gets {E = E} f s ≡ (ok a, t) → (f s ≡ a) × (s ≡ t)
  unfolding gets
  gets-eq-ok f s h = (ground arith, ground arith)

  pub pure-eq-ok :
      (x : A) (s : S) {a : A} {t : S} → pure {E = E} x s ≡ (ok a, t) → (x ≡ a) × (s ≡ t)
  unfolding pure
  pure-eq-ok x s h = (ground arith, ground arith)

module _ {E S : Type 0} where
  pub modify-eq-ok :
      (f : S → S) (s : S) {a : Unit {0}} {t : S} → modify {E = E} f s ≡ (ok a, t) → f s ≡ t
  unfolding modify
  modify-eq-ok f s h = ground arith

-- Inversion of a block that succeeded, one statement at a time: what is established is handed on.
module _ {E S A B C : Type 0} {b : B} {s t : S} where
  continue-then :
      (r : Result E A) (f : A → Exec E S B)
      → continue r f s ≡ (ok b, t)
      → ((a : A) → r ≡ ok a → f a s ≡ (ok b, t) → C)
      → C
  continue-then (ok a) f h k = k a refl h
  continue-then (err e) f h k = cc

  pub lift-then :
      (r : Result E A) (f : A → Exec E S B)
      → (lift r >>= f) s ≡ (ok b, t)
      → ((a : A) → r ≡ ok a → f a s ≡ (ok b, t) → C)
      → C
  unfolding ◌>>=◌
  lift-then r f h k = continue-then r f h k

module _ {E S A B : Type 0} {q : Result E B × S} {s : S} where
  pub gets-then : (g : S → A) (f : A → Exec E S B) → (gets g >>= f) s ≡ q → f (g s) s ≡ q
  unfolding ◌>>=◌
  gets-then g f h = h

module _ {E S B : Type 0} {q : Result E B × S} {s : S} where
  pub modify-then :
      (g : S → S) (f : Unit {0} → Exec E S B) → (modify g >>= f) s ≡ q → f tt (g s) ≡ q
  unfolding ◌>>=◌
  modify-then g f h = h

module _ {E F S T A B C : Type 0} {b : B} {s t : S} where
  zoomed-then :
      (fe : F → E) (put : T → S → S) (x : Result F A × T) (f : A → Exec E S B)
      → continue (map_err fe x.0) f (put x.1 s) ≡ (ok b, t)
      → ((a : A) (u : T) → x ≡ (ok a, u) → f a (put u s) ≡ (ok b, t) → C)
      → C
  zoomed-then fe put (ok a, u) f h k = k a u refl h
  zoomed-then fe put (err e, u) f h k = cc

  pub zoom-then :
      (fe : F → E) (part : S → T) (put : T → S → S) (m : Exec F T A) (f : A → Exec E S B)
      → (zoom fe part put m >>= f) s ≡ (ok b, t)
      → ((a : A) (u : T) → m (part s) ≡ (ok a, u) → f a (put u s) ≡ (ok b, t) → C)
      → C
  unfolding ◌>>=◌ zoom
  zoom-then fe part put m f h k = zoomed-then fe put (m (part s)) f h k

module _ {E S A B C : Type 0} {b : B} {s t : S} where
  -- The same for any other statement.
  pub bind-then :
      (m : Exec E S A) (f : A → Exec E S B)
      → (m >>= f) s ≡ (ok b, t)
      → ((a : A) (s' : S) → m s ≡ (ok a, s') → f a s' ≡ (ok b, t) → C)
      → C
  bind-then m f h k = let (a, s', e, h') = >>=-eq-ok m f s h in k a s' e h'

-- A block runs on, one statement at a time, from what each returns.
module _ {E S A B : Type 0} {q : Result E B × S} {s : S} where
  pub lift-runs :
      (r : Result E A) (f : A → Exec E S B) (a : A) → r ≡ ok a → f a s ≡ q → (lift r >>= f) s ≡ q
  unfolding ◌>>=◌
  lift-runs r f a e h = rw e h

  pub bind-runs :
      (m : Exec E S A) (f : A → Exec E S B) (a : A) (t : S)
      → m s ≡ (ok a, t)
      → f a t ≡ q
      → (m >>= f) s ≡ q
  unfolding ◌>>=◌
  bind-runs m f a t e h = rw e h

  pub gets-runs : (g : S → A) (f : A → Exec E S B) → f (g s) s ≡ q → (gets g >>= f) s ≡ q
  unfolding ◌>>=◌
  gets-runs g f h = h

module _ {E F S T A B : Type 0} {q : Result E B × S} {s : S} where
  pub zoom-runs :
      (fe : F → E) (part : S → T) (put : T → S → S) (m : Exec F T A) (f : A → Exec E S B) (a : A)
      (u : T)
      → m (part s) ≡ (ok a, u)
      → f a (put u s) ≡ q
      → (zoom fe part put m >>= f) s ≡ q
  unfolding ◌>>=◌ zoom
  zoom-runs fe part put m f a u e h = rw e h
