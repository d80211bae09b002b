-- ===== src/Common/Exec/Keeps.antt =====
-- Invariants of methods, one rule for each way to build one. The invariant holds after an error too.
use mathlib.Core.Path.{◌≡◌, ap, subst}
use mathlib.Core.Logic.{◌≢◌}
use native.Mathlib.Omega.{arith}
use access.Common.Result.{Result, ok, err}
use access.Common.Exec.{Exec, pure, lift, gets, modify, continue, ◌>>=◌, zoom}

pub record Keeps {E S A : Type 0} (P : S → Type 0) (m : Exec E S A) : Type 0 where
  pub at : (s : S) → P s → P (m s).1

module _ {E S : Type 0} {P : S → Type 0} where
  pub Keeps-modify : (f : S → S) → ((s : S) → P s → P (f s)) → Keeps P (modify {E = E} f)
  unfolding modify
  Keeps-modify f kept = record { at = kept }

module _ {E S A B : Type 0} {P : S → Type 0} where
  continue-Keeps :
      (r : Result E A) (rest : A → Exec E S B) (s : S)
      → P s
      → ((a : A) → Keeps P (rest a))
      → P (continue r rest s).1
  continue-Keeps (err e) rest s held later = held
  continue-Keeps (ok a) rest s held later = (later a).at s held

  pub Keeps-bind :
      (m : Exec E S A) (rest : A → Exec E S B)
      → Keeps P m
      → ((a : A) → Keeps P (rest a))
      → Keeps P (m >>= rest)
  unfolding ◌>>=◌
  Keeps-bind m rest now later = record {
    at = λ s held. let (r, u) = m s in continue-Keeps r rest u (now.at s held) later;
  }

-- What only reads keeps every invariant.
module _ {E S A : Type 0} {P : S → Type 0} where
  pub Keeps-gets : (part : S → A) → Keeps P (gets {E = E} part)
  unfolding gets
  Keeps-gets part = record { at = λ s held. held }

  pub Keeps-lift : (r : Result E A) → Keeps P (lift r)
  unfolding lift
  Keeps-lift r = record { at = λ s held. held }

  pub Keeps-pure : (value : A) → Keeps P (pure {E = E} value)
  unfolding pure
  Keeps-pure value = record { at = λ s held. held }

module _ {E F S T A : Type 0} {P : S → Type 0} (f : F → E) (part : S → T) (put : T → S → S)
    (m : Exec F T A) where
  -- A call on a part that the invariant does not depend on.
  pub Keeps-zoom : ((t : T) (s : S) → P s → P (put t s)) → Keeps P (zoom f part put m)
  unfolding zoom
  Keeps-zoom free = record { at = λ s h. free (m (part s)).1 s h }

  -- A call on a part with an invariant of its own.
  pub Keeps-zoom_part :
      (Q : T → Type 0)
      → ((s : S) → P s → Q (part s))
      → ((t : T) (s : S) → P s → Q t → P (put t s))
      → Keeps Q m
      → Keeps P (zoom f part put m)
  unfolding zoom
  Keeps-zoom_part Q down up k = record {
    at = λ s h. up (m (part s)).1 s h (k.at (part s) (down s h));
  }

-- The invariant after a method that ended in an error.
pub record KeepsOnError {E S A : Type 0} (P : S → Type 0) (m : Exec E S A) : Type 0 where
  pub at : (s t : S) (e : E) → P s → m s ≡ (err e, t) → P t

module _ {E S A B : Type 0} {P : S → Type 0} where
  continue-KeepsOnError :
      (r : Result E A) (f : A → Exec E S B) (s t : S) (e : E)
      → ((a : A) → KeepsOnError P (f a))
      → P s
      → continue r f s ≡ (err e, t)
      → P t
  continue-KeepsOnError (ok a) f s t e k h q = (k a).at s t e h q
  continue-KeepsOnError (err x) f s t e k h q = subst P (ap (λ (y : Result E B × S). y.1) q) h

  pub KeepsOnError-bind :
      (m : Exec E S A) (f : A → Exec E S B)
      → Keeps P m
      → ((a : A) → KeepsOnError P (f a))
      → KeepsOnError P (m >>= f)
  unfolding ◌>>=◌
  KeepsOnError-bind m f km kf = record {
    at = λ s t e h q. let (r, s') = m s in continue-KeepsOnError r f s' t e kf (km.at s h) q;
  }

module _ {E S A : Type 0} {P : S → Type 0} where
  pub KeepsOnError-Keeps : (m : Exec E S A) → Keeps P m → KeepsOnError P m
  KeepsOnError-Keeps m k = record {
    at = λ s t e h q. subst P (ap (λ (y : Result E A × S). y.1) q) (k.at s h);
  }

  pub KeepsOnError-pure : (a : A) → KeepsOnError P (pure {E = E} a)
  unfolding pure
  KeepsOnError-pure a = record { at = λ s t e h q. cc }

  pub KeepsOnError-gets : (f : S → A) → KeepsOnError P (gets {E = E} f)
  unfolding gets
  KeepsOnError-gets f = record { at = λ s t e h q. cc }

module _ {E S : Type 0} {P : S → Type 0} where
  pub KeepsOnError-modify : (f : S → S) → KeepsOnError P (modify {E = E} f)
  unfolding modify
  KeepsOnError-modify f = record { at = λ s t e h q. cc }

-- A method that cannot fail: what it writes does not matter to a failure.
pub record NeverFails {E S A : Type 0} (m : Exec E S A) : Type 0 where
  pub at : (s t : S) (e : E) → m s ≢ (err e, t)

module _ {E S A : Type 0} where
  pub NeverFails-pure : (a : A) → NeverFails (pure {E = E} {S = S} a)
  unfolding pure
  NeverFails-pure a = record { at = λ s t e q. cc }

module _ {E S A B : Type 0} where
  pub NeverFails-gets :
      (g : S → A) (f : A → Exec E S B) → ((a : A) → NeverFails (f a)) → NeverFails (gets g >>= f)
  unfolding ◌>>=◌
  NeverFails-gets g f k = record { at = λ s t e. (k (g s)).at s t e }

module _ {E S A B : Type 0} where
  continue-never :
      (r : Result E A) (f : A → Exec E S B) (s t : S) (e : E)
      → ((a : A) → NeverFails (f a))
      → continue r f s ≡ (err e, t)
      → (r ≡ err e) × (s ≡ t)
  continue-never (ok a) f s t e k q = absurd ((k a).at s t e q)
  continue-never (err x) f s t e k q = (cc, cc)

module _ {E S A B : Type 0} {P : S → Type 0} where
  -- A failure of a method whose rest cannot fail is a failure of its first part.
  pub KeepsOnError-then :
      (m : Exec E S A) (f : A → Exec E S B)
      → KeepsOnError P m
      → ((a : A) → NeverFails (f a))
      → KeepsOnError P (m >>= f)
  unfolding ◌>>=◌
  KeepsOnError-then m f k never = record {
    at = λ s t e h q.
        let (r, same) = continue-never (m s).0 f (m s).1 t e never q in k.at s t e h (ground arith);
  }

module _ {E S B : Type 0} {P : S → Type 0} where
  -- A method that starts by writing a state of the invariant ends in one, whatever it starts in.
  pub modify_first :
      (g : S → S) (f : Unit {0} → Exec E S B) (s : S)
      → P (g s)
      → Keeps P (f tt)
      → P ((modify g >>= f) s).1
  unfolding ◌>>=◌
  modify_first g f s h k = k.at (g s) h

module _ {E S A B : Type 0} {P : S → Type 0} where
  continue-failed :
      (r : Result E A) (f : A → Exec E S B) (s t : S) (e : E)
      → continue r f s ≡ (err e, t)
      → P s
      → ((a : A) → KeepsOnError P (f a))
      → P t
  continue-failed (ok a) f s t e h k kf = (kf a).at s t e k h
  continue-failed (err x) f s t e h k kf = subst P (ap (λ (y : Result E B × S). y.1) h) k

  -- A failure after a statement that always ends in the invariant ends in it.
  pub bind-failed :
      (m : Exec E S A) (f : A → Exec E S B) (s t : S) (e : E)
      → (m >>= f) s ≡ (err e, t)
      → P (m s).1
      → ((a : A) → KeepsOnError P (f a))
      → P t
  unfolding ◌>>=◌
  bind-failed m f s t e h k kf = let (r, s') = m s in continue-failed r f s' t e h k kf

module _ {E S A : Type 0} {P : S → Type 0} where
  pub Keeps-after : (m : Exec E S A) (s t : S) (a : A) → Keeps P m → P s → m s ≡ (ok a, t) → P t
  Keeps-after m s t a k h q = subst P (ap (λ (y : Result E A × S). y.1) q) (k.at s h)
