-- ===== src/Prelude/Exec.antt =====
-- Methods of an object that may raise: what was written before a raise stays written, so the object
-- comes back beside the error too.
use mathlib.Core.Bool.{Bool, true, false}
use mathlib.Core.Path.{◌≡◌, refl, ap}
use builder_league.Prelude.Results.{Result, err, ok}

abbrev pub Exec : Type 0 → Type 0 → Type 0 → Type 0
Exec S E A = S → Result E A × S

module _ {S E A : Type 0} where
  abbrev pub pure : A → Exec S E A
  pure a s = (ok a, s)

  abbrev pub raise : E → Exec S E A
  raise e s = (err e, s)

  abbrev pub lift : Result E A → Exec S E A
  lift r s = (r, s)

  abbrev pub gets : (S → A) → Exec S E A
  gets f s = (ok (f s), s)

module _ {S E : Type 0} where
  abbrev pub modify : (S → S) → Exec S E (Unit {0})
  modify f s = (ok tt, f s)

  -- `if b: raise e`
  abbrev pub raise_if : Bool → E → Exec S E (Unit {0})
  raise_if true e s = (err e, s)
  raise_if false e s = (ok tt, s)

module _ {S E A B : Type 0} where
  infixl 5 ◌>>=◌ ◌>>◌
  abbrev pub ◌>>=◌ : Exec S E A → (A → Exec S E B) → Exec S E B
  ◌>>=◌ m f s = let (r, t) = m s in elim r [ ok a ↦ f a t | err e ↦ (err e, t) ]

  abbrev pub ◌>>◌ : Exec S E A → Exec S E B → Exec S E B
  m >> n = m >>= λ _. n

module _ {S E A : Type 0} where
  -- To return nothing at the end writes nothing.
  pub then_pure : (m : Exec S E A) (s : S) → ((m >> pure tt) s).1 ≡ (m s).1
  then_pure m s = by_result (m s).0 (m s).1
    where
      by_result : (r : Result E A) (t : S) → (((λ _. (r, t)) >> pure tt) s).1 ≡ t
      by_result (ok a) t = refl
      by_result (err e) t = refl

module _ {S E A B : Type 0} (m : Exec S E A) (f : A → Exec S E B) where
  -- What follows a call that returned goes on from what it left.
  pub bind-ok : (s : S) (a : A) (t : S) → m s ≡ (ok a, t) → (m >>= f) s ≡ f a t
  bind-ok s a t e = ap (λ p. ((λ _. p) >>= f) s) e

  -- What follows a call that raised is not run.
  pub bind-err : (s : S) (x : E) (t : S) → m s ≡ (err x, t) → (m >>= f) s ≡ (err x, t)
  bind-err s x t e = ap (λ p. ((λ _. p) >>= f) s) e

-- A call keeps a predicate of the object, whether it returns or raises.
pub record Keeps {S E A : Type 0} (P : S → Type 0) (m : Exec S E A) : Type 0 where
  pub at : (s : S) → P s → P (m s).1

module _ {S E A B : Type 0} {P : S → Type 0} where
  pub Keeps-bind :
      (m : Exec S E A) (f : A → Exec S E B)
      → Keeps P m
      → ((a : A) → Keeps P (f a))
      → Keeps P (m >>= f)
  Keeps-bind m f km kf = record { at = λ s h. next (m s).0 (m s).1 (km.at s h) }
    where
      next : (r : Result E A) (t : S) → P t → P (◌>>=◌ (λ _. (r, t)) f t).1
      next (ok a) t h = (kf a).at t h
      next (err e) t h = h

module _ {S E : Type 0} {P : S → Type 0} where
  pub Keeps-raise_if : (b : Bool) (e : E) → Keeps P (raise_if {S = S} b e)
  Keeps-raise_if true e = record { at = λ s h. h }
  Keeps-raise_if false e = record { at = λ s h. h }

module _ {S E A : Type 0} {P : S → Type 0} where
  pub Keeps-pure : (a : A) → Keeps P (pure {S = S} {E = E} a)
  Keeps-pure a = record { at = λ s h. h }

  pub Keeps-lift : (r : Result E A) → Keeps P (lift {S = S} r)
  Keeps-lift r = record { at = λ s h. h }

  pub Keeps-gets : (f : S → A) → Keeps P (gets {S = S} {E = E} f)
  Keeps-gets f = record { at = λ s h. h }

pub ruleset keeps_rules = (Keeps-bind, Keeps-raise_if, Keeps-pure, Keeps-lift, Keeps-gets)
