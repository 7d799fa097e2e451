-- ===== src/Base/Errors.antt =====
-- Go's pair of a value and an error: a value, or an error of the component's own type.
use mathlib.Core.Path.{◌≡◌, refl, ap}
use mathlib.Core.Logic.{◌⊎◌, inl, inr}
use mathlib.Core.Bool.{Bool, true, false}

pub data Result (E : Type 0) (A : Type 0) : Type 0 where
  ok : A → Result E A
  err : E → Result E A

module _ {E : Type 0} where
  infixl 5 ◌>>=◌ ◌>>◌
  abbrev pub ◌>>=◌ : {A B : Type 0} → Result E A → (A → Result E B) → Result E B
  ok a >>= f = f a
  err e >>= f = err e

  abbrev pub ◌>>◌ : {B : Type 0} → Result E (Unit {0}) → Result E B → Result E B
  m >> k = m >>= λ _. k

  -- `if test { return err }`
  abbrev pub fail_if : Bool → E → Result E (Unit {0})
  fail_if true e = err e
  fail_if false e = ok tt

  abbrev pub is_ok : {A : Type 0} → Result E A → Bool
  is_ok (ok a) = true
  is_ok (err e) = false

  pub bind-eq-ok :
      {A B : Type 0} (first : Result E A) (next : A → Result E B) {b : B}
      → (first >>= next) ≡ ok b
      → (x : A) × (first ≡ ok x) × (next x ≡ ok b)
  bind-eq-ok (err e) next h = cc
  bind-eq-ok (ok x) next h = (x, refl, h)

  -- After a call that succeeded, what remains is the rest.
  pub bind_ok :
      {A B : Type 0} {first : Result E A} {a : A} (next : A → Result E B)
      → first ≡ ok a
      → (first >>= next) ≡ next a
  bind_ok next h = ap (λ r. r >>= next) h

  pub ok_injective : {A : Type 0} {a b : A} → ◌≡◌ {A = Result E A} (ok a) (ok b) → a ≡ b
  ok_injective h = cc

  pub fail_if-eq-ok : (b : Bool) (e : E) {u : Unit {0}} → fail_if b e ≡ ok u → b ≡ false
  fail_if-eq-ok true e h = cc
  fail_if-eq-ok false e h = refl

pub Result-cases :
    {E A : Type 0} (r : Result E A) → ((a : A) × (r ≡ ok a)) ⊎ ((e : E) × (r ≡ err e))
Result-cases (ok a) = inl (a, refl)
Result-cases (err e) = inr (e, refl)
