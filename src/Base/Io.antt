-- ===== src/Base/Io.antt =====
-- Go functions that change a state and may return an error: each returns the state that it leaves.
use mathlib.Core.Path.{◌≡◌, refl, subst}
use native.Mathlib.Omega.{arith}
use cube_advisor_agent.Base.Errors.{Result, ok, err}

abbrev pub Io : Type 0 → Type 0 → Type 0 → Type 0
Io S E A = S → S × Result E A

module _ {S E : Type 0} where
  -- The rest of a function runs on what its first call left, unless that returned an error.
  abbrev pub continue_with : {A B : Type 0} → S × Result E A → (A → Io S E B) → S × Result E B
  continue_with (t, ok a) next = next a t
  continue_with (t, err e) next = (t, err e)

  infixl 5 ◌>>=◌ ◌>>◌
  abbrev pub ◌>>=◌ : {A B : Type 0} → Io S E A → (A → Io S E B) → Io S E B
  ◌>>=◌ first next s = continue_with (first s) next

  abbrev pub ◌>>◌ : {B : Type 0} → Io S E (Unit {0}) → Io S E B → Io S E B
  ◌>>◌ first next s = continue_with (first s) (λ _. next)

  abbrev pub return : {A : Type 0} → A → Io S E A
  return a s = (s, ok a)

  -- A result that was computed without the state.
  abbrev pub lift : {A : Type 0} → Result E A → Io S E A
  lift r s = (s, r)

  -- Where all calls succeeded, the first one did, and the rest ran on what it left.
  pub continue_with-eq-ok :
      {A B : Type 0} (first : S × Result E A) (next : A → Io S E B) {t : S} {b : B}
      → continue_with first next ≡ (t, ok b)
      → (u : S) × ((a : A) × ((first ≡ (u, ok a)) × (next a u ≡ (t, ok b))))
  continue_with-eq-ok (u, ok a) next h = (u, (a, (refl, h)))
  continue_with-eq-ok (u, err e) next h = absurd (ground arith)

  -- The same after a result that was computed without the state.
  pub lift-eq-ok :
      {A B : Type 0} (r : Result E A) (s : S) (next : A → Io S E B) {t : S} {b : B}
      → continue_with (s, r) next ≡ (t, ok b)
      → (a : A) × ((r ≡ ok a) × (next a s ≡ (t, ok b)))
  lift-eq-ok (ok a) s next h = (a, (refl, h))
  lift-eq-ok (err e) s next h = absurd (ground arith)

-- Whatever error a function returns has the property.
abbrev pub Fails : {S E A : Type 0} → (E → Type 0) → S × Result E A → Type 0
Fails P (t, ok a) = Unit
Fails P (t, err e) = P e

pub continue_with-Fails :
    {S E A B : Type 0} (P : E → Type 0) (first : S × Result E A) (next : A → Io S E B)
    → Fails P first
    → ((a : A) (u : S) → Fails P (next a u))
    → Fails P (continue_with first next)
continue_with-Fails P (u, ok a) next h k = k a u
continue_with-Fails P (u, err e) next h k = h

pub Fails-eq-err :
    {S E A : Type 0} (P : E → Type 0) (r : S × Result E A) {t : S} {e : E}
    → Fails P r
    → r ≡ (t, err e)
    → P e
Fails-eq-err P (u, ok a) h k = absurd (ground arith)
Fails-eq-err P (u, err e) h k = subst P (ground arith) h

-- A call of the operating system whose error is wrapped.
abbrev pub wrapped : {S E F A : Type 0} → (E → F) → S × Result E A → S × Result F A
wrapped wrap (t, ok a) = (t, ok a)
wrapped wrap (t, err e) = (t, err (wrap e))

pub wrapped-eq-ok :
    {S E F A : Type 0} (wrap : E → F) (r : S × Result E A) {t : S} {a : A}
    → wrapped wrap r ≡ (t, ok a)
    → r ≡ (t, ok a)
wrapped-eq-ok wrap (u, ok b) h = cc
wrapped-eq-ok wrap (u, err e) h = absurd (ground arith)

-- The same after a call of the operating system.
pub call-eq-ok :
    {S E F A B : Type 0} (wrap : E → F) (r : S × Result E A) (next : A → Io S F B) {t : S} {b : B}
    → continue_with (wrapped wrap r) next ≡ (t, ok b)
    → (u : S) × ((a : A) × ((r ≡ (u, ok a)) × (next a u ≡ (t, ok b))))
call-eq-ok wrap (u, ok a) next h = (u, (a, (refl, h)))
call-eq-ok wrap (u, err e) next h = absurd (ground arith)

pub wrapped-Fails :
    {S E F A : Type 0} (P : F → Type 0) (wrap : E → F) (r : S × Result E A)
    → ((e : E) → P (wrap e))
    → Fails P (wrapped wrap r)
wrapped-Fails P wrap (u, ok a) h = tt
wrapped-Fails P wrap (u, err e) h = h e
