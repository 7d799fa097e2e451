-- ===== src/Base/Substrings.antt =====
-- What the tests on strings mean: prefixes and substrings as equations.
use mathlib.Core.Path.{◌≡◌, refl, ap}
use mathlib.Core.Logic.{◌↔◌, inl, inr}
use mathlib.Core.Bool.{true}
use mathlib.Core.List.{[], ◌∷◌, ◌++◌}
use native.Mathlib.Omega.{arith}
use cube_advisor_agent.Base.Tests.{Bool-cases}
use cube_advisor_agent.Base.Strings.{Bytes, has_prefix, contains}

abbrev pub StartsWith : Bytes → Bytes → Type 0
StartsWith p s = (rest : Bytes) × (s ≡ p ++ rest)

abbrev pub Holds : Bytes → Bytes → Type 0
Holds p s = (front : Bytes) × (rest : Bytes) × (s ≡ front ++ (p ++ rest))

pub has_prefix-StartsWith : (p s : Bytes) → has_prefix p s ≡ true → StartsWith p s
unfolding has_prefix
has_prefix-StartsWith [] s h = (s, refl)
has_prefix-StartsWith (a ∷ p) [] h = cc
has_prefix-StartsWith (a ∷ p) (b ∷ s) h =
    let (rest, e) = has_prefix-StartsWith p s (ground arith) in (rest, ground arith)

pub StartsWith-has_prefix : (p s : Bytes) → StartsWith p s → has_prefix p s ≡ true
unfolding has_prefix
StartsWith-has_prefix [] s h = refl
StartsWith-has_prefix (a ∷ p) [] (rest, e) = cc
StartsWith-has_prefix (a ∷ p) (b ∷ s) (rest, e) =
    ground (arith, λ (f : s ≡ p ++ rest). StartsWith-has_prefix p s (rest, f))

pub has_prefix_iff : (p s : Bytes) → (has_prefix p s ≡ true) ↔ StartsWith p s
has_prefix_iff p s = (has_prefix-StartsWith p s, StartsWith-has_prefix p s)

contains-Holds : (p s : Bytes) → contains p s ≡ true → Holds p s
unfolding contains
contains-Holds p [] h = let (rest, e) = has_prefix-StartsWith p [] h in ([], rest, e)
contains-Holds p (c ∷ s) h = elim (Bool-cases (has_prefix p (c ∷ s))) [
  | inl here ↦ let (rest, e) = has_prefix-StartsWith p (c ∷ s) here in ([], rest, e)
  | inr later ↦
      let (front, rest, e) = contains-Holds p s (ground arith) in
      (c ∷ front, rest, ap (λ t. c ∷ t) e)
]

Holds-contains : (p s front rest : Bytes) → s ≡ front ++ (p ++ rest) → contains p s ≡ true
unfolding contains
Holds-contains p [] [] rest e = StartsWith-has_prefix p [] (rest, e)
Holds-contains p [] (c ∷ front) rest e = cc
Holds-contains p (c ∷ s) [] rest e = ground (arith, StartsWith-has_prefix p (c ∷ s) (rest, e))
Holds-contains p (c ∷ s) (d ∷ front) rest e =
    ground (arith, Holds-contains p s front rest (ground arith))

pub contains_iff : (p s : Bytes) → (contains p s ≡ true) ↔ Holds p s
contains_iff p s = (contains-Holds p s, λ (front, rest, e). Holds-contains p s front rest e)
