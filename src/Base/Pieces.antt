-- ===== src/Base/Pieces.antt =====
-- Where strings.Split and strings.Cut part a string that was put together from pieces.
use cube_advisor_agent.Base.{
  ℕ, ◌≡◌, refl, true, false, ◌++◌, [], ◌∷◌, arith, Bytes, some, elem, nat_beq, contains_any, split,
  split_at, cut, has_prefix, Bool-cases, inl, inr,
}

split_at-line :
    (sep : ℕ) (line rest : Bytes)
    → elem sep line ≡ false
    → split_at sep (line ++ sep ∷ rest) ≡ (line, split sep rest)
unfolding split_at split
split_at-line sep [] rest h = ground (arith)
split_at-line sep (c ∷ line) rest h =
    let apart : nat_beq c sep ≡ false = ground arith in
    rw (split_at-line sep line rest (ground arith), apart) refl

-- The first part ends at the first separator.
pub split-line :
    (sep : ℕ) (line rest : Bytes)
    → elem sep line ≡ false
    → split sep (line ++ sep ∷ rest) ≡ line ∷ split sep rest
unfolding split
split-line sep line rest h = rw (split_at-line sep line rest h) refl

pub cut-word :
    (sep : ℕ) (word rest : Bytes)
    → elem sep word ≡ false
    → cut (sep ∷ []) (word ++ sep ∷ rest) ≡ some (word, rest)
unfolding cut has_prefix
cut-word sep [] rest h = ground (arith)
cut-word sep (c ∷ word) rest h =
    let apart : nat_beq sep c ≡ false = ground arith in
    rw (cut-word sep word rest (ground arith), apart) refl

pub elem-append :
    (c : ℕ) (s t : Bytes) → elem c s ≡ false → elem c t ≡ false → elem c (s ++ t) ≡ false
elem-append c [] t h k = k
elem-append c (d ∷ s) t h k = ground (arith, elem-append c s t)

-- A string without any of the characters is without each of them.
pub contains_any-elem :
    (set s : Bytes) (c : ℕ) → contains_any set s ≡ false → elem c set ≡ true → elem c s ≡ false
unfolding contains_any
contains_any-elem set [] c h k = refl
contains_any-elem set (d ∷ s) c h k = elim (Bool-cases (nat_beq c d)) [
  | inl same ↦ let e : c ≡ d = ground arith in absurd (ground (arith, e))
  | inr apart ↦ ground (arith, contains_any-elem set s c)
]
