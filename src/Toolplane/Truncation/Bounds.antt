-- ===== src/Toolplane/Truncation/Bounds.antt =====
-- What is kept of a cut output is a beginning of it, within the limit.
use cube_advisor_agent.Base.{
  ℕ, zero, suc, ◌≤◌, ◌+◌, ◌≡◌, refl, inl, inr, ◌++◌, [], ◌∷◌, arith, Bytes, length, take, drop,
  take-append-drop, length-take, length-append, Bool-cases, leb, append-nil, append_assoc, ◌∙◌, ap,
  sym,
}
use cube_advisor_agent.Base.Utf8.{decode_last_rune}
use cube_advisor_agent.Toolplane.Truncation.{
  back_to_start, truncate_at_rune, is_broken, trim_rounds, trim_partial_rune,
}

abbrev pub IsPrefixOf : Bytes → Bytes → Type 0
IsPrefixOf p s = (rest : Bytes) × (p ++ rest ≡ s)

prefix_trans : (p q s : Bytes) → IsPrefixOf p q → IsPrefixOf q s → IsPrefixOf p s
prefix_trans p q s (r, e) (t, f) = (r ++ t, sym (append_assoc p r t) ∙ (ap (λ x. x ++ t) e ∙ f))

take-IsPrefixOf : (n : ℕ) (s : Bytes) → IsPrefixOf (take n s) s
take-IsPrefixOf n s = (drop n s, take-append-drop n s)

back_to_start-le : (b : Bytes) (cut : ℕ) → back_to_start b cut ≤ cut
unfolding back_to_start
back_to_start-le b zero = omega arith
back_to_start-le b (suc cut) = ground (arith, back_to_start-le b cut)

truncate_at_rune-IsPrefixOf : (b : Bytes) (limit : ℕ) → IsPrefixOf (truncate_at_rune b limit) b
unfolding truncate_at_rune
truncate_at_rune-IsPrefixOf b limit = elim (Bool-cases (leb (length b) limit)) [
  | inl fits ↦ rw fits ([], append-nil b)
  | inr long ↦ rw long (take-IsPrefixOf _ b)
]

length-truncate_at_rune : (b : Bytes) (limit : ℕ) → length (truncate_at_rune b limit) ≤ limit
unfolding truncate_at_rune
length-truncate_at_rune b limit =
    ground (arith, length-take (back_to_start b limit) b, back_to_start-le b limit)

trim_rounds-IsPrefixOf : (n : ℕ) (b : Bytes) → IsPrefixOf (trim_rounds n b) b
unfolding trim_rounds
trim_rounds-IsPrefixOf zero b = ([], append-nil b)
trim_rounds-IsPrefixOf (suc n) [] = ([], refl)
trim_rounds-IsPrefixOf (suc n) (c ∷ b) = elim (Bool-cases (is_broken (decode_last_rune (c ∷ b)))) [
  | inl broken ↦
      rw (broken, trim_rounds)
        (prefix_trans _ _ (c ∷ b) (trim_rounds-IsPrefixOf n (take (length b) (c ∷ b)))
          (take-IsPrefixOf (length b) (c ∷ b)))
  | inr whole ↦ rw (whole, trim_rounds) ([], append-nil (c ∷ b))
]

length-trim_rounds : (n : ℕ) (b : Bytes) → length b ≤ length (trim_rounds n b) + n
unfolding trim_rounds
length-trim_rounds zero b = omega arith
length-trim_rounds (suc n) [] = omega arith
length-trim_rounds (suc n) (c ∷ b) =
    ground (arith, length-trim_rounds n (take (length b) (c ∷ b)), length-take (length b) (c ∷ b))

length_of_prefix : (p s : Bytes) → IsPrefixOf p s → length p ≤ length s
length_of_prefix p s (r, e) = omega (arith, ap (λ (x : Bytes). length x) e, length-append p r)

-- What is kept is a beginning of the output, at most `limit` bytes long, and dropping a broken rune
-- at its end costs three bytes at most.
pub kept_bounds :
    (b : Bytes) (limit : ℕ)
    → IsPrefixOf (trim_partial_rune (truncate_at_rune b limit)) b
      × (length (trim_partial_rune (truncate_at_rune b limit)) ≤ limit)
      × (length (truncate_at_rune b limit)
          ≤ length (trim_partial_rune (truncate_at_rune b limit)) + 3)
unfolding trim_partial_rune
kept_bounds b limit =
    let cut = truncate_at_rune b limit in
    let kept = trim_rounds-IsPrefixOf 3 cut in
    (
      prefix_trans _ cut b kept (truncate_at_rune-IsPrefixOf b limit),
      omega (arith, length_of_prefix _ cut kept, length-truncate_at_rune b limit),
      length-trim_rounds 3 cut,
    )
