-- ===== src/Tunnel/Lines.antt =====
-- The line framing that channel-open headers and argument frames share.
use cube_advisor_agent.Base.{
  ℕ, inl, inr, zero, suc, ◌≤◌, ◌<◌, ◌≡◌, ◌≢◌, refl, ◌++◌, [], ◌∷◌, arith, Bytes, nat_eq, ◌==◌, ok,
  err, All, length, Bool-cases, Result-cases,
}
use cube_advisor_agent.Tunnel.{cut_short, read_line, newline}

abbrev pub IsLineText : Bytes → Type 0
IsLineText = All (λ (c : ℕ). c ≢ b'\n')

-- A line of text without a newline is read whole, and what follows it is left.
pub read_line-frame :
    (n : ℕ) (body rest : Bytes)
    → IsLineText body
    → suc (length body) ≤ n
    → read_line n ((body ++ newline) ++ rest) ≡ ok (body ++ newline, rest)
unfolding read_line
read_line-frame zero body rest h few = absurd (ground arith)
read_line-frame (suc n) [] rest h few = refl
read_line-frame (suc n) (c ∷ body) rest (hc, h) few = elim (Bool-cases (c == b'\n')) [
  | inl e ↦ absurd (ground arith)
  | inr e ↦ rw (e, read_line-frame n body rest h (ground arith)) refl
]

-- A line that is read, with what is left, is what there was.
pub read_line-splits :
    (n : ℕ) (s line rest : Bytes)
    → read_line n s ≡ ok (line, rest)
    → (s ≡ line ++ rest) × (length line ≤ n)
unfolding read_line
read_line-splits zero s line rest h = absurd (ground arith)
read_line-splits (suc n) [] line rest h = absurd (ground arith)
read_line-splits (suc n) (c ∷ s) line rest h = elim (Bool-cases (c == b'\n')) [
  | inl e ↦ ground arith
  | inr e ↦ elim (Result-cases (read_line n s)) [
    | inl ((l, r), m) ↦ ground (arith, read_line-splits n s l r m)
    | inr (w, m) ↦ absurd (ground arith)
  ]
]

-- A stream that ends within its first line gives no line.
pub read_line-cut :
    (n : ℕ) (s : Bytes) → IsLineText s → length s < n → read_line n s ≡ err cut_short
unfolding read_line
read_line-cut zero s h few = absurd (ground arith)
read_line-cut (suc n) [] h few = refl
read_line-cut (suc n) (c ∷ s) (hc, h) few = elim (Bool-cases (c == b'\n')) [
  | inl e ↦ absurd (ground arith)
  | inr e ↦ rw (e, read_line-cut n s h (ground arith)) refl
]
