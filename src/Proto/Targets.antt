-- ===== src/Proto/Targets.antt =====
-- Target.Validate against a description of symbolic names that does not follow its checks.
use cube_advisor_agent.Base.{
  ℕ, ◌≤◌, ◌≡◌, ◌≢◌, ◌↔◌, ◌⊎◌, refl, true, none, [], ◌∷◌, arith, Bytes, text, bytes_beq_iff, All,
  Any, length, contains, ok,
}
use cube_advisor_agent.Proto.{
  Target, TargetKind, target_ssh, target_web, target_tool, valid_target_kind, max_target_name_len,
  is_name_rune, digits_and_dots, is_dotted_numeric, bad_rune, validate_target,
}

abbrev pub IsNameRune : ℕ → Type 0
IsNameRune r =
    ((b'a' ≤ r) × (r ≤ b'z'))
    ⊎ ((b'A' ≤ r) × (r ≤ b'Z'))
    ⊎ ((b'0' ≤ r) × (r ≤ b'9'))
    ⊎ (r ≡ b'-')
    ⊎ (r ≡ b'_')
    ⊎ (r ≡ b'.')

abbrev pub IsDigitOrDot : ℕ → Type 0
IsDigitOrDot r = ((b'0' ≤ r) × (r ≤ b'9')) ⊎ (r ≡ b'.')

-- What isDottedNumeric looks for: digits and dots only, with a dot among them.
abbrev pub IsDottedNumeric : Bytes → Type 0
IsDottedNumeric s = All IsDigitOrDot s × Any (λ r. r ≡ b'.') s

abbrev pub IsKnownKind : TargetKind → Type 0
IsKnownKind k = (k ≡ target_ssh) ⊎ (k ≡ target_web) ⊎ (k ≡ target_tool)

pub record IsSymbolic (t : Target) : Type 0 where
  pub known : IsKnownKind t.kind
  pub named : t.name ≢ []
  pub short : length t.name ≤ max_target_name_len
  pub plain : All IsNameRune t.name
  pub not_dotted : ¬ IsDottedNumeric t.name

is_name_rune_iff : (r : ℕ) → (is_name_rune r ≡ true) ↔ IsNameRune r
unfolding is_name_rune
is_name_rune_iff r = ground arith

pub bad_rune-none_iff : (s : Bytes) → (bad_rune s ≡ none) ↔ All IsNameRune s
unfolding bad_rune
bad_rune-none_iff [] = (λ _. tt, λ _. refl)
bad_rune-none_iff (r ∷ s) = ground (arith, bad_rune-none_iff s, is_name_rune_iff r)

digits_and_dots_iff : (s : Bytes) → (digits_and_dots s ≡ true) ↔ All IsDigitOrDot s
unfolding digits_and_dots
digits_and_dots_iff [] = (λ _. tt, λ _. refl)
digits_and_dots_iff (r ∷ s) = ground (arith, digits_and_dots_iff s)

contains-dot_iff : (s : Bytes) → (contains (text ".") s ≡ true) ↔ Any (λ r. r ≡ b'.') s
unfolding contains text
contains-dot_iff [] = (λ h. cc, λ h. absurd h)
contains-dot_iff (r ∷ s) = ground (arith, contains-dot_iff s)

pub is_dotted_numeric_iff : (s : Bytes) → (is_dotted_numeric s ≡ true) ↔ IsDottedNumeric s
unfolding is_dotted_numeric
is_dotted_numeric_iff s = ground (arith, digits_and_dots_iff s, contains-dot_iff s)

pub valid_target_kind_iff : (k : TargetKind) → (valid_target_kind k ≡ true) ↔ IsKnownKind k
unfolding valid_target_kind
valid_target_kind_iff k =
    ground
      (arith, bytes_beq_iff k target_ssh, bytes_beq_iff k target_web, bytes_beq_iff k target_tool)

-- A target passes exactly if its kind is known and its name is a symbolic one: not empty, at most 64
-- bytes of letters, digits and -_. alone, and not made of digits and dots with a dot among them.
pub validate_target-IsSymbolic : (t : Target) → (validate_target t ≡ ok tt) ↔ IsSymbolic t
unfolding validate_target
validate_target-IsSymbolic t = ground (
  arith,
  valid_target_kind_iff t.kind,
  bytes_beq_iff t.name [],
  bad_rune-none_iff t.name,
  is_dotted_numeric_iff t.name,
)
