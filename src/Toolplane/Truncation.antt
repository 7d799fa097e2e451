-- ===== src/Toolplane/Truncation.antt =====
-- internal/toolplane/registry.go: cutting a command's output at a byte limit between runes.
pub mod Bounds
use cube_advisor_agent.Base.{
  ℕ, zero, suc, ◌-◌, Bool, true, false, not, ◌||◌, ◌++◌, [], ◌∷◌, Bytes, text, nat_eq, ◌==◌,
  if◌then◌else◌, leb, length, take, reverse, itoa,
}
use cube_advisor_agent.Base.Utf8.{rune_start, rune_error, decode_last_rune, utf_max}

-- b[i], 0 from the end on.
unfoldable pub byte_at : Bytes → ℕ → ℕ
byte_at [] i = 0
byte_at (c ∷ b) zero = c
byte_at (c ∷ b) (suc i) = byte_at b i

-- `for cut > 0 && !utf8.RuneStart(b[cut]) { cut-- }`
unfoldable pub back_to_start : Bytes → ℕ → ℕ
back_to_start b zero = zero
back_to_start b (suc cut) = elim (rune_start (byte_at b (suc cut))) [
  | true ↦ suc cut
  | false ↦ back_to_start b cut
]

unfoldable pub truncate_at_rune : Bytes → ℕ → Bytes
unfolding back_to_start byte_at
truncate_at_rune b limit = if leb (length b) limit then b else take (back_to_start b limit) b

abbrev is_broken : ℕ × ℕ → Bool
is_broken (r, size) = if not (r == rune_error) || not (size == 1) then false else true

-- At most `rounds` bytes go, each because no rune ends there.
unfoldable pub trim_rounds : ℕ → Bytes → Bytes
trim_rounds zero b = b
trim_rounds (suc n) [] = []
trim_rounds (suc n) (c ∷ b) = elim (is_broken (decode_last_rune (c ∷ b))) [
  | true ↦ trim_rounds n (take (length b) (c ∷ b))
  | false ↦ c ∷ b
]

unfoldable pub trim_partial_rune : Bytes → Bytes
unfolding trim_rounds
trim_partial_rune = trim_rounds (utf_max - 1)

-- The notice with the number of bytes that were kept.
unfoldable pub truncation_notice : ℕ → Bytes
truncation_notice n =
    b'\n' ∷ (text "[truncated after " ++ (itoa n ++ text " bytes by the executor's output cap]"))
