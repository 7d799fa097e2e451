-- ===== src/Base/Utf8.antt =====
-- Go's package unicode/utf8: what the sources use of it.
use Prim.Native.Nat.{ℕ, zero, suc, ◌+◌, ◌-◌, ◌*◌}
use mathlib.Core.Path.{◌≡◌, refl}
use mathlib.Core.Bool.{Bool, true, false, not, ◌&&◌}
use mathlib.Core.List.{[], ◌∷◌, reverse}
use cube_advisor_agent.Base.Tests.{ltb, between, nat_beq, if◌then◌else◌}
use cube_advisor_agent.Base.Lists.{length, drop}
use cube_advisor_agent.Base.Strings.{Bytes}

abbrev pub rune_error : ℕ
rune_error = 0xFFFD

abbrev pub utf_max : ℕ
utf_max = 4

-- A rune and the number of bytes that it takes.
abbrev pub Decoded : Type 0
Decoded = ℕ × ℕ

abbrev bad : Decoded
bad = (rune_error, 1)

abbrev is_continuation : ℕ → Bool
is_continuation = between 0x80 0xBF

-- The range of the second byte, which the first one narrows.
second_low : ℕ → ℕ
second_low a = if nat_beq a 0xE0 then 0xA0 else if nat_beq a 0xF0 then 0x90 else 0x80

second_high : ℕ → ℕ
second_high a = if nat_beq a 0xED then 0x9F else if nat_beq a 0xF4 then 0x8F else 0xBF

decode2 : ℕ → Bytes → Decoded
decode2 a [] = bad
decode2 a (b ∷ s) = if is_continuation b then ((a - 0xC0) * 64 + (b - 0x80), 2) else bad

decode3 : ℕ → Bytes → Decoded
decode3 a (b ∷ c ∷ s) =
    if between (second_low a) (second_high a) b && is_continuation c
    then ((a - 0xE0) * 4096 + (b - 0x80) * 64 + (c - 0x80), 3)
    else bad
decode3 a _ = bad

decode4 : ℕ → Bytes → Decoded
decode4 a (b ∷ c ∷ d ∷ s) =
    if between (second_low a) (second_high a) b && (is_continuation c && is_continuation d)
    then ((a - 0xF0) * 262144 + (b - 0x80) * 4096 + (c - 0x80) * 64 + (d - 0x80), 4)
    else bad
decode4 a _ = bad

-- utf8.DecodeRune
unfoldable pub decode_rune : Bytes → Decoded
unfolding decode2 decode3 decode4 second_low second_high
decode_rune [] = (rune_error, 0)
decode_rune (a ∷ s) =
    if ltb a 0x80
    then (a, 1)
    else if between 0xC2 0xDF a
    then decode2 a s
    else if between 0xE0 0xEF a
    then decode3 a s
    else if between 0xF0 0xF4 a
    then decode4 a s
    else bad

-- utf8.RuneStart
abbrev pub rune_start : ℕ → Bool
rune_start b = not (is_continuation b)

abbrev is_bad : Decoded → Bool
is_bad (r, size) = nat_beq r rune_error && nat_beq size 1

-- The loop of utf8.ValidString, with the length for fuel: each round takes a byte or more.
unfoldable pub valid_from : ℕ → Bytes → Bool
unfolding decode_rune
valid_from fuel [] = true
valid_from zero (a ∷ s) = true
valid_from (suc fuel) (a ∷ s) =
    let (r, size) = decode_rune (a ∷ s) in
    elim (is_bad (r, size)) [ true ↦ false | false ↦ valid_from fuel (drop size (a ∷ s)) ]

unfoldable pub valid_string : Bytes → Bool
unfolding valid_from
valid_string s = valid_from (length s) s

-- From the bytes before the last one, nearest first: those of the rune, in order, up to its start.
window : ℕ → Bytes → Bytes → Bytes
window zero before found = found
window (suc n) [] found = found
window (suc n) (b ∷ before) found = elim (rune_start b) [
  | true ↦ b ∷ found
  | false ↦ window n before (b ∷ found)
]

-- A decoding counts only if it ends at the end.
whole : Bytes → Decoded → Decoded
whole w (r, size) = if nat_beq size (length w) then (r, size) else bad

-- utf8.DecodeLastRune, over the bytes in reverse.
last_rune : Bytes → Decoded
last_rune [] = (rune_error, 0)
last_rune (c ∷ before) =
    if ltb c 0x80 then (c, 1) else (let w = window 3 before (c ∷ []) in whole w (decode_rune w))

unfoldable pub decode_last_rune : Bytes → Decoded
unfolding last_rune window whole decode_rune
decode_last_rune s = last_rune (reverse s)

euro_last : decode_last_rune (0x61 ∷ 0xE2 ∷ 0x82 ∷ 0xAC ∷ []) ≡ (0x20AC, 3)
unfolding decode_last_rune
euro_last = refl

cut_euro : decode_last_rune (0x61 ∷ 0xE2 ∷ 0x82 ∷ []) ≡ (rune_error, 1)
unfolding decode_last_rune
cut_euro = refl

surrogate : valid_string (0xED ∷ 0xA0 ∷ 0x80 ∷ []) ≡ false
unfolding valid_string
surrogate = refl
