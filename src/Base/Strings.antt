-- ===== src/Base/Strings.antt =====
-- Go's strings are sequences of bytes: the functions of package strings that the sources call.
use Prim.Native.Nat.{ℕ, zero, suc, ◌+◌, ◌/◌, ◌%◌}
use Prim.Native.Char.{code}
use Prim.Native.String.{String}
use mathlib.Core.Path.{◌≡◌, refl}
use mathlib.Core.Logic.{◌↔◌}
use mathlib.Core.Bool.{Bool, true, false, ◌&&◌, ◌||◌}
use mathlib.Core.Option.{Option, none, some}
use mathlib.Core.List.{List, [], ◌∷◌, ◌++◌, reverse}
use native.Mathlib.Omega.{arith}
use cube_advisor_agent.Base.Tests.{ltb, between, nat_beq, if◌then◌else◌, Eq, nat_eq}
use cube_advisor_agent.Base.Lists.{length, drop}

abbrev pub Bytes : Type 0
Bytes = List ℕ

abbrev codes : String → Bytes
codes String.[] = []
codes (String.◌∷◌ c s) = code c ∷ codes s

-- A string literal of the source; all of them are ASCII.
unfoldable pub text : String → Bytes
text = codes

unfoldable pub bytes_beq : Bytes → Bytes → Bool
bytes_beq [] [] = true
bytes_beq (a ∷ s) (b ∷ t) = nat_beq a b && bytes_beq s t
bytes_beq _ _ = false

pub bytes_beq_iff : (s t : Bytes) → (bytes_beq s t ≡ true) ↔ (s ≡ t)
unfolding bytes_beq
bytes_beq_iff [] [] = ground arith
bytes_beq_iff [] (b ∷ t) = ground arith
bytes_beq_iff (a ∷ s) [] = ground arith
bytes_beq_iff (a ∷ s) (b ∷ t) = ground (arith, bytes_beq_iff s t)

pub bytes_beq_refl : (s : Bytes) → bytes_beq s s ≡ true
bytes_beq_refl s = (bytes_beq_iff s s).1 refl

instance abbrev pub bytes_eq : Eq Bytes
bytes_eq = record { equal = bytes_beq; equal_iff = bytes_beq_iff }

-- strings.HasPrefix(s, p), with the prefix first.
unfoldable pub has_prefix : Bytes → Bytes → Bool
has_prefix [] s = true
has_prefix (a ∷ p) [] = false
has_prefix (a ∷ p) (b ∷ s) = nat_beq a b && has_prefix p s

-- strings.TrimPrefix
unfoldable pub trim_prefix : Bytes → Bytes → Bytes
unfolding has_prefix
trim_prefix p s = if has_prefix p s then drop (length p) s else s

-- strings.TrimSuffix
unfoldable pub trim_suffix : Bytes → Bytes → Bytes
unfolding trim_prefix
trim_suffix p s = reverse (trim_prefix (reverse p) (reverse s))

-- strings.Contains
unfoldable pub contains : Bytes → Bytes → Bool
unfolding has_prefix
contains p [] = has_prefix p []
contains p (c ∷ s) = has_prefix p (c ∷ s) || contains p s

abbrev pub elem : ℕ → Bytes → Bool
elem c [] = false
elem c (d ∷ s) = nat_beq c d || elem c s

-- strings.ContainsAny for a set of ASCII characters.
unfoldable pub contains_any : Bytes → Bytes → Bool
contains_any set [] = false
contains_any set (c ∷ s) = elem c set || contains_any set s

-- What stands before and after the first match of `sep`: strings.Cut, with `none` for not found.
unfoldable pub cut : Bytes → Bytes → Option (Bytes × Bytes)
unfolding has_prefix
cut sep [] = if has_prefix sep [] then some ([], []) else none
cut sep (c ∷ s) =
    let later : Option (Bytes × Bytes) = elim (cut sep s) [
      | none ↦ none
      | some (a, b) ↦ some (c ∷ a, b)
    ] in
    if has_prefix sep (c ∷ s) then some ([], drop (length sep) (c ∷ s)) else later

-- strings.Split at a single byte: the current part, then the others.
unfoldable pub split_at : ℕ → Bytes → Bytes × List Bytes
split_at sep [] = ([], [])
split_at sep (c ∷ s) =
    let (part, parts) = split_at sep s in
    if nat_beq c sep then ([], part ∷ parts) else (c ∷ part, parts)

unfoldable pub split : ℕ → Bytes → List Bytes
unfolding split_at
split sep s = let (part, parts) = split_at sep s in part ∷ parts

-- strings.Join
unfoldable pub join : Bytes → List Bytes → Bytes
join sep [] = []
join sep (p ∷ []) = p
join sep (p ∷ q ∷ ps) = p ++ (sep ++ join sep (q ∷ ps))

-- Drop leading bytes as long as `width` says how many belong to one character to drop.
unfoldable pub strip : (Bytes → ℕ) → ℕ → Bytes → Bytes
strip width zero s = s
strip width (suc fuel) s = elim (width s) [ zero ↦ s | suc n ↦ strip width fuel (drop (suc n) s) ]

-- unicode.IsSpace, by the UTF-8 encodings of the white space characters.
abbrev pub is_space1 : ℕ → Bool
is_space1 a = between 9 13 a || nat_beq a 32

abbrev is_space2 : ℕ → ℕ → Bool
is_space2 a b = nat_beq a 0xC2 && (nat_beq b 0x85 || nat_beq b 0xA0)

abbrev is_space3 : ℕ → ℕ → ℕ → Bool
is_space3 a b c =
    nat_beq a 0xE1 && (nat_beq b 0x9A && nat_beq c 0x80)
    || (nat_beq a 0xE2
          && (nat_beq b 0x80
              && (between 0x80 0x8A c || (nat_beq c 0xA8 || (nat_beq c 0xA9 || nat_beq c 0xAF))))
        || (nat_beq a 0xE2 && (nat_beq b 0x81 && nat_beq c 0x9F)
            || nat_beq a 0xE3 && (nat_beq b 0x80 && nat_beq c 0x80)))

-- The length of the white space character that a string begins with, 0 if there is none.
unfoldable pub space_width : Bytes → ℕ
space_width [] = 0
space_width (a ∷ []) = if is_space1 a then 1 else 0
space_width (a ∷ b ∷ []) = if is_space1 a then 1 else if is_space2 a b then 2 else 0
space_width (a ∷ b ∷ c ∷ s) =
    if is_space1 a then 1 else if is_space2 a b then 2 else if is_space3 a b c then 3 else 0

-- The same for the end of a string, read backwards.
unfoldable pub space_width_rev : Bytes → ℕ
space_width_rev [] = 0
space_width_rev (a ∷ []) = if is_space1 a then 1 else 0
space_width_rev (b ∷ a ∷ []) = if is_space1 b then 1 else if is_space2 a b then 2 else 0
space_width_rev (c ∷ b ∷ a ∷ s) =
    if is_space1 c then 1 else if is_space2 b c then 2 else if is_space3 a b c then 3 else 0

-- strings.TrimSpace
unfoldable pub trim_space : Bytes → Bytes
unfolding strip space_width space_width_rev
trim_space s =
    let front = strip space_width (length s) s in
    reverse (strip space_width_rev (length front) (reverse front))

-- strings.ToLower, on the ASCII letters; other bytes are kept.
unfoldable pub to_lower : Bytes → Bytes
to_lower [] = []
to_lower (c ∷ s) = (if between b'A' b'Z' c then c + 32 else c) ∷ to_lower s

-- strconv.Itoa of a number that is not negative.
unfoldable pub digits : ℕ → ℕ → Bytes → Bytes
digits zero n out = out
digits (suc fuel) n out = elim (ltb n 10) [
  | true ↦ (b'0' + n) ∷ out
  | false ↦ digits fuel (n / 10) ((b'0' + n % 10) ∷ out)
]

unfoldable pub itoa : ℕ → Bytes
unfolding digits
itoa n = digits (suc n) n []
