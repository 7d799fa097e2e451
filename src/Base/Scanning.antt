-- ===== src/Base/Scanning.antt =====
-- bufio.Scanner over lines, strings.Trim and strings.TrimRight.
use cube_advisor_agent.Base.{
  ℕ, ◌*◌, ◌^◌, [], ◌∷◌, List, Bytes, if◌then◌else◌, ltb, length, elem, split, strip, reverse,
  trim_suffix,
}

-- A line that does not fit in the scanner's buffer ends the scan without a word.
abbrev pub max_scan_token : ℕ
max_scan_token = 64 * 2 ^ 10

-- The pieces between the line ends; what stands behind the last one is a line if it is not empty.
unfoldable pub tokens : List Bytes → List Bytes
tokens [] = []
tokens ([] ∷ []) = []
tokens ((c ∷ cs) ∷ []) =
    if ltb (length (c ∷ cs)) max_scan_token then trim_suffix (b'\r' ∷ []) (c ∷ cs) ∷ [] else []
tokens (line ∷ next ∷ more) =
    let rest = tokens (next ∷ more) in
    if ltb (length line) max_scan_token then trim_suffix (b'\r' ∷ []) line ∷ rest else []

unfoldable pub scan_lines : Bytes → List Bytes
unfolding tokens split
scan_lines content = tokens (split b'\n' content)

unfoldable pub set_width : Bytes → Bytes → ℕ
set_width set [] = 0
set_width set (c ∷ s) = if elem c set then 1 else 0

-- strings.TrimRight for a set of ASCII characters.
unfoldable pub trim_right : Bytes → Bytes → Bytes
unfolding strip set_width
trim_right set s = reverse (strip (set_width set) (length s) (reverse s))

-- strings.Trim
unfoldable pub trim_set : Bytes → Bytes → Bytes
unfolding strip set_width trim_right
trim_set set s = trim_right set (strip (set_width set) (length s) s)
