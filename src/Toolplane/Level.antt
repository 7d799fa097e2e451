-- ===== src/Toolplane/Level.antt =====
-- internal/toolplane/level.go: the cluster's action level and the file that names it.
pub mod FailClosed
use cube_advisor_agent.Base.{
  ℕ, zero, ◌≡◌, Bool, true, false, not, ◌++◌, [], Option, none, some, Bytes, text, bytes_eq, nat_eq,
  ◌==◌, itoa, trim_space, if◌then◌else◌, Result, ok, err, bit_and,
}
use cube_advisor_agent.Os.{Os, OsError, FilePath, is_not_exist}

abbrev pub level_file_name : Bytes
level_file_name = text "action-level"

-- The constants begin at 1; 0 is "unset".
abbrev pub Level : Type 0
Level = ℕ

abbrev pub level_observe : Level
level_observe = 1

abbrev pub level_operate : Level
level_operate = 2

abbrev pub level_internal : Level
level_internal = 3

abbrev pub default_level : Level
default_level = level_observe

unfoldable pub level_string : Level → Bytes
level_string l =
    if l == level_observe
    then text "observe"
    else if l == level_operate
    then text "operate"
    else if l == level_internal
    then text "internal"
    else text "level(" ++ (itoa l ++ text ")")

-- Why a dial's file is not honoured.
pub data DialError : Type 0 where
  not_a_word : Bytes → DialError
  stat_failed : OsError → DialError
  writable_by_others : ℕ → DialError
  read_failed : OsError → DialError

-- Go returns the value beside the error, so both are kept.
abbrev pub Answer : Type 0
Answer = ℕ × Option DialError

unfoldable pub parse_level : Bytes → Answer
parse_level s =
    if s == text "observe"
    then (level_observe, none)
    else if s == text "operate"
    then (level_operate, none)
    else if s == text "internal"
    then (level_internal, none)
    else (default_level, some (not_a_word s))

-- After the file's content: its word.
unfoldable pub level_of_content : Bytes → Answer
level_of_content b =
    let word = trim_space b in
    if word == []
    then (default_level, none)
    else (let (l, e) = parse_level word in
        elim e [ none ↦ (l, none) | some why ↦ (default_level, some why) ])

abbrev pub level_path : Bytes → FilePath
level_path dir = record { dir = dir; name = level_file_name }

-- perm & 0o022 != 0
unfoldable pub others_may_write : ℕ → Bool
others_may_write perm = not (bit_and perm 0o022 == 0)

module _ (os : Os) where
  unfoldable pub read_level : os.State → Bytes → Answer
  read_level s dir = elim (os.stat s (level_path dir)) [
    | err e ↦
        if is_not_exist e then (default_level, none) else (default_level, some (stat_failed e))
    | ok perm ↦
        if others_may_write perm
        then (default_level, some (writable_by_others perm))
        else elim (os.read_file s (level_path dir)) [
          | err e ↦ (default_level, some (read_failed e))
          | ok b ↦ level_of_content b
        ]
  ]
