-- ===== src/Identity.antt =====
-- internal/identity/currentrelease.go: the file that names the service's current release.
pub mod CurrentRelease
pub mod Kept
pub mod Failures
pub mod Store
pub mod Origins
pub mod Removal
pub mod OriginsFile
pub mod Enrolment
pub mod Issued
pub mod Enrolled
pub mod NotRefused
pub mod Reload
pub mod Writes
use cube_advisor_agent.Base.{
  ℕ, Bool, true, false, ◌++◌, [], ◌∷◌, Bytes, text, bytes_eq, ◌==◌, if◌then◌else◌, Result, ok, err,
  contains_any, trim_space,
}
use cube_advisor_agent.Os.{Os, OsError, FilePath, Done, is_not_exist}

abbrev pub current_release_path : Bytes → FilePath
current_release_path dir = record { dir = dir; name = text "current-release" }

abbrev pub temporary_path : Bytes → FilePath
temporary_path dir = record { dir = dir; name = text "current-release" ++ text ".tmp" }

abbrev pub line_end : Bytes
line_end = b'\n' ∷ []

abbrev pub blanks : Bytes
blanks = b' ' ∷ b'\t' ∷ b'\r' ∷ b'\n' ∷ b'/' ∷ []

pub data RecordError : Type 0 where
  not_a_version : Bytes → RecordError
  remove_failed : OsError → RecordError
  write_failed : OsError → RecordError

abbrev pub Recorded : Type 0
Recorded = Result RecordError (Unit {0})

-- Whether the file holds the version already.
abbrev holds : Result OsError Bytes → Bytes → Bool
holds (err e) v = false
holds (ok b) v = trim_space b == v

abbrev after_remove : {S : Type 0} → S × Done → S × Recorded
after_remove (t, ok _) = (t, ok tt)
after_remove (t, err e) = if is_not_exist e then (t, ok tt) else (t, err (remove_failed e))

abbrev after_rename : {S : Type 0} → S × Done → S × Recorded
after_rename (t, ok _) = (t, ok tt)
after_rename (t, err e) = (t, err (write_failed e))

module _ (os : Os) where
  abbrev pub after_write : Bytes → os.State × Done → os.State × Recorded
  after_write dir (t, ok _) =
      after_rename (os.rename t (temporary_path dir) (current_release_path dir))
  after_write dir (t, err e) = (t, err (write_failed e))

  -- From the trimmed version on.
  unfoldable pub record_version : os.State → Bytes → Bytes → os.State × Recorded
  record_version s dir v =
      if v == []
      then after_remove (os.remove s (current_release_path dir))
      else if contains_any blanks v
      then (s, err (not_a_version v))
      else if holds (os.read_file s (current_release_path dir)) v
      then (s, ok tt)
      else after_write dir (os.write_file s (temporary_path dir) (v ++ line_end) 0o644)

  unfoldable pub record_current_release : os.State → Bytes → Bytes → os.State × Recorded
  unfolding record_version
  record_current_release s dir version = record_version s dir (trim_space version)
