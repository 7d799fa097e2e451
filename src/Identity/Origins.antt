-- ===== src/Identity/Origins.antt =====
-- internal/identity/consoleorigins.go: the file of console origins that the node's tools read. Go's
-- map is the list of its pairs, in any order.
use cube_advisor_agent.Base.{
  Bool, false, ◌||◌, ◌++◌, [], ◌∷◌, List, Bytes, text, bytes_eq, ◌==◌, if◌then◌else◌, Result, ok,
  err, contains_any, sort_by, trim_space,
}
use cube_advisor_agent.Base.Io.{Io, ◌>>=◌, ◌>>◌, lift, wrapped}
use cube_advisor_agent.Os.{Os, OsError, FilePath, Done, is_not_exist}

abbrev pub Origins : Type 0
Origins = List (Bytes × Bytes)

abbrev pub origins_path : Bytes → FilePath
origins_path dir = record { dir = dir; name = text "console-origins" }

abbrev pub white : Bytes
white = b' ' ∷ b'\t' ∷ b'\r' ∷ b'\n' ∷ []

pub data OriginsError : Type 0 where
  blank_in : Bytes → OriginsError
  remove_failed make_dir_failed temp_failed write_failed : OsError → OriginsError
  close_failed chmod_failed install_failed : OsError → OriginsError

-- The loop over the sorted targets.
unfoldable pub lines_of : Origins → Result OriginsError Bytes
lines_of [] = ok []
lines_of ((target, origin) ∷ more) =
    let rest = lines_of more in
    if contains_any white target || contains_any white origin
    then err (blank_in target)
    else elim rest [ err e ↦ err e | ok b ↦ ok (target ++ b' ' ∷ (origin ++ b'\n' ∷ b)) ]

abbrev pub is_same : Result OsError Bytes → Bytes → Bool
is_same (ok old) content = old == content
is_same (err e) content = false

module _ (os : Os) where
  abbrev pub Call : Type 0 → Type 0
  Call A = Io os.State OriginsError A

  abbrev pub withdrawn : os.State × Done → os.State × Result OriginsError (Unit {0})
  withdrawn (t, ok _) = (t, ok tt)
  withdrawn (t, err e) = if is_not_exist e then (t, ok tt) else (t, err (remove_failed e))

  -- WriteString, which is followed by a Close whatever it returns.
  abbrev pub filled : FilePath → os.State × Done → os.State × Result OriginsError (Unit {0})
  filled tmp (t, ok _) = wrapped close_failed (os.close t tmp)
  filled tmp (t, err e) = ((os.close t tmp).0, err (write_failed e))

  abbrev pub installed : FilePath → FilePath → Bytes → Call (Unit {0})
  installed tmp path content = do
    λ s. filled tmp (os.append s tmp content)
    λ s. wrapped chmod_failed (os.chmod s tmp 0o644)
    λ s. wrapped install_failed (os.rename s tmp path)

  -- The deferred removal of the temporary file.
  abbrev pub then_removed :
      FilePath
      → os.State × Result OriginsError (Unit {0})
      → os.State × Result OriginsError (Unit {0})
  then_removed tmp (t, r) = ((os.remove t tmp).0, r)

  abbrev pub replace : Bytes → Bytes → Call (Unit {0})
  replace dir content = do
    λ s. wrapped make_dir_failed (os.mkdir_all s dir 0o700)
    tmp ← λ s. wrapped temp_failed (os.create_temp s dir (text "console-origins.") [])
    λ s. then_removed tmp (installed tmp (origins_path dir) content s)

  unfoldable pub record_content : Bytes → Bytes → Call (Unit {0})
  record_content dir content s =
      if is_same (os.read_file s (origins_path dir)) content
      then (s, ok tt)
      else replace dir content s

  unfoldable pub record_console_origins : Bytes → Origins → Call (Unit {0})
  unfolding lines_of record_content
  record_console_origins dir [] s = withdrawn (os.remove s (origins_path dir))
  record_console_origins dir (o ∷ more) s =
      (lift (lines_of (sort_by (λ (p : Bytes × Bytes). p.0) (o ∷ more))) >>= record_content dir) s

  abbrev pub console_ca_path : Bytes → FilePath
  console_ca_path dir = record { dir = dir; name = text "console-ca.pub" }

  unfoldable pub record_console_ca : os.State → Bytes → Bytes → os.State × Done
  record_console_ca s dir line =
      if trim_space line == []
      then (s, ok tt)
      else os.write_file s (console_ca_path dir) (trim_space line ++ b'\n' ∷ []) 0o644
