-- ===== src/Toolplane/Dials.antt =====
-- internal/toolplane/dials.go: recording the dials beside the identity.
pub mod RoundTrip
use cube_advisor_agent.Base.{ℕ, ◌++◌, [], ◌∷◌, Option, none, some, Bytes, text, Result, ok, err}
use cube_advisor_agent.Os.{Os, OsError, FilePath}
use cube_advisor_agent.Toolplane.Level.{DialError, parse_level, level_string, level_path}
use cube_advisor_agent.Toolplane.Consent.{parse_consent, consent_string, consent_path}

pub data WriteError : Type 0 where
  refused : DialError → WriteError
  write_failed : OsError → WriteError
  chmod_failed : OsError → WriteError

abbrev pub Written : Type 0
Written = Result WriteError (Unit {0})

abbrev pub dial_mode : ℕ
dial_mode = 0o644

abbrev newline : Bytes
newline = b'\n' ∷ []

module _ (os : Os) where
  unfoldable pub write_dial : os.State → FilePath → Bytes → os.State × Written
  write_dial s path word =
      let (s', wrote) = os.write_file s path (word ++ newline) dial_mode in
      elim wrote [
        | err e ↦ (s', err (write_failed e))
        | ok _ ↦
            let (t, done) = os.chmod s' path dial_mode in
            elim done [ err e ↦ (t, err (chmod_failed e)) | ok _ ↦ (t, ok tt) ]
      ]

  unfoldable pub write_level : os.State → Bytes → Bytes → os.State × Written
  unfolding write_dial
  write_level s dir level =
      let (l, e) = parse_level level in
      elim e [
        | some why ↦ (s, err (refused why))
        | none ↦ write_dial s (level_path dir) (level_string l)
      ]

  unfoldable pub write_consent : os.State → Bytes → Bytes → os.State × Written
  unfolding write_dial
  write_consent s dir c =
      let (v, e) = parse_consent c in
      elim e [
        | some why ↦ (s, err (refused why))
        | none ↦ write_dial s (consent_path dir) (consent_string v)
      ]
