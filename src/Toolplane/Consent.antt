-- ===== src/Toolplane/Consent.antt =====
-- internal/toolplane/consent.go: how much a person is asked, and the file that says so.
use cube_advisor_agent.Base.{
  ℕ, ◌++◌, [], none, some, Bytes, text, bytes_eq, nat_eq, ◌==◌, itoa, trim_space, if◌then◌else◌, ok,
  err,
}
use cube_advisor_agent.Os.{Os, FilePath, is_not_exist}
use cube_advisor_agent.Toolplane.Level.{
  not_a_word, stat_failed, writable_by_others, read_failed, Answer, others_may_write,
}

abbrev pub consent_file_name : Bytes
consent_file_name = text "consent"

abbrev pub Consent : Type 0
Consent = ℕ

abbrev pub consent_never : Consent
consent_never = 1

abbrev pub consent_destructive : Consent
consent_destructive = 2

abbrev pub consent_always : Consent
consent_always = 3

abbrev pub default_consent : Consent
default_consent = consent_always

unfoldable pub consent_string : Consent → Bytes
consent_string c =
    if c == consent_never
    then text "never"
    else if c == consent_destructive
    then text "destructive"
    else if c == consent_always
    then text "always"
    else text "consent(" ++ (itoa c ++ text ")")

unfoldable pub parse_consent : Bytes → Answer
parse_consent s =
    if s == text "never"
    then (consent_never, none)
    else if s == text "destructive"
    then (consent_destructive, none)
    else if s == text "always"
    then (consent_always, none)
    else (default_consent, some (not_a_word s))

unfoldable pub consent_of_content : Bytes → Answer
consent_of_content b =
    let word = trim_space b in
    if word == []
    then (default_consent, none)
    else (let (c, e) = parse_consent word in
        elim e [ none ↦ (c, none) | some why ↦ (default_consent, some why) ])

abbrev pub consent_path : Bytes → FilePath
consent_path dir = record { dir = dir; name = consent_file_name }

module _ (os : Os) where
  unfoldable pub read_consent : os.State → Bytes → Answer
  read_consent s dir = elim (os.stat s (consent_path dir)) [
    | err e ↦
        if is_not_exist e then (default_consent, none) else (default_consent, some (stat_failed e))
    | ok perm ↦
        if others_may_write perm
        then (default_consent, some (writable_by_others perm))
        else elim (os.read_file s (consent_path dir)) [
          | err e ↦ (default_consent, some (read_failed e))
          | ok b ↦ consent_of_content b
        ]
  ]
