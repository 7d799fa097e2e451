-- ===== src/Credential.antt =====
-- internal/openstack/admin.go: the node's admin credential as an openrc file exports it.
pub mod Admin
use cube_advisor_agent.Base.{
  ℕ, Bool, true, false, ◌&&◌, ◌||◌, [], ◌∷◌, List, Option, none, some, Bytes, text, bytes_eq,
  nat_eq, ◌==◌, if◌then◌else◌, Result, ok, err, ltb, length, take, reverse, trim_prefix, cut,
  trim_space,
}
use cube_advisor_agent.Base.Scanning.{scan_lines}
use cube_advisor_agent.Os.{OsError}

pub record Openrc : Type 0 where
  pub auth_url : Bytes
  pub username : Bytes
  pub password : Bytes
  pub project : Bytes
  pub user_domain : Bytes
  pub project_domain : Bytes
  pub ca_cert : Bytes

pub data OpenrcError : Type 0 where
  unreadable : OsError → OpenrcError
  lacks_variables : OpenrcError

abbrev pub blank_openrc : Openrc
blank_openrc = record {
  auth_url = [];
  username = [];
  password = [];
  project = [];
  user_domain = text "Default";
  project_domain = text "Default";
  ca_cert = [];
}

-- The body between a first character and a last one that is the same quote.
abbrev pub last_is : ℕ → Bytes → Bool
last_is q [] = false
last_is q (c ∷ []) = c == q
last_is q (c ∷ d ∷ s) = last_is q (d ∷ s)

abbrev pub but_last : Bytes → Bytes
but_last [] = []
but_last (c ∷ []) = []
but_last (c ∷ d ∷ s) = c ∷ but_last (d ∷ s)

unfoldable pub unquoted : Bytes → Bytes
unquoted [] = []
unquoted (q ∷ v) = if (q == b'"' || q == b'\'') && last_is q v then but_last v else q ∷ v

-- The switch over the variable's name.
unfoldable pub assign : Bytes → Bytes → Openrc → Openrc
assign k v o =
    if k == text "OS_AUTH_URL"
    then record o { auth_url = v }
    else if k == text "OS_USERNAME"
    then record o { username = v }
    else if k == text "OS_PASSWORD"
    then record o { password = v }
    else if k == text "OS_PROJECT_NAME"
    then record o { project = v }
    else if k == text "OS_USER_DOMAIN_NAME"
    then record o { user_domain = v }
    else if k == text "OS_PROJECT_DOMAIN_NAME"
    then record o { project_domain = v }
    else if k == text "OS_CACERT"
    then record o { ca_cert = v }
    else o

-- What follows "export ", if a line begins with that.
unfoldable pub read_line : Bytes → Openrc → Openrc
unfolding unquoted assign
read_line content o =
    elim (cut (text "=") (trim_space (trim_prefix (text "export ") (trim_space content)))) [
      | none ↦ o
      | some (k, v) ↦ assign (trim_space k) (unquoted (trim_space v)) o
    ]

unfoldable pub read_lines : List Bytes → Openrc → Openrc
unfolding read_line
read_lines [] o = o
read_lines (line ∷ lines) o = read_lines lines (read_line line o)

unfoldable pub lacks : Openrc → Bool
lacks o = o.auth_url == [] || (o.username == [] || (o.password == [] || o.project == []))

abbrev pub checked : Openrc → Result OpenrcError Openrc
checked o = if lacks o then err lacks_variables else ok o

unfoldable pub read_openrc : Result OsError Bytes → Result OpenrcError Openrc
unfolding read_lines lacks scan_lines
read_openrc (ok content) = checked (read_lines (scan_lines content) blank_openrc)
read_openrc (err e) = err (unreadable e)
