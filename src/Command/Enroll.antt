-- ===== src/Command/Enroll.antt =====
-- cmd/agent/main.go: the enroll and status commands.
pub mod Outcomes
pub mod Replaced
pub mod Beside
pub mod Untouched
use cube_advisor_agent.Base.{
  ℕ, Bool, true, false, not, ◌&&◌, [], ◌∷◌, List, Option, none, some, Bytes, text, bytes_eq, ◌==◌,
  if◌then◌else◌, Result, ok, err, contains,
}
use cube_advisor_agent.Base.Io.{Io, ◌>>=◌, ◌>>◌, return, lift}
use cube_advisor_agent.Base.Scanning.{trim_right}
use cube_advisor_agent.Os.{Os}
use cube_advisor_agent.NodeName.{NameError, node_id}
use cube_advisor_agent.Identity.Failures.{IdentityError, Printing, error_text, is_token_rejected}
use cube_advisor_agent.Identity.Store.{Pki, Identity, exists, load}
use cube_advisor_agent.Identity.Writes.{save, save_server, remove}
use cube_advisor_agent.Identity.Enrolment.{Outside, Enroller, enroll, enroll_and_save, fingerprint}
use cube_advisor_agent.Identity.Origins.{record_console_ca}
use cube_advisor_agent.Toolplane.Dials.{write_level, write_consent}
use cube_advisor_agent.Command.{
  exit_ok, exit_failed, exit_usage, exit_already, exit_token_refused, exit_unreachable,
}
use cube_advisor_agent.Command.Tokens.{read_token, cluster_id_from_driver, derive_tunnel_addr}

pub record EnrollFlags : Type 0 where
  pub server : Bytes
  pub cluster : Bytes
  pub node : Bytes
  pub dir : Bytes
  pub token : Bytes
  pub token_file : Bytes
  pub token_stdin : Bool
  pub force : Bool
  pub tunnel : Bytes

-- What the command finds around it: the hostname, the standard input, url.Parse, a new key, the text
-- of errors, and the version of the build.
pub record Around (Key : Type 0) : Type 0 where
  pub hostname : Result Bytes Bytes
  pub stdin : Result Bytes Bytes
  pub hostname_of : Bytes → Result Bytes Bytes
  pub new_key : Result Bytes Key
  pub printing : Printing
  pub version : Bytes
  -- strings.Map over Unicode's table of small letters
  pub map_lower : Bytes → Bytes

-- The switch over the error of an enrolment.
unfoldable pub failure_code : Printing → IdentityError → ℕ
unfolding error_text contains
failure_code p e =
    if is_token_rejected e
    then exit_token_refused
    else if contains (text "unreachable") (error_text p e)
    then exit_unreachable
    else exit_failed

abbrev pub enroller : Bytes → EnrollFlags → Enroller
enroller version f = record { base_url = trim_right (text "/") f.server; agent_version = version }

module _ (os : Os) (pki : Pki) (out : Outside pki) (around : Around pki.Key) where
  abbrev pub Ran : Type 0
  Ran = os.State × ℕ

  -- The cluster that an enrolment names, if any can be told.
  unfoldable pub cluster_of : os.State → EnrollFlags → Option Bytes
  cluster_of s f =
      if not (f.cluster == [])
      then some f.cluster
      else if not (cluster_id_from_driver os s == [])
      then some (cluster_id_from_driver os s)
      else elim around.hostname [ err why ↦ none | ok h ↦ some h ]

  abbrev pub asked : EnrollFlags → Bytes → Bytes → Bytes → Result IdentityError (Identity pki.Key)
  asked f cluster node token =
      enroll pki out (enroller around.version f) around.new_key cluster node token

  -- Once the service gave an identity, replacing the old one.
  unfoldable pub replaced : Bytes → Identity pki.Key → Io os.State IdentityError (Identity pki.Key)
  replaced dir id = do remove os dir; save os pki dir id; return id

  -- With -force the service answers before the old identity is removed.
  unfoldable pub obtain :
      EnrollFlags
      → Bytes
      → Bytes
      → Bytes
      → os.State
      → os.State × Result IdentityError (Identity pki.Key)
  unfolding enroll enroll_and_save replaced remove save
  obtain f cluster node token s =
      if f.force
      then (lift (asked f cluster node token) >>= replaced f.dir) s
      else enroll_and_save pki out os (enroller around.version f) around.new_key s f.dir cluster
          node token

  -- The tunnel's address is kept where it can be told; no failure from here on undoes the enrolment.
  abbrev keep_address : EnrollFlags → os.State → os.State
  keep_address f s =
      if not (f.tunnel == [])
      then (save_server os f.dir f.tunnel s).0
      else elim (derive_tunnel_addr around.hostname_of f.server) [
        | err e ↦ s
        | ok addr ↦ (save_server os f.dir addr s).0
      ]

  abbrev keep_level : Bytes → Bytes → os.State → os.State
  keep_level dir level s = if not (level == []) then (write_level os s dir level).0 else s

  abbrev keep_consent : Bytes → Bytes → os.State → os.State
  keep_consent dir consent s = if not (consent == []) then (write_consent os s dir consent).0 else s

  abbrev keep_ca : Bytes → Bytes → os.State → os.State
  keep_ca dir line s = if not (line == []) then (record_console_ca os s dir line).0 else s

  -- What follows an identity that was obtained.
  unfoldable pub record_enrolment : EnrollFlags → Identity pki.Key → os.State → Ran
  unfolding fingerprint
  record_enrolment f id s =
      let addressed = keep_address f s in
      elim (fingerprint pki out id.key) [
        | err e ↦ (addressed, exit_failed)
        | ok fp ↦ (
          keep_ca f.dir id.console_ca
              (keep_consent f.dir id.consent (keep_level f.dir id.action_level addressed)),
          exit_ok,
        )
      ]

  abbrev pub obtained : EnrollFlags → os.State × Result IdentityError (Identity pki.Key) → Ran
  obtained f (t, ok id) = record_enrolment f id t
  obtained f (t, err e) = (t, failure_code around.printing e)

  -- From the names and the token on.
  unfoldable pub enroll_as : EnrollFlags → Bytes → Bytes → Bytes → os.State → Ran
  unfolding obtain record_enrolment failure_code exists
  enroll_as f cluster node token s =
      if exists os s f.dir && not f.force
      then (s, exit_already)
      else obtained f (obtain f cluster node token s)

  unfoldable pub enroll_cmd : Option EnrollFlags → os.State → Ran
  unfolding cluster_of enroll_as node_id read_token
  enroll_cmd none s = (s, exit_usage)
  enroll_cmd (some f) s = if f.server == [] then (s, exit_usage) else elim (cluster_of s f) [
    | none ↦ (s, exit_usage)
    | some cluster ↦ elim (node_id around.map_lower f.node around.hostname) [
      | err e ↦ (s, exit_usage)
      | ok node ↦ elim (read_token os s f.token f.token_file f.token_stdin around.stdin) [
        | err e ↦ (s, exit_usage)
        | ok token ↦ enroll_as f cluster node token s
      ]
    ]
  ]

  unfoldable pub status_cmd : Option Bytes → os.State → ℕ
  unfolding exists load
  status_cmd none s = exit_usage
  status_cmd (some dir) s =
      if not (exists os s dir)
      then exit_already
      else elim (load os pki s dir) [ err e ↦ exit_failed | ok id ↦ exit_ok ]
