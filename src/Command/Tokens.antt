-- ===== src/Command/Tokens.antt =====
-- cmd/agent/main.go and clusterid.go: what an enrolment is told, and what it derives.
use cube_advisor_agent.Base.{
  ℕ, ◌+◌, Bool, true, false, not, ◌++◌, [], ◌∷◌, List, Option, none, some, Bytes, text, bytes_eq,
  nat_eq, ◌==◌, if◌then◌else◌, ltb, Result, ok, err, take, elem, has_prefix, trim_prefix, cut,
  trim_space,
}
use cube_advisor_agent.Base.Scanning.{scan_lines, trim_set}
use cube_advisor_agent.Os.{Os, OsError, FilePath}
use cube_advisor_agent.Command.{default_tunnel_port}

pub data TokenError : Type 0 where
  token_required given_twice token_empty : TokenError
  token_file_unreadable : OsError → TokenError
  stdin_unreadable : Bytes → TokenError

unfoldable pub trimmed_non_empty : Bytes → Result TokenError Bytes
trimmed_non_empty s = let word = trim_space s in if word == [] then err token_empty else ok word

abbrev pub count : Bool → ℕ
count true = 1
count false = 0

abbrev pub max_stdin_token : ℕ
max_stdin_token = 4096

-- A path that the operator gave whole.
abbrev pub whole_path : Bytes → FilePath
whole_path path = record { dir = []; name = path }

abbrev pub of_file : Result OsError Bytes → Result TokenError Bytes
of_file (ok b) = trimmed_non_empty b
of_file (err e) = err (token_file_unreadable e)

-- Of the standard input, the first bytes.
abbrev pub of_stdin : Result Bytes Bytes → Result TokenError Bytes
of_stdin (ok b) = trimmed_non_empty (take max_stdin_token b)
of_stdin (err why) = err (stdin_unreadable why)

module _ (os : Os) where
  unfoldable pub read_token :
      os.State → Bytes → Bytes → Bool → Result Bytes Bytes → Result TokenError Bytes
  unfolding trimmed_non_empty
  read_token s flag file from_stdin stdin =
      let given = count (not (flag == [])) + (count (not (file == [])) + count from_stdin) in
      if given == 0
      then err token_required
      else if ltb 1 given
      then err given_twice
      else if not (flag == [])
      then ok (trim_space flag)
      else if not (file == [])
      then of_file (os.read_file s (whole_path file))
      else of_stdin stdin

-- Of a line, the value that it gives to the variable.
unfoldable pub driver_value : Bytes → Option Bytes
driver_value text_line =
    let line = trim_space text_line in
    if has_prefix (text "#") line
    then none
    else elim (cut (text "=") (trim_prefix (text "export ") line)) [
      | none ↦ none
      | some (name, value) ↦
          if trim_space name == text "CUBE_CLUSTER_ID"
          then some (trim_set (b'"' ∷ b'\'' ∷ []) (trim_space value))
          else none
    ]

unfoldable pub first_value : List Bytes → Bytes
unfolding driver_value
first_value [] = []
first_value (line ∷ lines) =
    let rest = first_value lines in elim (driver_value line) [ none ↦ rest | some v ↦ v ]

abbrev pub phone_home_env : FilePath
phone_home_env = record { dir = text "/etc/cube"; name = text "phone-home-agent.env" }

abbrev pub of_env : Result OsError Bytes → Bytes
of_env (ok b) = first_value (scan_lines b)
of_env (err e) = []

module _ (os : Os) where
  unfoldable pub cluster_id_from_driver : os.State → Bytes
  unfolding first_value scan_lines
  cluster_id_from_driver s = of_env (os.read_file s phone_home_env)

-- net.JoinHostPort
unfoldable pub join_host_port : Bytes → Bytes → Bytes
join_host_port host port =
    if elem b':' host then b'[' ∷ (host ++ (text "]:" ++ port)) else host ++ b':' ∷ port

pub data TunnelAddrError : Type 0 where
  bad_server_url : Bytes → TunnelAddrError
  no_host : Bytes → TunnelAddrError

-- `hostname_of` is url.Parse and the Hostname of what it finds.
unfoldable pub derive_tunnel_addr :
    (Bytes → Result Bytes Bytes) → Bytes → Result TunnelAddrError Bytes
unfolding join_host_port
derive_tunnel_addr hostname_of server = elim (hostname_of server) [
  | err why ↦ err (bad_server_url why)
  | ok host ↦
      if host == [] then err (no_host server) else ok (join_host_port host default_tunnel_port)
]
