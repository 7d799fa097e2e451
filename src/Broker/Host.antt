-- ===== src/Broker/Host.antt =====
-- internal/broker/host.go: the handler of the host broker, its fixed commands and their arguments.
-- What listProcs reads from /proc is a parameter.
pub mod Commands
use cube_advisor_agent.Base.{
  ℕ, zero, suc, ◌+◌, ◌-◌, ◌*◌, ◌≤◌, Bool, true, false, not, ◌&&◌, ◌||◌, ◌++◌, [], ◌∷◌, List, map,
  Option, none, some, Bytes, text, bytes_eq, nat_eq, ◌==◌, if◌then◌else◌, Result, ok, err, length,
  leb, ltb, between, all, itoa, split, join, reverse, strip,
}
use cube_advisor_agent.Toolplane.Sandbox.{Args, lookup_arg}
use cube_advisor_agent.Broker.{Request, Served, method_get, refuse, serve, cap_output}
use cube_advisor_agent.Broker.CephServer.{Run}

abbrev is_alnum : ℕ → Bool
is_alnum c = between b'A' b'Z' c || (between b'a' b'z' c || between b'0' b'9' c)

abbrev is_unit_char : ℕ → Bool
is_unit_char c = is_alnum c || (c == b'@' || (c == b'.' || (c == b'_' || (c == b':' || c == b'-'))))

-- The regular expression `unitName`.
unfoldable pub is_unit_name : Bytes → Bool
is_unit_name [] = false
is_unit_name (c ∷ s) = is_alnum c && (all is_unit_char s && leb (length s) 127)

-- strconv.Atoi of a string of digits; a sign gives a number too, but not one that prints the same.
unfoldable pub atoi : ℕ → Bytes → Option ℕ
atoi acc [] = some acc
atoi acc (c ∷ s) =
    let rest = atoi (acc * 10 + (c - b'0')) s in if between b'0' b'9' c then rest else none

abbrev is_port : Bytes → Option ℕ → Bool
is_port p none = false
is_port p (some n) = leb 1 n && (leb n 65535 && itoa n == p)

-- The tests on the port's text.
unfoldable pub valid_port : Bytes → Bool
unfolding atoi
valid_port [] = false
valid_port (c ∷ s) = is_port (c ∷ s) (atoi 0 (c ∷ s))

-- A command and its arguments.
pub record HostCommand : Type 0 where
  pub name : Bytes
  pub argv : List Bytes

abbrev pub sockets_argv : List Bytes
sockets_argv = map text ("-H" ∷ "-l" ∷ "-t" ∷ "-u" ∷ "-n" ∷ "-p" ∷ [])

abbrev pub port_argv : Bytes → List Bytes
port_argv p = text "sport" ∷ text "=" ∷ (text ":" ++ p) ∷ []

abbrev pub failed_argv : List Bytes
failed_argv =
    map text ("list-units" ∷ "--state=failed" ∷ "--no-legend" ∷ "--plain" ∷ "--no-pager" ∷ [])

abbrev pub unit_props : Bytes
unit_props = text "Id,LoadState,ActiveState,SubState,UnitFileState,MainPID,ExecMainStartTimestamp"

abbrev pub unit_argv : Bytes → List Bytes
unit_argv u = text "show" ∷ text "--no-pager" ∷ text "-p" ∷ unit_props ∷ text "--" ∷ u ∷ []

-- What a request comes to: a refusal, the list of processes, or a command; with the audit's arguments.
pub data Plan : Type 0 where
  refused : ℕ → Bytes → Args → Plan
  procs : Args → Plan
  command : HostCommand → Args → Plan

abbrev path_args : Request → Args
path_args r = (text "path", r.path) ∷ []

plan_sockets : Request → Bytes → Plan
plan_sockets r p =
    if p == []
    then command (record { name = text "ss"; argv = sockets_argv }) (path_args r)
    else if not (valid_port p)
    then refused 400 (text "port must be a number from 1 to 65535")
        (path_args r ++ (text "port", p) ∷ [])
    else command (record { name = text "ss"; argv = sockets_argv ++ port_argv p })
        (path_args r ++ (text "port", p) ∷ [])

plan_unit : Request → Bytes → Plan
plan_unit r u =
    if not (is_unit_name u)
    then refused 400 (text "unit name must match ^[A-Za-z0-9][A-Za-z0-9@._:-]{0,127}$")
        (path_args r ++ (text "unit", u) ∷ [])
    else command (record { name = text "systemctl"; argv = unit_argv u })
        (path_args r ++ (text "unit", u) ∷ [])

abbrev pub is_malformed : Option Bytes → Bool
is_malformed none = false
is_malformed (some e) = true

abbrev error_of : Option Bytes → Bytes
error_of none = []
error_of (some e) = e

-- The guards and the switch on the path.
unfoldable pub host_plan : Request → Plan
unfolding plan_sockets plan_unit
host_plan r =
    if not (r.method == method_get)
    then refused 405 (text "only GET is served") (path_args r)
    else if is_malformed r.query_error
    then refused 400 (text "malformed query: " ++ error_of r.query_error) (path_args r)
    else if r.path == text "/sockets"
    then plan_sockets r (lookup_arg (text "port") r.values)
    else if r.path == text "/procs"
    then procs (path_args r)
    else if r.path == text "/failed"
    then command (record { name = text "systemctl"; argv = failed_argv }) (path_args r)
    else if r.path == text "/unit"
    then plan_unit r (lookup_arg (text "name") r.values)
    else refused 404 (text "only /sockets, /procs, /failed and /unit?name=UNIT are served")
        (path_args r)

-- The width of a blank at the end of a line, read backwards.
blank_width : Bytes → ℕ
blank_width [] = 0
blank_width (c ∷ s) = if c == b' ' || c == b'\t' then 1 else 0

-- bytes.TrimRight(line, " \t")
unfoldable pub trim_blanks : Bytes → Bytes
unfolding blank_width strip
trim_blanks line = reverse (strip blank_width (length line) (reverse line))

unfoldable pub trim_lines : Bytes → Bytes
unfolding trim_blanks split join
trim_lines b = join (b'\n' ∷ []) (map trim_blanks (split b'\n' b))

abbrev tool : Bytes
tool = text "broker:host"

module _ (run : HostCommand → Run) (list_procs : Bytes) where
  run_command : Request → Args → HostCommand → Served HostCommand
  run_command r args c =
      let ran = run c in
      let out = cap_output (trim_lines ran.out) in
      elim ran.error [
        | none ↦ serve r tool args (c ∷ []) [] 200 out (length out)
        | some why ↦
            serve r tool args (c ∷ []) why 502 (out ++ ran.err_out) (length (out ++ ran.err_out))
      ]

  -- What a plan comes to.
  follow : Request → Plan → Served HostCommand
  unfolding run_command
  follow r (refused code why args) = refuse r tool args [] code why
  follow r (procs args) = serve r tool args [] [] 200 list_procs 0
  follow r (command c args) = run_command r args c

  unfoldable pub host : Request → Served HostCommand
  unfolding host_plan follow
  host r = follow r (host_plan r)
