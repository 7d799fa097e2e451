-- ===== src/Toolplane/Sandbox.antt =====
-- internal/toolplane/sandbox.go: the command text, and the systemd-run argv of the read-only sandbox.
pub mod Confinement
pub mod Protections
pub mod Sealed
use cube_advisor_agent.Base.{
  ℕ, Bool, true, false, not, ◌||◌, ◌++◌, [], ◌∷◌, List, map, Option, none, some, Bytes, text,
  bytes_eq, ◌==◌, if◌then◌else◌, Result, ok, err, ltb, length, elem, itoa, trim_space, ◌/◌,
}
use cube_advisor_agent.Base.Utf8.{valid_string}
use cube_advisor_agent.Toolplane.Tools.{second}

abbrev pub sandbox_command_arg : Bytes
sandbox_command_arg = text "command"

abbrev pub max_sandbox_command : ℕ
max_sandbox_command = 4096

-- A Go map with string keys, in the order of an iteration; a key stands in it once.
abbrev pub Args : Type 0
Args = List (Bytes × Bytes)

-- m[k]; the zero value, if the key is missing.
unfoldable pub lookup_arg : Bytes → Args → Bytes
lookup_arg k [] = []
lookup_arg k ((j, v) ∷ m) = if j == k then v else lookup_arg k m

abbrev pub sandbox_hidden : List Bytes
sandbox_hidden = map text (
    "/etc/ceph/ceph.client.admin.keyring" ∷ "/etc/ceph/admin.key" ∷ "/etc/admin-openrc.sh" ∷ "/root"
    ∷ "/etc/rancher" ∷ "/var/lib/rancher" ∷ "/etc/cube/advisor-agent" ∷ "/etc/ssh" ∷ "/etc/shadow"
    ∷ "/etc/gshadow" ∷ "/var/www/certs" ∷ "/etc/my.cnf" ∷ "/etc/my.cnf.d" ∷ "/var/lib/mysql"
    ∷ "/run/dbus" ∷ "/var/run/dbus" ∷ "/run/systemd/private" ∷ "/run/libvirt" ∷ "/var/run/libvirt"
    ∷ "/run/docker.sock" ∷ "/var/run/docker.sock" ∷ "/run/containerd" ∷ "/run/k3s"
    ∷ "/run/openvswitch" ∷ "/var/run/openvswitch" ∷ "/run/ovn" ∷ [])

abbrev pub sandbox_keyrings : List Bytes
sandbox_keyrings = text "/var/lib/ceph/*/*keyring" ∷ text "/var/lib/ceph/*/*/*keyring" ∷ []

abbrev pub sandbox_scratch : List Bytes
sandbox_scratch = text "/run" ∷ text "/var/support" ∷ []

-- What the node decides: SandboxBrokerDir, and what filepath.Glob finds.
pub record Node : Type 0 where
  pub broker_dir : Bytes
  pub glob : Bytes → List Bytes

abbrev pub fixed_props : List Bytes
fixed_props = map text (
    "ProtectSystem=strict" ∷ "ProtectHome=read-only" ∷ "PrivateTmp=yes" ∷ "DevicePolicy=closed"
    ∷ "DeviceAllow=block-sd r" ∷ "DeviceAllow=block-blkext r" ∷ "DeviceAllow=block-device-mapper r"
    ∷ "PrivateNetwork=yes" ∷ "NoNewPrivileges=yes" ∷ "CapabilityBoundingSet=CAP_DAC_READ_SEARCH"
    ∷ "AmbientCapabilities=" ∷ "ProtectKernelTunables=yes" ∷ "ProtectKernelModules=yes"
    ∷ "ProtectControlGroups=yes" ∷ "RestrictSUIDSGID=yes" ∷ "Environment=HOME=/tmp"
    ∷ "Environment=\"CEPH_ARGS=--client_mount_timeout=3\"" ∷ [])

concat : List (List Bytes) → List Bytes
concat [] = []
concat (xs ∷ xss) = xs ++ concat xss

unfoldable pub hidden_paths : Node → List Bytes
unfolding concat
hidden_paths node = sandbox_hidden ++ concat (map node.glob sandbox_keyrings)

abbrev base_path : Bytes
base_path = text "/usr/local/sbin:/usr/local/bin:/usr/sbin:/usr/bin"

broker_props : Bytes → List Bytes
broker_props dir = if dir == [] then [] else (text "BindReadOnlyPaths=" ++ dir) ∷ []

search_path : Bytes → Bytes
search_path dir = if dir == [] then base_path else dir ++ (text "/bin:" ++ base_path)

call_props : Bytes → List Bytes
call_props call_id =
    if call_id == [] then [] else (text "Environment=ADVISOR_CALL_ID=" ++ call_id) ∷ []

-- The properties that depend on the call and on the brokers.
varying_props : Node → ℕ → Bytes → List Bytes
varying_props node timeout call_id =
    (text "RuntimeMaxSec=" ++ itoa (timeout / second)) ∷ []
    ++ (map (λ d. text "TemporaryFileSystem=" ++ d) sandbox_scratch
        ++ (text "BindReadOnlyPaths=-/run/log" ∷ []
            ++ (broker_props node.broker_dir
                ++ ((text "Environment=PATH=" ++ search_path node.broker_dir) ∷ []
                    ++ call_props call_id))))

abbrev pub hide : Bytes → Bytes
hide p = text "InaccessiblePaths=-" ++ p

-- The unit's properties, in the order of the source.
unfoldable pub sandbox_props : Node → ℕ → Bytes → List Bytes
unfolding varying_props broker_props search_path call_props hidden_paths
sandbox_props node timeout call_id =
    fixed_props ++ (varying_props node timeout call_id ++ map hide (hidden_paths node))

with_flag : List Bytes → List Bytes
with_flag [] = []
with_flag (p ∷ ps) = text "-p" ∷ p ∷ with_flag ps

abbrev pub systemd_run : List Bytes
systemd_run =
    map text
      ("systemd-run" ∷ "--pipe" ∷ "--wait" ∷ "--quiet" ∷ "--collect" ∷ "--service-type=exec" ∷ [])

abbrev pub shell_tail : Bytes → List Bytes
shell_tail command = text "--" ∷ text "/bin/bash" ∷ text "-c" ∷ command ∷ []

unfoldable pub sandbox_argv_for : Node → Bytes → ℕ → Bytes → List Bytes
unfolding with_flag sandbox_props
sandbox_argv_for node command timeout call_id =
    systemd_run ++ (with_flag (sandbox_props node timeout call_id) ++ shell_tail command)

pub data ArgError : Type 0 where
  unexpected_argument : Bytes → ArgError
  command_required : ArgError
  command_too_long : ℕ → ℕ → ArgError
  not_text : ArgError

-- The loop over the keys: the first that is not the command.
unfoldable pub unexpected : Args → Option Bytes
unexpected [] = none
unexpected ((k, v) ∷ m) = if not (k == sandbox_command_arg) then some k else unexpected m

unfoldable pub check_command : Bytes → Result ArgError Bytes
check_command cmd =
    if trim_space cmd == []
    then err command_required
    else if ltb max_sandbox_command (length cmd)
    then err (command_too_long (length cmd) max_sandbox_command)
    else if elem 0 cmd || not (valid_string cmd)
    then err not_text
    else ok cmd

unfoldable pub sandbox_command : Args → Result ArgError Bytes
unfolding unexpected check_command lookup_arg
sandbox_command args = elim (unexpected args) [
  | some k ↦ err (unexpected_argument k)
  | none ↦ check_command (lookup_arg sandbox_command_arg args)
]

-- out["call"] = id, on a copy.
unfoldable pub with_call : Args → Bytes → Args
with_call [] id = (text "call", id) ∷ []
with_call ((k, v) ∷ m) id = if k == text "call" then (k, id) ∷ m else (k, v) ∷ with_call m id
