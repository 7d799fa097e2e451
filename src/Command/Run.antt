-- ===== src/Command/Run.antt =====
-- cmd/agent/run.go: how the agent starts, up to the frame with which it opens the tunnel. Opening the
-- audit log, starting the brokers and net.SplitHostPort are parameters.
pub mod Greeting
use cube_advisor_agent.Base.{
  ℕ, Bool, true, false, not, ◌++◌, [], ◌∷◌, List, Option, none, some, Bytes, text, bytes_eq, ◌==◌,
  if◌then◌else◌, Result, ok, err, ◌>>=◌, ◌>>◌, fail_if, is_ok, pos,
}
use cube_advisor_agent.Os.{Os, OsError}
use cube_advisor_agent.Proto.{Hello, version}
use cube_advisor_agent.Toolplane.Level.{DialError, level_string}
use cube_advisor_agent.Toolplane.Consent.{consent_string}
use cube_advisor_agent.Toolplane.Tools.{Tool}
use cube_advisor_agent.Toolplane.Registry.{Registry, BuildError}
use cube_advisor_agent.Settings.{configure}
use cube_advisor_agent.Identity.Failures.{IdentityError}
use cube_advisor_agent.Identity.Store.{Pki, Identity, load_server, load, tls_config, or_wrap}
use cube_advisor_agent.Identity.Enrolment.{Outside, fingerprint}
use cube_advisor_agent.Console.{Network, Allowlist, ConsoleError, load_web_allowlist}
use cube_advisor_agent.Credential.{read_openrc}
use cube_advisor_agent.Command.{exit_failed, exit_usage}
use cube_advisor_agent.Command.Tokens.{whole_path}

pub record RunFlags : Type 0 where
  pub server : Bytes
  pub dir : Bytes
  pub web_targets : Bytes

pub data AddrError : Type 0 where
  address_unreadable : IdentityError → AddrError
  no_address : AddrError

-- The address that enrolment persisted, unless there is none.
abbrev pub persisted : Result IdentityError Bytes → Result AddrError Bytes
persisted (err e) = err (address_unreadable e)
persisted (ok addr) = if addr == [] then err no_address else ok addr

module _ (os : Os) where
  unfoldable pub resolve_server_addr : os.State → Bytes → Bytes → Result AddrError Bytes
  unfolding load_server
  resolve_server_addr s explicit dir =
      if not (explicit == []) then ok explicit else persisted (load_server os s dir)

-- What the process finds around it; the flags say whether the audit log opened and the brokers started.
pub record RunAround (net : Network) : Type 0 where
  pub agent_version : Bytes
  pub parse_allowlist : Bytes → Result Bytes (Allowlist net)
  pub audit_opened : Bool
  pub brokers_started : Bool
  pub dial_text : DialError → Bytes
  pub tools : List Tool

-- helloFor
unfoldable pub hello_for : Bytes → Bytes → Bytes → Registry → List Bytes → Hello
hello_for build cluster fp reg brokers = record {
  cluster_id = cluster;
  fingerprint = fp;
  agent_version = build;
  protocol_version = pos version;
  served_level = level_string reg.level;
  served_consent = consent_string reg.consent;
  brokers = brokers;
}

-- servedBrokers, by whether the brokers started and whether the node has an OpenStack credential.
unfoldable pub served_brokers : Bool → Bool → List Bytes
served_brokers started has_openstack =
    if started
    then text "prom"
      ∷ text "ceph-ro"
      ∷ text "host-ro"
      ∷ (if has_openstack then text "os-ro" ∷ [] else [])
    else []

-- What a started agent serves with.
pub record Started (Key : Type 0) : Type 0 where
  pub address : Bytes
  pub identity : Identity Key
  pub registry : Registry
  pub hello : Hello

-- The exit code where a step of the start fails.
abbrev pub or_exit : {E A : Type 0} → ℕ → Result E A → Result ℕ A
or_exit code (ok a) = ok a
or_exit code (err e) = err code

module _ (os : Os) (pki : Pki) (out : Outside pki) (net : Network) (around : RunAround net) where
  abbrev pub registry_of : os.State → Bytes → Result BuildError Registry
  registry_of s dir = (configure around.dial_text os s dir around.tools true []).0

  -- The brokers that serve, by whether the node has an OpenStack credential.
  abbrev pub brokers_now : os.State → List Bytes
  brokers_now s =
      served_brokers around.brokers_started
        (is_ok (read_openrc (os.read_file s (whole_path (text "/etc/admin-openrc.sh")))))

  abbrev pub started_with : os.State → Bytes → Identity pki.Key → Bytes → Registry → Started pki.Key
  started_with s addr id fp reg = record {
    address = addr;
    identity = id;
    registry = reg;
    hello = hello_for around.agent_version id.cluster_id fp reg (brokers_now s);
  }

  unfoldable pub start : os.State → RunFlags → Result ℕ (Started pki.Key)
  unfolding resolve_server_addr load fingerprint load_web_allowlist tls_config configure hello_for
      served_brokers read_openrc
  start s f = do
    addr ← or_exit exit_usage (resolve_server_addr os s f.server f.dir)
    id ← or_exit exit_failed (load os pki s f.dir)
    web_allow ←
        or_exit exit_failed (
          load_web_allowlist net around.parse_allowlist (os.read_file s (whole_path f.web_targets)))
    fp ← or_exit exit_failed (fingerprint pki out id.key)
    host ← or_exit exit_usage (net.split_host_port addr)
    or_exit exit_failed (tls_config pki id)
    fail_if (not around.audit_opened) exit_failed
    reg ← or_exit exit_failed (registry_of s f.dir)
    ok (started_with s addr id fp reg)
