-- ===== src/Toolplane/Sandbox/Protections.antt =====
-- What the sandbox's unit has to protect, hide and limit.
use cube_advisor_agent.Base.{
  Any, ◌⊎◌, itoa, ◌/◌, ℕ, ◌++◌, [], ◌∷◌, List, map, Bytes, text, bytes_eq, All, In,
}
use cube_advisor_agent.Base.Substrings.{StartsWith}
use cube_advisor_agent.Toolplane.Tools.{second}
use cube_advisor_agent.Toolplane.Sandbox.{Node}

-- What the unit must have: the file system read-only, its own /tmp, no devices but the disks' own for
-- reading, no network, no privilege to gain and one capability, and the kernel's settings locked.
abbrev pub protections : List Bytes
protections = map text (
    "PrivateNetwork=yes" ∷ "ProtectSystem=strict" ∷ "ProtectHome=read-only" ∷ "PrivateTmp=yes"
    ∷ "DevicePolicy=closed" ∷ "DeviceAllow=block-sd r" ∷ "DeviceAllow=block-blkext r"
    ∷ "DeviceAllow=block-device-mapper r" ∷ "NoNewPrivileges=yes" ∷ "AmbientCapabilities="
    ∷ "CapabilityBoundingSet=CAP_DAC_READ_SEARCH" ∷ "ProtectKernelTunables=yes"
    ∷ "ProtectKernelModules=yes" ∷ "ProtectControlGroups=yes" ∷ "RestrictSUIDSGID=yes" ∷ [])

-- What the unit must not see: credentials and keys, and the sockets of the node's daemons.
abbrev pub secrets : List Bytes
secrets = map text (
    "/etc/shadow" ∷ "/etc/gshadow" ∷ "/etc/ssh" ∷ "/root" ∷ "/etc/cube/advisor-agent"
    ∷ "/etc/admin-openrc.sh" ∷ "/etc/ceph/ceph.client.admin.keyring" ∷ "/etc/ceph/admin.key"
    ∷ "/var/www/certs" ∷ "/etc/rancher" ∷ "/var/lib/rancher" ∷ "/etc/my.cnf" ∷ "/etc/my.cnf.d"
    ∷ "/var/lib/mysql" ∷ "/run/dbus" ∷ "/var/run/dbus" ∷ "/run/systemd/private" ∷ "/run/libvirt"
    ∷ "/var/run/libvirt" ∷ "/run/docker.sock" ∷ "/var/run/docker.sock" ∷ "/run/containerd"
    ∷ "/run/k3s" ∷ "/run/openvswitch" ∷ "/var/run/openvswitch" ∷ "/run/ovn" ∷ [])

-- The patterns of Ceph's other keyrings.
abbrev pub keyring_patterns : List Bytes
keyring_patterns = map text ("/var/lib/ceph/*/*keyring" ∷ "/var/lib/ceph/*/*/*keyring" ∷ [])

-- The kinds of the unit's other settings: none names a protection anew, and none binds a path of the
-- node for writing.
abbrev pub other_kinds : List Bytes
other_kinds = map text (
    "RuntimeMaxSec=" ∷ "TemporaryFileSystem=" ∷ "BindReadOnlyPaths=" ∷ "Environment="
    ∷ "InaccessiblePaths=" ∷ [])

abbrev pub hiding : Bytes → Bytes
hiding p = text "InaccessiblePaths=-" ++ p

-- A protection as it stands above, or a setting of one of the other kinds.
abbrev pub IsMild : Bytes → Type 0
IsMild q = In q protections ⊎ Any (λ k. StartsWith k q) other_kinds

-- The unit that systemd-run reads.
pub record IsSealed (node : Node) (timeout : ℕ) (props : List Bytes) : Type 0 where
  pub protected : All (λ p. In p props) protections
  pub limited : In (text "RuntimeMaxSec=" ++ itoa (timeout / second)) props
  pub hidden : All (λ p. In (hiding p) props) secrets
  pub keyrings : All (λ g. All (λ p. In (hiding p) props) (node.glob g)) keyring_patterns
  pub others : All IsMild props
