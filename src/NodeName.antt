-- ===== src/NodeName.antt =====
-- cmd/agent/nodeid.go: the name by which a node answers. os.Hostname is an argument.
pub mod Named
use cube_advisor_agent.Base.{
  ℕ, Bool, true, false, not, [], ◌∷◌, Bytes, bytes_eq, ◌==◌, if◌then◌else◌, Result, ok, err,
  trim_space, to_lower, ltb, ◌&&◌,
}

pub data NameError : Type 0 where
  hostname_unreadable : Bytes → NameError
  hostname_empty : NameError

unfoldable pub is_ascii : Bytes → Bool
is_ascii [] = true
is_ascii (c ∷ s) = ltb c 0x80 && is_ascii s

module _ (map_lower : Bytes → Bytes) where
  -- strings.ToLower: by letters where all bytes are ASCII, and otherwise strings.Map over Unicode's
  -- table of letters, which is a parameter.
  unfoldable pub lower : Bytes → Bytes
  unfolding is_ascii
  lower s = if is_ascii s then to_lower s else map_lower s

  -- From the hostname on.
  of_hostname : Result Bytes Bytes → Result NameError Bytes
  unfolding lower
  of_hostname (err why) = err (hostname_unreadable why)
  of_hostname (ok host) =
      let name = lower (trim_space host) in if name == [] then err hostname_empty else ok name

  unfoldable pub node_id : Bytes → Result Bytes Bytes → Result NameError Bytes
  unfolding of_hostname
  node_id explicit hostname =
      let name = trim_space explicit in
      if not (name == []) then ok (lower name) else of_hostname hostname
