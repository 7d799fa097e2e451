-- ===== src/Console.antt =====
-- internal/console: the handlers of console and web channels. A dial is a parameter, as is what the pipe
-- between the two connections returns; a handler's result lists the addresses that it dialled.
pub mod Dialled
use cube_advisor_agent.Base.{
  ℕ, Bool, true, false, not, ◌||◌, [], ◌∷◌, List, Option, none, some, Bytes, text, bytes_eq, ◌==◌,
  if◌then◌else◌, Result, ok, err, ◌>>=◌, ◌>>◌,
}
use cube_advisor_agent.Os.{OsError, is_not_exist}

abbrev pub local_ssh : Bytes
local_ssh = text "127.0.0.1:22"

pub data ConsoleError : Type 0 where
  not_this_node not_allowed : Bytes → ConsoleError
  no_sshd : Bytes → ConsoleError
  allowlist_unreadable : OsError → ConsoleError
  allowlist_unparsed : Bytes → ConsoleError
  bad_web_target dial_failed : Bytes → Bytes → ConsoleError
  pipe_failed : Bytes → ConsoleError

abbrev pub Handled : Type 0
Handled = List Bytes × Result ConsoleError (Unit {0})

-- The dial of an address, and what the pipe over the connection returned.
pub record Network : Type 0 where
  pub dial : Bytes → Result Bytes (Unit {0})
  pub pipe : Bytes → Result ConsoleError (Unit {0})
  pub split_host_port : Bytes → Result Bytes Bytes

module _ (net : Network) where
  -- Handler.Serve
  unfoldable pub serve_ssh : Bytes → Bytes → Handled
  serve_ssh node target =
      if target == [] || not (target == node)
      then ([], err (not_this_node target))
      else elim (net.dial local_ssh) [
        | err why ↦ (local_ssh ∷ [], err (no_sshd why))
        | ok _ ↦ (local_ssh ∷ [], net.pipe local_ssh)
      ]

  -- Go's map from names to addresses.
  abbrev pub Allowlist : Type 0
  Allowlist = List (Bytes × Bytes)

  unfoldable pub resolve : Allowlist → Bytes → Result ConsoleError Bytes
  resolve [] name = err (not_allowed name)
  resolve ((n, address) ∷ allow) name = if n == name then ok address else resolve allow name

  unfoldable pub check_targets : Allowlist → Result ConsoleError (Unit {0})
  check_targets [] = ok tt
  check_targets ((n, address) ∷ allow) = elim (net.split_host_port address) [
    | err why ↦ err (bad_web_target n why)
    | ok host ↦ check_targets allow
  ]

  -- `parse` is json.Unmarshal.
  unfoldable pub load_web_allowlist :
      (Bytes → Result Bytes Allowlist) → Result OsError Bytes → Result ConsoleError Allowlist
  unfolding check_targets
  load_web_allowlist parse (err e) = if is_not_exist e then ok [] else err (allowlist_unreadable e)
  load_web_allowlist parse (ok b) = elim (parse b) [
    | err why ↦ err (allowlist_unparsed why)
    | ok allow ↦ do check_targets allow; ok allow
  ]

  -- FileAllowlist.Resolve, with the file as it is when the channel opens.
  unfoldable pub resolve_file :
      (Bytes → Result Bytes Allowlist) → Result OsError Bytes → Bytes → Result ConsoleError Bytes
  unfolding load_web_allowlist resolve
  resolve_file parse file name = do allow ← load_web_allowlist parse file; resolve allow name

  -- WebHandler.Serve; `resolver` is none for a handler without an allowlist.
  unfoldable pub serve_web : Option (Bytes → Result ConsoleError Bytes) → Bytes → Handled
  serve_web none name = ([], err (not_allowed name))
  serve_web (some resolver) name = elim (resolver name) [
    | err e ↦ ([], err e)
    | ok address ↦ elim (net.dial address) [
      | err why ↦ (address ∷ [], err (dial_failed name why))
      | ok _ ↦ (address ∷ [], net.pipe address)
    ]
  ]
