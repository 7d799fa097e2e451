-- ===== src/Toolplane/Sandbox/Confinement.antt =====
-- What systemd-run makes of the sandbox's argv, and which command texts get there.
use cube_advisor_agent.Base.{
  sym, ℕ, ◌≤◌, ◌≡◌, ◌≢◌, ◌↔◌, refl, true, false, ◌++◌, [], ◌∷◌, List, none, arith, Bytes, text,
  bytes_eq, bytes_beq, ◌==◌, if◌then◌else◌, bytes_beq_iff, ok, All, length, elem, trim_space, ap,
  ◌∙◌,
}
use mathlib.Core.Path.{subst}
use cube_advisor_agent.Base.Utf8.{valid_string}
use cube_advisor_agent.Toolplane.Sandbox.Protections.{IsSealed}
use cube_advisor_agent.Toolplane.Sandbox.Sealed.{sandbox_props-IsSealed}
use cube_advisor_agent.Toolplane.Sandbox.{
  Args, Node, lookup_arg, sandbox_command_arg, max_sandbox_command, unexpected, sandbox_command,
  systemd_run, shell_tail, sandbox_argv_for, sandbox_props, with_flag,
}

-- How systemd-run reads its command line: `-p` takes the next word for a property, `--` ends the
-- options, and what follows is the command.
pub read_unit : List Bytes → List Bytes × List Bytes
read_unit [] = ([], [])
read_unit (a ∷ []) = ([], [])
read_unit (a ∷ b ∷ rest) =
    let skipped = read_unit (b ∷ rest) in
    let (props, command) = read_unit rest in
    if a == text "--"
    then ([], b ∷ rest)
    else if a == text "-p"
    then (b ∷ props, command)
    else skipped

abbrev pub bash : Bytes → List Bytes
bash command = text "/bin/bash" ∷ text "-c" ∷ command ∷ []

read_unit-with_flag :
    (props : List Bytes) (command : Bytes)
    → read_unit (with_flag props ++ shell_tail command) ≡ (props, bash command)
unfolding read_unit with_flag text bytes_beq
read_unit-with_flag [] command = refl
read_unit-with_flag (p ∷ props) command =
    ap (λ (r : List Bytes × List Bytes). (p ∷ r.0, r.1)) (read_unit-with_flag props command)

read_unit_front :
    (word : Bytes) (rest : List Bytes)
    → read_unit (systemd_run ++ word ∷ rest) ≡ read_unit (word ∷ rest)
unfolding read_unit text bytes_beq
read_unit_front word rest = refl

module _ (node : Node) (timeout : ℕ) (call_id : Bytes) where
  read_unit-argv :
      (command : Bytes)
      → read_unit (sandbox_argv_for node command timeout call_id)
        ≡ (sandbox_props node timeout call_id, bash command)
  unfolding sandbox_argv_for
  read_unit-argv command =
      read_unit_front _ _ ∙ read_unit-with_flag (sandbox_props node timeout call_id) command

-- Whatever the command, the call id and the broker directory hold, systemd-run reads one bash command
-- with the whole text as its word, and a unit that has every protection and the time limit, that hides
-- each of the secrets and every keyring that the node's globs find, and whose other settings are all of
-- five kinds: time limits, temporary file systems, read-only binds, the environment and hidden paths.
pub sandbox_argv_for-confined :
    (node : Node) (command : Bytes) (timeout : ℕ) (call_id : Bytes)
    → let unit = read_unit (sandbox_argv_for node command timeout call_id) in
      (unit.1 ≡ bash command) × IsSealed node timeout unit.0
sandbox_argv_for-confined node command timeout call_id =
    let e = read_unit-argv node timeout call_id command in
    (
      ap (λ r. r.1) e,
      subst (IsSealed node timeout) (ap (λ r. r.0) (sym e))
          (sandbox_props-IsSealed node timeout call_id),
    )

-- The argument map holds the command and nothing else.
pub record IsCommand (args : Args) (cmd : Bytes) : Type 0 where
  pub only : All (λ (kv : Bytes × Bytes). kv.0 ≡ sandbox_command_arg) args
  pub value : lookup_arg sandbox_command_arg args ≡ cmd
  pub worded : trim_space cmd ≢ []
  pub short : length cmd ≤ max_sandbox_command
  pub no_nul : All (λ c. c ≢ 0) cmd
  pub utf8 : valid_string cmd ≡ true

unexpected-none_iff :
    (args : Args)
    → (unexpected args ≡ none) ↔ All (λ (kv : Bytes × Bytes). kv.0 ≡ sandbox_command_arg) args
unfolding unexpected
unexpected-none_iff [] = (λ _. tt, λ _. refl)
unexpected-none_iff ((k, v) ∷ m) =
    ground (arith, unexpected-none_iff m, bytes_beq_iff k sandbox_command_arg)

no_nul_iff : (s : Bytes) → (elem 0 s ≡ false) ↔ All (λ c. c ≢ 0) s
no_nul_iff [] = (λ _. tt, λ _. refl)
no_nul_iff (c ∷ s) = ground (arith, no_nul_iff s)

-- The arguments are accepted exactly if they hold the command and nothing else, a text with a word, of
-- at most 4096 bytes of UTF-8 without a null byte, and the command is passed on as it came.
pub sandbox_command_iff :
    (args : Args) (cmd : Bytes) → (sandbox_command args ≡ ok cmd) ↔ IsCommand args cmd
unfolding sandbox_command
sandbox_command_iff args cmd = ground (
  arith,
  unexpected-none_iff args,
  bytes_beq_iff (trim_space (lookup_arg sandbox_command_arg args)) [],
  no_nul_iff (lookup_arg sandbox_command_arg args),
)
