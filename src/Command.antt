-- ===== src/Command.antt =====
-- cmd/agent/main.go: the agent's command line. Package flag's result is an argument: the flags of a
-- command, or none where they did not parse. An exit code stands for the process's end; what a command
-- prints is not modelled.
pub mod Tokens
pub mod Enroll
pub mod Run
pub mod Config
pub mod Sessions
use cube_advisor_agent.Base.{
  ℕ, ◌++◌, ◌||◌, [], ◌∷◌, List, Bytes, text, bytes_eq, ◌==◌, if◌then◌else◌,
}

abbrev pub exit_ok : ℕ
exit_ok = 0

abbrev pub exit_failed : ℕ
exit_failed = 1

abbrev pub exit_usage : ℕ
exit_usage = 2

abbrev pub exit_already : ℕ
exit_already = 3

abbrev pub exit_token_refused : ℕ
exit_token_refused = 4

abbrev pub exit_unreachable : ℕ
exit_unreachable = 5

abbrev pub default_tunnel_port : Bytes
default_tunnel_port = text "8443"

-- The subcommands, each from the arguments that follow its name.
pub record Commands (S : Type 0) : Type 0 where
  pub enroll : List Bytes → S → S × ℕ
  pub run : List Bytes → S → S × ℕ
  pub config : List Bytes → S → S × ℕ
  pub status : List Bytes → S → S × ℕ

unfoldable pub dispatch : {S : Type 0} → Commands S → List Bytes → S → S × ℕ
dispatch c [] s = (s, exit_usage)
dispatch c (word ∷ args) s =
    if word == text "enroll"
    then c.enroll args s
    else if word == text "run"
    then c.run args s
    else if word == text "config"
    then c.config args s
    else if word == text "status"
    then c.status args s
    else if word == text "version" || (word == text "-version" || word == text "--version")
    then (s, exit_ok)
    else (s, exit_usage)
