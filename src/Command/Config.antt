-- ===== src/Command/Config.antt =====
-- cmd/agent/config.go: config check, from the parsed flags on.
pub mod Verdict
use cube_advisor_agent.Base.{
  ℕ, Bool, true, false, ◌++◌, [], ◌∷◌, List, Option, none, some, Bytes, text, nat_eq, bytes_eq,
  ◌==◌, if◌then◌else◌, Result, ok, err, itoa, length,
}
use cube_advisor_agent.Os.{Os}
use cube_advisor_agent.Toolplane.Level.{DialError, level_string}
use cube_advisor_agent.Toolplane.Tools.{Tool}
use cube_advisor_agent.Toolplane.Registry.{Registry, BuildError, names}
use cube_advisor_agent.Settings.{SettingState, configure}
use cube_advisor_agent.Command.{exit_ok, exit_failed, exit_usage}

abbrev pub exit_config_broken : ℕ
exit_config_broken = 6

-- The names in the table of settings.
abbrev pub setting_names : List Bytes
setting_names = text "action level" ∷ text "consent" ∷ []

-- The names of the settings that are broken.
unfoldable pub broken_among : List Bytes → List SettingState → List Bytes
broken_among (n ∷ ns) (st ∷ states) =
    let rest = broken_among ns states in if st.broken then n ∷ rest else rest
broken_among _ _ = []

unfoldable pub summary_line : Registry → Bytes
summary_line reg =
    text "action level "
    ++ (level_string reg.level
        ++ (text "; serving " ++ (itoa (length (names reg)) ++ text " tool(s)")))

unfoldable pub plural : ℕ → Bytes → Bytes → Bytes
plural n one many = if n == 1 then text "1 " ++ one else itoa n ++ (text " " ++ many)

-- What a check says: its exit code, and the settings that it reports as broken.
abbrev pub Verdict : Type 0
Verdict = ℕ × List Bytes

abbrev pub verdict : Result BuildError Registry × List SettingState → Verdict
verdict (err e, states) = (exit_failed, [])
verdict (ok reg, states) =
    let broken = broken_among setting_names states in
    elim broken [ [] ↦ (exit_ok, []) | n ∷ ns ↦ (exit_config_broken, n ∷ ns) ]

module _ (error_text : DialError → Bytes) (os : Os) (tools : List Tool) where
  -- A check serves no call: its auditor is there, and nothing is written to it.
  unfoldable pub config_check : Option Bytes → os.State → Verdict
  unfolding configure broken_among
  config_check none s = (exit_usage, [])
  config_check (some dir) s = verdict (configure error_text os s dir tools true [])

  unfoldable pub config_cmd : List Bytes → (List Bytes → Option Bytes) → os.State → Verdict
  unfolding config_check
  config_cmd [] parse s = (exit_usage, [])
  config_cmd (word ∷ args) parse s =
      if word == text "check" then config_check (parse args) s else (exit_usage, [])
