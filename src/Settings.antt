-- ===== src/Settings.antt =====
-- cmd/agent/settings.go: the settings of a node, and the registry that is built from them. No setting has
-- an `apply` step.
pub mod Configured
use cube_advisor_agent.Base.{
  ℕ, Bool, true, false, ◌++◌, [], ◌∷◌, List, Option, none, some, Bytes, text, Result,
}
use cube_advisor_agent.Os.{Os}
use cube_advisor_agent.Toolplane.Level.{DialError, Level, level_string, read_level}
use cube_advisor_agent.Toolplane.Consent.{Consent, consent_string, read_consent}
use cube_advisor_agent.Toolplane.Tools.{Tool}
use cube_advisor_agent.Toolplane.Registry.{
  Registry, ToolOption, with_level, with_consent, BuildError, new_registry,
}

pub record SettingState : Type 0 where
  pub line : Bytes
  pub broken : Bool
  pub opt : ToolOption

module _ (error_text : DialError → Bytes) where
  unfoldable pub action_level : Level × Option DialError → SettingState
  action_level (level, some why) = record {
    line =
        text "action level: "
        ++ (error_text why
            ++ (text "; serving " ++ (level_string level ++ text " until it is corrected")));
    broken = true;
    opt = with_level level;
  }
  action_level (level, none) = record {
    line = text "action level: " ++ level_string level;
    broken = false;
    opt = with_level level;
  }

  unfoldable pub consent_dial : Consent × Option DialError → SettingState
  consent_dial (c, some why) = record {
    line =
        text "consent: "
        ++ (error_text why
            ++ (text "; asking for " ++ (consent_string c ++ text " until it is corrected")));
    broken = true;
    opt = with_consent c;
  }
  consent_dial (c, none) = record {
    line = text "consent: " ++ consent_string c;
    broken = false;
    opt = with_consent c;
  }

  module _ (os : Os) where
    -- The table of settings, each loaded from the directory.
    unfoldable pub load_settings : os.State → Bytes → List SettingState
    unfolding action_level consent_dial
    load_settings s dir =
        action_level (read_level os s dir) ∷ consent_dial (read_consent os s dir) ∷ []

    unfoldable pub options_of : List SettingState → List ToolOption
    options_of [] = []
    options_of (st ∷ states) = st.opt ∷ options_of states

    unfoldable pub configure :
        os.State
        → Bytes
        → List Tool
        → Bool
        → List ToolOption
        → Result BuildError Registry × List SettingState
    unfolding load_settings options_of
    configure s dir tools audited extra =
        let states = load_settings s dir in
        (new_registry tools audited (extra ++ options_of states), states)
