-- ===== src/Command/Config/Verdict.antt =====
-- What a config check says of the agent that would start.
use cube_advisor_agent.Base.{
  ℕ, ◌≡◌, ◌⊎◌, inl, inr, refl, true, [], ◌∷◌, List, Option, none, some, Bytes, Result, ok, err,
}
use cube_advisor_agent.Os.{Os}
use cube_advisor_agent.Toolplane.Level.{DialError, Level, read_level}
use cube_advisor_agent.Toolplane.Consent.{Consent, read_consent}
use cube_advisor_agent.Toolplane.Tools.{Tool}
use cube_advisor_agent.Toolplane.Registry.{Registry, BuildError}
use cube_advisor_agent.Settings.{configure, load_settings, action_level, consent_dial}
use cube_advisor_agent.Command.{exit_ok, exit_failed}
use cube_advisor_agent.Command.Config.{exit_config_broken, broken_among, verdict, config_check}

-- A dial whose file is in order.
abbrev pub IsFine : {A : Type 0} → A × Option DialError → Type 0
IsFine r = r.1 ≡ none

-- What a check's exit code means, for the two dials and the registry that were read.
abbrev pub Judged :
    Level × Option DialError → Consent × Option DialError → Result BuildError Registry → ℕ → Type 0
Judged l c r code =
    ((code ≡ exit_ok) × (((reg : Registry) × (r ≡ ok reg)) × (IsFine l × IsFine c)))
    ⊎ (((code ≡ exit_config_broken)
          × (((reg : Registry) × (r ≡ ok reg))
              × (((e : DialError) × (l.1 ≡ some e)) ⊎ ((e : DialError) × (c.1 ≡ some e)))))
        ⊎ ((code ≡ exit_failed) × ((e : BuildError) × (r ≡ err e))))

module _ (error_text : DialError → Bytes) where
  verdict-Judged :
      (l : Level × Option DialError) (c : Consent × Option DialError)
      (r : Result BuildError Registry)
      → Judged l c r (verdict (r, action_level error_text l ∷ consent_dial error_text c ∷ [])).0
  unfolding broken_among action_level consent_dial
  verdict-Judged (l, some d) (c, none) (ok reg) = inr (inl (refl, ((reg, refl), inl (d, refl))))
  verdict-Judged (l, some d) (c, some e) (ok reg) = inr (inl (refl, ((reg, refl), inl (d, refl))))
  verdict-Judged (l, none) (c, some e) (ok reg) = inr (inl (refl, ((reg, refl), inr (e, refl))))
  verdict-Judged (l, none) (c, none) (ok reg) = inl (refl, ((reg, refl), (refl, refl)))
  verdict-Judged (l, some d) (c, none) (err e) = inr (inr (refl, (e, refl)))
  verdict-Judged (l, some d) (c, some x) (err e) = inr (inr (refl, (e, refl)))
  verdict-Judged (l, none) (c, some x) (err e) = inr (inr (refl, (e, refl)))
  verdict-Judged (l, none) (c, none) (err e) = inr (inr (refl, (e, refl)))

  -- A config check of a directory exits with 0 exactly where the agent's registry can be built and both
  -- dials are read without an error, with 6 where it can be built and one of them has an error, and with
  -- 1 where it cannot be built.
  pub config_check-Judged :
      (os : Os) (tools : List Tool) (s : os.State) (dir : Bytes)
      → Judged
          (read_level os s dir)
          (read_consent os s dir)
          (configure error_text os s dir tools true []).0
          (config_check error_text os tools (some dir) s).0
  unfolding config_check configure load_settings
  config_check-Judged os tools s dir =
      verdict-Judged (read_level os s dir) (read_consent os s dir)
        (configure error_text os s dir tools true []).0
