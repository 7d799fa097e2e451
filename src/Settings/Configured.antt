-- ===== src/Settings/Configured.antt =====
-- What the tool plane serves is what the operator's files say.
use cube_advisor_agent.Base.{
  ◌≡◌, refl, sym, ap, ◌∙◌, true, false, Bool, ◌++◌, [], ◌∷◌, List, Option, none, some, arith, Bytes,
  ok, Result-cases, inl, inr,
}
use cube_advisor_agent.Os.{Os, IsLawful}
use cube_advisor_agent.Toolplane.Level.{DialError, Level, read_level, parse_level}
use cube_advisor_agent.Toolplane.Consent.{Consent, read_consent}
use cube_advisor_agent.Toolplane.Tools.{Tool, validate}
use cube_advisor_agent.Toolplane.Registry.{
  Registry, ToolOption, with_level, with_consent, new_registry, register, apply_options,
  empty_registry,
}
use cube_advisor_agent.Toolplane.Dials.{write_level}
use cube_advisor_agent.Toolplane.Dials.RoundTrip.{write_level-read_level}
use cube_advisor_agent.Settings.{action_level, consent_dial, load_settings, options_of, configure}

-- The dials of two registries are the same.
abbrev SameDials : Registry → Registry → Type 0
SameDials r r' = (r'.level ≡ r.level) × (r'.consent ≡ r.consent)

register-keeps : (ts : List Tool) (r r' : Registry) → register ts r ≡ ok r' → SameDials r r'
unfolding register
register-keeps [] r r' h = ground arith
register-keeps (t ∷ ts) r r' h = elim (Result-cases (validate t)) [
  | inr (e, bad) ↦ absurd (ground arith)
  | inl (_, good) ↦ register-keeps ts (record r { tools = r.tools ++ t ∷ [] }) r' (ground arith)
]

new_registry-keeps :
    (ts : List Tool) (audited : Bool) (opts : List ToolOption) (r : Registry)
    → new_registry ts audited opts ≡ ok r
    → SameDials (apply_options opts empty_registry) r
unfolding new_registry
new_registry-keeps ts true opts r h = register-keeps ts (apply_options opts empty_registry) r h
new_registry-keeps ts false opts r h = absurd (ground arith)

apply_options_last :
    (extra : List ToolOption) (l : Level) (c : Consent) (r : Registry)
    → ((apply_options (extra ++ with_level l ∷ with_consent c ∷ []) r).level ≡ l)
      × ((apply_options (extra ++ with_level l ∷ with_consent c ∷ []) r).consent ≡ c)
unfolding apply_options
apply_options_last [] l c r = (refl, refl)
apply_options_last (o ∷ extra) l c r = apply_options_last extra l c (o r)

module _ (error_text : DialError → Bytes) (os : Os) where
  options_lem :
      (l : Level × Option DialError) (c : Consent × Option DialError)
      → options_of error_text os (action_level error_text l ∷ consent_dial error_text c ∷ [])
        ≡ with_level l.0 ∷ with_consent c.0 ∷ []
  unfolding options_of action_level consent_dial
  options_lem (l, none) (c, none) = refl
  options_lem (l, none) (c, some e) = refl
  options_lem (l, some d) (c, none) = refl
  options_lem (l, some d) (c, some e) = refl

  -- A configured registry serves the level and asks the consent that the node's files say, whatever the
  -- other options are.
  pub configure_serves :
      (s : os.State) (dir : Bytes) (tools : List Tool) (audited : Bool) (extra : List ToolOption)
      (r : Registry)
      → (configure error_text os s dir tools audited extra).0 ≡ ok r
      → (r.level ≡ (read_level os s dir).0) × (r.consent ≡ (read_consent os s dir).0)
  unfolding configure load_settings
  configure_serves s dir tools audited extra r h =
      let l = read_level os s dir in
      let c = read_consent os s dir in
      let built : new_registry tools audited (extra ++ with_level l.0 ∷ with_consent c.0 ∷ [])
          ≡ ok r =
        ap (λ (o : List ToolOption). new_registry tools audited (extra ++ o))
          (sym (options_lem l c))
        ∙ h in
      let (level, consent) = new_registry-keeps tools audited _ r built in
      let (last_level, last_consent) = apply_options_last extra l.0 c.0 empty_registry in
      (level ∙ last_level, consent ∙ last_consent)

  -- After WriteLevel has reported success, a registry that is configured on the same directory serves
  -- the level that was written, and asks the consent that it asked before.
  pub write_level-configure :
      (lawful : IsLawful os) (s t : os.State) (dir w : Bytes) (tools : List Tool) (audited : Bool)
      (extra : List ToolOption) (r : Registry)
      → write_level os s dir w ≡ (t, ok tt)
      → (configure error_text os t dir tools audited extra).0 ≡ ok r
      → (r.level ≡ (parse_level w).0) × (r.consent ≡ (read_consent os s dir).0)
  write_level-configure lawful s t dir w tools audited extra r wrote h =
      let (_, level, consent) = write_level-read_level os lawful s t dir w wrote in
      let (served, asked) = configure_serves t dir tools audited extra r h in
      (
        served ∙ ap (λ (a : Level × Option DialError). a.0) level,
        asked ∙ ap (λ (a : Consent × Option DialError). a.0) consent,
      )
