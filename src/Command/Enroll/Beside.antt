-- ===== src/Command/Enroll/Beside.antt =====
-- The files that the enroll command's other writes leave alone, whether or not they succeed.
use cube_advisor_agent.Base.{
  ◌≡◌, ◌≢◌, refl, sym, inl, inr, Bool, true, false, ◌++◌, [], ◌∷◌, trim_space, Bytes, bytes_eq,
  ◌==◌, Result, ok, err, if◌then◌else◌, Bool-cases, Result-cases, Option-cases,
}
use mathlib.Core.Path.{subst}
use cube_advisor_agent.Base.Io.{continue_with, wrapped}
use cube_advisor_agent.Os.{Os, FilePath, Done, IsLawful}
use cube_advisor_agent.Identity.Failures.{create_dir, write_server}
use cube_advisor_agent.Identity.Store.{server_path}
use cube_advisor_agent.Identity.Reload.{Keeps, Keeps-trans}
use cube_advisor_agent.Identity.Writes.{save_server, put_file}
use cube_advisor_agent.Identity.Origins.{record_console_ca, console_ca_path}
use cube_advisor_agent.Toolplane.Level.{level_path, level_string, parse_level}
use cube_advisor_agent.Toolplane.Consent.{consent_path, consent_string, parse_consent}
use cube_advisor_agent.Toolplane.Dials.{dial_mode, write_dial, write_level, write_consent}

module _ (os : Os) (lawful : IsLawful os) where
  wrapped_state :
      {E F A : Type 0} (wrap : E → F) (r : os.State × Result E A) → (wrapped wrap r).0 ≡ r.0
  wrapped_state wrap (t, ok a) = refl
  wrapped_state wrap (t, err e) = refl

  pub same_state : (s : os.State) (q : FilePath) → Keeps os lawful s s q
  same_state s q = (refl, refl)

  pub Keeps-if :
      (b : Bool) (s t u : os.State) (q : FilePath)
      → Keeps os lawful s t q
      → Keeps os lawful s u q
      → Keeps os lawful s (if b then t else u) q
  Keeps-if true s t u q h k = h
  Keeps-if false s t u q h k = k

  write_dial-Keeps :
      (s : os.State) (p q : FilePath) (word : Bytes)
      → p ≢ q
      → Keeps os lawful s (write_dial os s p word).0 q
  unfolding write_dial
  write_dial-Keeps s p q word ne =
      let wrote = os.write_file s p (word ++ b'\n' ∷ []) dial_mode in
      let first : Keeps os lawful s wrote.0 q =
        lawful.write_apart s p q (word ++ b'\n' ∷ []) dial_mode ne in
      let both : Keeps os lawful s (os.chmod wrote.0 p dial_mode).0 q =
        Keeps-trans os lawful s wrote.0 (os.chmod wrote.0 p dial_mode).0 q first
          (lawful.chmod_apart wrote.0 p q dial_mode ne) in
      elim (Result-cases wrote.1) [
        | inr (why, e) ↦ rw (e, write_dial) first
        | inl (done, e) ↦ elim (Result-cases (os.chmod wrote.0 p dial_mode).1) [
          | inr (why, e') ↦ rw (e, write_dial, e') both
          | inl (done', e') ↦ rw (e, write_dial, e') both
        ]
      ]

  pub write_level-Keeps :
      (s : os.State) (dir level : Bytes) (q : FilePath)
      → level_path dir ≢ q
      → Keeps os lawful s (write_level os s dir level).0 q
  unfolding write_level
  write_level-Keeps s dir level q ne = elim (Option-cases (parse_level level).1) [
    | inr (why, e) ↦ rw (e, write_level) (same_state s q)
    | inl e ↦
        rw (e, write_level)
          (write_dial-Keeps s (level_path dir) q (level_string (parse_level level).0) ne)
  ]

  pub write_consent-Keeps :
      (s : os.State) (dir consent : Bytes) (q : FilePath)
      → consent_path dir ≢ q
      → Keeps os lawful s (write_consent os s dir consent).0 q
  unfolding write_consent
  write_consent-Keeps s dir consent q ne = elim (Option-cases (parse_consent consent).1) [
    | inr (why, e) ↦ rw (e, write_consent) (same_state s q)
    | inl e ↦
        rw (e, write_consent)
          (write_dial-Keeps s (consent_path dir) q (consent_string (parse_consent consent).0) ne)
  ]

  -- What is written of an address once the directory was asked for.
  after_dir :
      (s : os.State) (made : os.State × Done) (dir addr : Bytes) (q : FilePath)
      → server_path dir ≢ q
      → Keeps os lawful s made.0 q
      → Keeps os lawful s
          (continue_with
            (wrapped create_dir made)
            (λ _. put_file os write_server (server_path dir) addr 0o644)).0
          q
  after_dir s (t, err e) dir addr q ne k = k
  after_dir s (t, ok _) dir addr q ne k =
      let wrote = os.write_file t (server_path dir) addr 0o644 in
      let kept : Keeps os lawful s wrote.0 q =
        Keeps-trans os lawful s t wrote.0 q k
          (lawful.write_apart t (server_path dir) q addr 0o644 ne) in
      subst (λ (x : os.State). Keeps os lawful s x q) (sym (wrapped_state write_server wrote)) kept

  pub save_server-Keeps :
      (s : os.State) (dir addr : Bytes) (q : FilePath)
      → q.dir ≡ dir
      → server_path dir ≢ q
      → Keeps os lawful s (save_server os dir addr s).0 q
  unfolding save_server
  save_server-Keeps s dir addr q here ne = elim (Bool-cases (addr == [])) [
    | inl e ↦ rw (e, save_server) (same_state s q)
    | inr e ↦
        rw (e, save_server)
          (after_dir s (os.mkdir_all s dir 0o700) dir addr q ne (
            subst (λ (d : Bytes). Keeps os lawful s (os.mkdir_all s d 0o700).0 q) here
              (lawful.mkdir_apart s q 0o700)))
  ]

  pub record_console_ca-Keeps :
      (s : os.State) (dir line : Bytes) (q : FilePath)
      → console_ca_path os dir ≢ q
      → Keeps os lawful s (record_console_ca os s dir line).0 q
  unfolding record_console_ca
  record_console_ca-Keeps s dir line q ne = elim (Bool-cases (trim_space line == [])) [
    | inl e ↦ rw (e, record_console_ca) (same_state s q)
    | inr e ↦
        rw (e, record_console_ca)
          (lawful.write_apart s (console_ca_path os dir) q (trim_space line ++ b'\n' ∷ []) 0o644 ne)
  ]
