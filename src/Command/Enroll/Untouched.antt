-- ===== src/Command/Enroll/Untouched.antt =====
-- What the enroll command writes behind an identity, beside the identity's own files.
use cube_advisor_agent.Base.{
  ◌≡◌, ◌≢◌, refl, inl, inr, not, [], Bytes, text, bytes_beq, bytes_eq, ◌==◌, ok, Bool-cases,
  Result-cases,
}
use cube_advisor_agent.Os.{Os, FilePath, IsLawful}
use cube_advisor_agent.Identity.Store.{
  Pki, Identity, key_path, crt_path, ca_path, server_path, load,
}
use cube_advisor_agent.Identity.Reload.{Keeps, Keeps-trans, other_name}
use cube_advisor_agent.Identity.Enrolment.{Outside, fingerprint}
use cube_advisor_agent.Identity.Origins.{record_console_ca, console_ca_path}
use cube_advisor_agent.Toolplane.Level.{level_path}
use cube_advisor_agent.Toolplane.Consent.{consent_path}
use cube_advisor_agent.Toolplane.Dials.{write_level, write_consent}
use cube_advisor_agent.Command.Tokens.{derive_tunnel_addr}
use cube_advisor_agent.Command.Enroll.{
  EnrollFlags, Around, keep_address, keep_level, keep_consent, keep_ca, record_enrolment,
}
use cube_advisor_agent.Command.Enroll.Beside.{
  same_state, Keeps-if, write_level-Keeps, write_consent-Keeps, save_server-Keeps,
  record_console_ca-Keeps,
}

module _ (os : Os) (lawful : IsLawful os) where
  -- A file that is none of those that the command writes for the node.
  pub record IsApart (dir : Bytes) (q : FilePath) : Type 0 where
    pub here : q.dir ≡ dir
    pub no_server : server_path dir ≢ q
    pub no_level : level_path dir ≢ q
    pub no_consent : consent_path dir ≢ q
    pub no_console : console_ca_path os dir ≢ q

  module _ (pki : Pki) (out : Outside pki) (around : Around pki.Key) where
    keep_address-Keeps :
        (f : EnrollFlags) (s : os.State) (q : FilePath)
        → IsApart f.dir q
        → Keeps os lawful s (keep_address os pki out around f s) q
    keep_address-Keeps f s q apart = elim (Bool-cases (f.tunnel == [])) [
      | inr e ↦
          rw (e, keep_address)
            (save_server-Keeps os lawful s f.dir f.tunnel q apart.here apart.no_server)
      | inl e ↦ elim (Result-cases (derive_tunnel_addr around.hostname_of f.server)) [
        | inr (why, e') ↦ rw (e, keep_address, e') (same_state os lawful s q)
        | inl (addr, e') ↦
            rw (e, keep_address, e')
              (save_server-Keeps os lawful s f.dir addr q apart.here apart.no_server)
      ]
    ]

    -- Behind an identity whose fingerprint can be told, the command leaves that file alone, whatever
    -- of its writes fail.
    pub record_enrolment-Keeps :
        (f : EnrollFlags) (id : Identity pki.Key) (s : os.State) (fp : Bytes) (q : FilePath)
        → fingerprint pki out id.key ≡ ok fp
        → IsApart f.dir q
        → Keeps os lawful s (record_enrolment os pki out around f id s).0 q
    unfolding record_enrolment
    record_enrolment-Keeps f id s fp q e apart =
        let a = keep_address os pki out around f s in
        let b = keep_level os pki out around f.dir id.action_level a in
        let c = keep_consent os pki out around f.dir id.consent b in
        let d = keep_ca os pki out around f.dir id.console_ca c in
        let ab : Keeps os lawful a b q =
          Keeps-if os lawful (not (id.action_level == [])) a
            (write_level os a f.dir id.action_level).0 a q
            (write_level-Keeps os lawful a f.dir id.action_level q apart.no_level)
            (same_state os lawful a q) in
        let bc : Keeps os lawful b c q =
          Keeps-if os lawful (not (id.consent == [])) b (write_consent os b f.dir id.consent).0 b q
            (write_consent-Keeps os lawful b f.dir id.consent q apart.no_consent)
            (same_state os lawful b q) in
        let cd : Keeps os lawful c d q =
          Keeps-if os lawful (not (id.console_ca == [])) c
            (record_console_ca os c f.dir id.console_ca).0 c q
            (record_console_ca-Keeps os lawful c f.dir id.console_ca q apart.no_console)
            (same_state os lawful c q) in
        rw (e, record_enrolment)
          (Keeps-trans os lawful s a d q (keep_address-Keeps f s q apart)
            (Keeps-trans os lawful a b d q ab (Keeps-trans os lawful b c d q bc cd)))

  key-IsApart : (dir : Bytes) → IsApart dir (key_path dir)
  unfolding text bytes_beq
  key-IsApart dir = record {
    here = refl;
    no_server = other_name (server_path dir) (key_path dir) refl;
    no_level = other_name (level_path dir) (key_path dir) refl;
    no_consent = other_name (consent_path dir) (key_path dir) refl;
    no_console = other_name (console_ca_path os dir) (key_path dir) refl;
  }

  crt-IsApart : (dir : Bytes) → IsApart dir (crt_path dir)
  unfolding text bytes_beq
  crt-IsApart dir = record {
    here = refl;
    no_server = other_name (server_path dir) (crt_path dir) refl;
    no_level = other_name (level_path dir) (crt_path dir) refl;
    no_consent = other_name (consent_path dir) (crt_path dir) refl;
    no_console = other_name (console_ca_path os dir) (crt_path dir) refl;
  }

  ca-IsApart : (dir : Bytes) → IsApart dir (ca_path dir)
  unfolding text bytes_beq
  ca-IsApart dir = record {
    here = refl;
    no_server = other_name (server_path dir) (ca_path dir) refl;
    no_level = other_name (level_path dir) (ca_path dir) refl;
    no_consent = other_name (consent_path dir) (ca_path dir) refl;
    no_console = other_name (console_ca_path os dir) (ca_path dir) refl;
  }

  load-Keeps :
      (pki : Pki) (s t : os.State) (dir : Bytes)
      → Keeps os lawful s t (key_path dir)
      → Keeps os lawful s t (crt_path dir)
      → Keeps os lawful s t (ca_path dir)
      → load os pki t dir ≡ load os pki s dir
  unfolding load
  load-Keeps pki s t dir (key, mode) (crt, _) (ca, _) = rw (mode, key, crt, ca) refl

  -- Load finds what it found before the command's other writes.
  pub load-record_enrolment :
      (pki : Pki) (out : Outside pki) (around : Around pki.Key) (f : EnrollFlags)
      (id : Identity pki.Key) (s : os.State) (fp : Bytes)
      → fingerprint pki out id.key ≡ ok fp
      → load os pki (record_enrolment os pki out around f id s).0 f.dir ≡ load os pki s f.dir
  load-record_enrolment pki out around f id s fp e =
      let kept = record_enrolment-Keeps pki out around f id s fp in
      load-Keeps pki s (record_enrolment os pki out around f id s).0 f.dir
        (kept (key_path f.dir) e (key-IsApart f.dir)) (kept (crt_path f.dir) e (crt-IsApart f.dir))
        (kept (ca_path f.dir) e (ca-IsApart f.dir))
