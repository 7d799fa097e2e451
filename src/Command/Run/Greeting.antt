-- ===== src/Command/Run/Greeting.antt =====
-- What an agent that started tells the service.
use cube_advisor_agent.Base.{
  ℕ, ◌≡◌, ◌≢◌, inl, inr, refl, ap, arith, true, not, [], List, Bytes, text, bytes_eq, bytes_beq_iff,
  Result, ok, err, fail_if, bind-eq-ok, ok_injective, Result-cases,
}
use mathlib.Core.Path.{subst}
use cube_advisor_agent.Os.{Os}
use cube_advisor_agent.Proto.{negotiate}
use cube_advisor_agent.Toolplane.Level.{level_string, read_level}
use cube_advisor_agent.Toolplane.Consent.{consent_string, read_consent}
use cube_advisor_agent.Toolplane.Registry.{Registry}
use cube_advisor_agent.Settings.Configured.{configure_serves}
use cube_advisor_agent.Identity.Store.{Pki, Identity, load, tls_config}
use cube_advisor_agent.Identity.Enrolment.{Outside, fingerprint}
use cube_advisor_agent.Console.{Network, load_web_allowlist}
use cube_advisor_agent.Command.{exit_failed, exit_usage}
use cube_advisor_agent.Command.Tokens.{whole_path}
use cube_advisor_agent.Command.Run.{
  RunFlags, RunAround, Started, or_exit, registry_of, resolve_server_addr, hello_for, start,
  started_with, brokers_now,
}

or_exit-eq-ok :
    {E A : Type 0} (code : ℕ) (r : Result E A) {a : A} → or_exit code r ≡ ok a → r ≡ ok a
or_exit-eq-ok code (ok b) h = cc
or_exit-eq-ok code (err e) h = absurd (ground arith)

module _ (os : Os) (pki : Pki) (out : Outside pki) (net : Network) (around : RunAround net) where
  fingerprint-some : (k : pki.Key) (fp : Bytes) → fingerprint pki out k ≡ ok fp → fp ≢ []
  unfolding fingerprint text
  fingerprint-some k fp h empty = elim (Result-cases (out.marshal_public k)) [
    | inl (spki, e) ↦ absurd (ground arith)
    | inr (why, e) ↦ absurd (ground arith)
  ]

  -- The identity on disk, the address that was resolved, and the dials of the directory.
  abbrev pub IsGreeting : os.State → RunFlags → Started pki.Key → Type 0
  IsGreeting s f st =
      (load os pki s f.dir ≡ ok st.identity)
      × ((resolve_server_addr os s f.server f.dir ≡ ok st.address)
          × ((st.hello.cluster_id ≡ st.identity.cluster_id)
              × ((st.hello.served_level ≡ level_string (read_level os s f.dir).0)
                  × ((st.hello.served_consent ≡ consent_string (read_consent os s f.dir).0)
                      × ((negotiate st.hello).accepted ≡ true)))))

  hello_for-accepted :
      (build cluster fp : Bytes) (reg : Registry) (brokers : List Bytes)
      → cluster ≢ []
      → fp ≢ []
      → (negotiate (hello_for build cluster fp reg brokers)).accepted ≡ true
  unfolding negotiate hello_for
  hello_for-accepted build cluster fp reg brokers c p =
      ground (arith, bytes_beq_iff cluster [], bytes_beq_iff fp [])

  greeting :
      (s : os.State) (f : RunFlags) (st : Started pki.Key) (addr : Bytes) (id : Identity pki.Key)
      (fp : Bytes) (reg : Registry)
      → load os pki s f.dir ≡ ok id
      → resolve_server_addr os s f.server f.dir ≡ ok addr
      → reg.level ≡ (read_level os s f.dir).0
      → reg.consent ≡ (read_consent os s f.dir).0
      → fp ≢ []
      → started_with os pki out net around s addr id fp reg ≡ st
      → st.identity.cluster_id ≢ []
      → IsGreeting s f st
  unfolding hello_for
  greeting s f st addr id fp reg loaded found level consent some_fp same named =
      subst (λ (x : Started pki.Key). x.identity.cluster_id ≢ [] → IsGreeting s f x) same
        (λ c. (
          loaded,
          (
            found,
            (
              refl,
              (
                ap level_string level,
                (
                  ap consent_string consent,
                  hello_for-accepted around.agent_version id.cluster_id fp reg
                      (brokers_now os pki out net around s) c some_fp,
                ),
              ),
            ),
          ),
        ))
        named

  -- An agent that starts opens the tunnel with the identity that is stored, at the address that was given
  -- or persisted, and names the action level and the consent that the directory's files say; a service
  -- of the same version accepts that frame, where the certificate's cluster is not the empty name.
  pub start-IsGreeting :
      (s : os.State) (f : RunFlags) (st : Started pki.Key)
      → start os pki out net around s f ≡ ok st
      → st.identity.cluster_id ≢ []
      → IsGreeting s f st
  unfolding start
  start-IsGreeting s f st h named =
      let (addr, found, h1) =
        bind-eq-ok (or_exit exit_usage (resolve_server_addr os s f.server f.dir)) _ h in
      let (id, loaded, h2) = bind-eq-ok (or_exit exit_failed (load os pki s f.dir)) _ h1 in
      let (_, _, h3) =
        bind-eq-ok
          (or_exit exit_failed (
            load_web_allowlist net around.parse_allowlist
              (os.read_file s (whole_path f.web_targets))))
          _ h2 in
      let (fp, printed, h4) = bind-eq-ok (or_exit exit_failed (fingerprint pki out id.key)) _ h3 in
      let (_, _, h5) = bind-eq-ok (or_exit exit_usage (net.split_host_port addr)) _ h4 in
      let (_, _, h6) = bind-eq-ok (or_exit exit_failed (tls_config pki id)) _ h5 in
      let (_, _, h7) = bind-eq-ok (fail_if (not around.audit_opened) exit_failed) _ h6 in
      let (reg, built, last) =
        bind-eq-ok (or_exit exit_failed (registry_of os pki out net around s f.dir)) _ h7 in
      let (level, consent) =
        configure_serves around.dial_text os s f.dir around.tools true [] reg
          (or_exit-eq-ok exit_failed (registry_of os pki out net around s f.dir) built) in
      let some_fp =
        fingerprint-some id.key fp
          (or_exit-eq-ok exit_failed (fingerprint pki out id.key) printed) in
      greeting s f st addr id fp reg (or_exit-eq-ok exit_failed (load os pki s f.dir) loaded)
        (or_exit-eq-ok exit_usage (resolve_server_addr os s f.server f.dir) found) level consent
        some_fp (ok_injective last) named
