-- ===== src/Command/Enroll/Outcomes.antt =====
-- Which exit code follows which enrolment, and what it leaves on the node.
use mathlib.Core.Path.{subst}
use cube_advisor_agent.Base.{
  ℕ, ◌≡◌, ◌⊎◌, inl, inr, refl, sym, ap, ◌∙◌, true, false, not, ◌&&◌, [], arith, Option, none, some,
  Bytes, bytes_eq, ◌==◌, Result, ok, err, Bool-cases, Result-cases, Option-cases, contains, text,
}
use cube_advisor_agent.Base.Io.{Fails, continue_with-Fails, Fails-eq-err}
use cube_advisor_agent.Os.{Os}
use cube_advisor_agent.NodeName.{node_id}
use cube_advisor_agent.Identity.Failures.{
  IdentityError, error_text, token_rejected, is_token_rejected, is_token_rejected-eq,
}
use cube_advisor_agent.Identity.Store.{Pki, Identity, exists}
use cube_advisor_agent.Identity.Writes.{save, remove}
use cube_advisor_agent.Identity.Enrolment.{Outside, Enroller, enroll_and_save, fingerprint}
use cube_advisor_agent.Identity.Enrolled.{enroll_and_save-Outcome, Outcome}
use cube_advisor_agent.Command.{exit_ok, exit_usage, exit_already, exit_token_refused, exit_failed}
use cube_advisor_agent.Command.Tokens.{read_token}
use cube_advisor_agent.Command.Enroll.{
  EnrollFlags, Around, failure_code, cluster_of, enroller, obtain, obtained, record_enrolment,
  enroll_as, enroll_cmd, asked, replaced,
}
use cube_advisor_agent.Identity.NotRefused.{OtherThanRefusal, save-other, remove-other}

module _ (os : Os) (pki : Pki) where
  module _ (out : Outside pki) (around : Around pki.Key) where
    replaced-other :
        (s : os.State) (dir : Bytes) (id : Identity pki.Key)
        → Fails OtherThanRefusal (replaced os pki out around dir id s)
    unfolding replaced
    replaced-other s dir id =
        continue_with-Fails OtherThanRefusal (remove os dir s) _ (remove-other os pki s dir) (λ _ t.
          continue_with-Fails OtherThanRefusal (save os pki dir id t) _ (save-other os pki t dir id)
            (λ _ u. tt))

    -- What is done to obtain an identity, by what the flags say and the service answers.
    pub obtain_cases :
        (f : EnrollFlags) (cluster node token : Bytes) (s : os.State)
        → let got = obtain os pki out around f cluster node token s in
          ((id : Identity pki.Key) × ((f.force ≡ true)
              × ((asked os pki out around f cluster node token ≡ ok id)
                  × (got ≡ replaced os pki out around f.dir id s))))
          ⊎ (((why : IdentityError) × ((f.force ≡ true) × (got ≡ (s, err why))))
              ⊎ ((f.force ≡ false)
                  × (got
                      ≡ enroll_and_save pki out os
                          (enroller around.version f)
                          around.new_key
                          s
                          f.dir
                          cluster
                          node
                          token)))
    unfolding obtain
    obtain_cases f cluster node token s = elim (Bool-cases f.force) [
      | inl forced ↦ elim (Result-cases (asked os pki out around f cluster node token)) [
        | inl (id, e) ↦ inl (id, (forced, (e, rw (forced, e) refl)))
        | inr (why, e) ↦ inr (inl (why, (forced, rw (forced, e) refl)))
      ]
      | inr fresh ↦ inr (inr (fresh, rw fresh refl))
    ]

    outcome-refused :
        (e : Enroller) (s t : os.State) (dir cluster node token : Bytes)
        → Outcome pki out os e around.new_key s dir cluster node token t (err token_rejected)
        → t ≡ s
    outcome-refused e s t dir cluster node token (inl (same, _)) = same
    outcome-refused e s t dir cluster node token (inr (id, (_, (_, inl (_, h))))) =
        absurd (ground arith)
    outcome-refused e s t dir cluster node token (inr (id, (_, (_, inr (why, (run, h)))))) =
        let refused : OtherThanRefusal why =
          Fails-eq-err OtherThanRefusal (save os pki dir id s) (save-other os pki s dir id) run in
        absurd (ground (arith, refused, h))

    -- A refused token leaves the files alone, whether an identity was to be replaced or not.
    obtain-refused :
        (f : EnrollFlags) (cluster node token : Bytes) (s t : os.State)
        → obtain os pki out around f cluster node token s ≡ (t, err token_rejected)
        → t ≡ s
    obtain-refused f cluster node token s t h = elim (obtain_cases f cluster node token s) [
      | inl (id, (_, (_, e))) ↦
          let refused : OtherThanRefusal token_rejected =
            Fails-eq-err OtherThanRefusal (replaced os pki out around f.dir id s)
              (replaced-other s f.dir id) (sym e ∙ h) in
          absurd (ground (arith, refused))
      | inr (inl (why, (_, e))) ↦ ap (λ r. r.0) (sym h ∙ e)
      | inr (inr (_, e)) ↦
          outcome-refused (enroller around.version f) s t f.dir cluster node token (
            subst
              (λ (r : os.State × Result IdentityError (Identity pki.Key)).
                Outcome pki out os (enroller around.version f) around.new_key s f.dir cluster node
                  token r.0 r.1)
              (sym e ∙ h)
              (enroll_and_save-Outcome pki out os (enroller around.version f) around.new_key s f.dir
                cluster node token))
    ]

    failure_code-refused :
        (e : IdentityError)
        → (failure_code around.printing e ≡ exit_usage)
          ⊎ ((failure_code around.printing e ≡ exit_already)
              ⊎ (failure_code around.printing e ≡ exit_token_refused))
        → e ≡ token_rejected
    unfolding failure_code
    failure_code-refused e h = elim (Bool-cases (is_token_rejected e)) [
      | inl refused ↦ is_token_rejected-eq e refused
      | inr other_error ↦
          elim (Bool-cases (contains (text "unreachable") (error_text around.printing e))) [
            | inl far ↦ absurd (ground arith)
            | inr near ↦ absurd (ground arith)
          ]
    ]

    -- The codes that say that nothing was done.
    abbrev Idle : ℕ → Type 0
    Idle code = (code ≡ exit_usage) ⊎ ((code ≡ exit_already) ⊎ (code ≡ exit_token_refused))

    -- Where a run is known to leave the state that it found.
    left_alone :
        {r : os.State × ℕ} {s t : os.State} {code : ℕ}
        → r ≡ (t, code)
        → (c : ℕ) → r ≡ (s, c)
        → t ≡ s
    left_alone h c k = ap (λ (r : os.State × ℕ). r.0) (sym h ∙ k)

    record_enrolment-code :
        (f : EnrollFlags) (id : Identity pki.Key) (s : os.State)
        → ((record_enrolment os pki out around f id s).1 ≡ exit_ok)
          ⊎ ((record_enrolment os pki out around f id s).1 ≡ exit_failed)
    unfolding record_enrolment
    record_enrolment-code f id s = elim (Result-cases (fingerprint pki out id.key)) [
      | inl (fp, e) ↦ inl (rw (e, record_enrolment) refl)
      | inr (why, e) ↦ inr (rw (e, record_enrolment) refl)
    ]

    obtained-Idle :
        (f : EnrollFlags) (cluster node token : Bytes) (s t : os.State) (code : ℕ)
        (got : os.State × Result IdentityError (Identity pki.Key))
        → obtain os pki out around f cluster node token s ≡ got
        → obtained os pki out around f got ≡ (t, code)
        → Idle code
        → t ≡ s
    obtained-Idle f cluster node token s t code (u, ok id) e h idle =
        let same : (record_enrolment os pki out around f id u).1 ≡ code =
          ap (λ (r : os.State × ℕ). r.1) h in
        absurd (ground (arith, same, record_enrolment-code f id u))
    obtained-Idle f cluster node token s t code (u, err why) e h idle =
        let same : failure_code around.printing why ≡ code = ap (λ (r : os.State × ℕ). r.1) h in
        let refused = failure_code-refused why (subst Idle (sym same) idle) in
        let left : u ≡ t = ap (λ (r : os.State × ℕ). r.0) h in
        sym left
        ∙ obtain-refused f cluster node token s u
            (e ∙ ap (λ (w : IdentityError). (u, err w)) refused)

    enroll_as-Idle :
        (f : EnrollFlags) (cluster node token : Bytes) (s t : os.State) (code : ℕ)
        → enroll_as os pki out around f cluster node token s ≡ (t, code)
        → Idle code
        → t ≡ s
    unfolding enroll_as
    enroll_as-Idle f cluster node token s t code h idle =
        elim (Bool-cases (exists os s f.dir && not f.force)) [
          | inl taken ↦ left_alone h exit_already (rw (taken, enroll_as) refl)
          | inr free ↦
              let as_obtained : enroll_as os pki out around f cluster node token s
                  ≡ obtained os pki out around f (obtain os pki out around f cluster node token s) =
                rw (free, enroll_as) refl in
              obtained-Idle f cluster node token s t code _ refl (sym as_obtained ∙ h) idle
        ]

    -- With a code other than 0, 1 and 5, that is for wrong usage, a node that is enrolled already, or a
    -- refused token, the enroll command leaves every file as it was, also with -force.
    pub enroll_cmd-Idle :
        (flags : Option EnrollFlags) (s t : os.State) (code : ℕ)
        → enroll_cmd os pki out around flags s ≡ (t, code)
        → Idle code
        → t ≡ s
    unfolding enroll_cmd
    enroll_cmd-Idle none s t code h idle = ap (λ (r : os.State × ℕ). r.0) (sym h)
    enroll_cmd-Idle (some f) s t code h idle = elim (Bool-cases (f.server == [])) [
      | inl missing ↦ left_alone h exit_usage (rw (missing, enroll_cmd) refl)
      | inr given ↦ elim (Option-cases (cluster_of os pki out around s f)) [
        | inl unnamed ↦ left_alone h exit_usage (rw (given, unnamed, enroll_cmd) refl)
        | inr (cluster, named) ↦
            elim (Result-cases (node_id around.map_lower f.node around.hostname)) [
              | inr (why, e) ↦ left_alone h exit_usage (rw (given, named, e, enroll_cmd) refl)
              | inl (node, e) ↦
                  elim (Result-cases
                    (read_token os s f.token f.token_file f.token_stdin around.stdin)) [
                      | inr (why, k) ↦
                          left_alone h exit_usage (rw (given, named, e, k, enroll_cmd) refl)
                      | inl (token, k) ↦
                          let as_enrolled : enroll_cmd os pki out around (some f) s
                              ≡ enroll_as os pki out around f cluster node token s =
                            rw (given, named, e, k, enroll_cmd) refl in
                          enroll_as-Idle f cluster node token s t code (sym as_enrolled ∙ h) idle
                    ]
            ]
      ]
    ]
