-- ===== src/Identity/Enrolled.antt =====
-- What a node holds after EnrollAndSave.
use cube_advisor_agent.Base.{
  ◌≡◌, ◌≢◌, ◌⊎◌, inl, inr, refl, sym, ap, ◌∙◌, false, [], arith, Bytes, bytes_eq, nat_eq, Result,
  ok, err, ◌>>=◌, Bool-cases, Result-cases,
}
use mathlib.Core.Path.{subst}
use cube_advisor_agent.Os.{Os, not_exist, IsLawful}
use cube_advisor_agent.Identity.Failures.{IdentityError, already_enrolled}
use cube_advisor_agent.Identity.Store.{
  Pki, IsFaithful, Identity, key_path, ca_path, subject, of_files, load, exists,
}
use cube_advisor_agent.Identity.Writes.{save}
use cube_advisor_agent.Identity.Reload.{load-save}
use cube_advisor_agent.Identity.Enrolment.{Outside, Enroller, enroll, enroll_and_save, saved}
use cube_advisor_agent.Identity.Issued.{IsIssued, enroll-IsIssued}

module _ (pki : Pki) (out : Outside pki) where
  module _ (os : Os) where
    -- What a run of EnrollAndSave may have done.
    abbrev pub Outcome :
        Enroller
        → Result Bytes pki.Key
        → os.State
        → Bytes
        → Bytes
        → Bytes
        → Bytes
        → os.State
        → Result IdentityError (Identity pki.Key)
        → Type 0
    Outcome e made s dir cluster node token t r =
        ((t ≡ s) × ((why : IdentityError) × (r ≡ err why)))
        ⊎ ((id : Identity pki.Key) × ((exists os s dir ≡ false)
              × (IsIssued pki out made cluster node token id
                  × (((save os pki dir id s ≡ (t, ok tt)) × (r ≡ ok id))
                      ⊎ ((why : IdentityError) × ((save os pki dir id s ≡ (t, err why))
                            × (r ≡ err why)))))))

    saved-Outcome :
        (e : Enroller) (made : Result Bytes pki.Key) (s : os.State) (dir cluster node token : Bytes)
        → exists os s dir ≡ false
        → (id : Identity pki.Key) → enroll pki out e made cluster node token ≡ ok id
        → (done : os.State × Result IdentityError (Unit {0})) → save os pki dir id s ≡ done
        → Outcome e made s dir cluster node token done.0 (done.1 >>= λ _. ok id)
    saved-Outcome e made s dir cluster node token free id h (t, ok _) d =
        inr (id, (free, (enroll-IsIssued pki out e made cluster node token id h, inl (d, refl))))
    saved-Outcome e made s dir cluster node token free id h (t, err why) d =
        inr (
          id,
          (free, (enroll-IsIssued pki out e made cluster node token id h, inr (why, (d, refl)))),
        )

    abbrev run_of :
        Enroller
        → Result Bytes pki.Key
        → os.State
        → Bytes
        → Bytes
        → Bytes
        → Bytes
        → os.State × Result IdentityError (Identity pki.Key)
    run_of e made s dir cluster node token =
        enroll_and_save pki out os e made s dir cluster node token

    -- The run, by what it finds.
    by_cases :
        (e : Enroller) (made : Result Bytes pki.Key) (s : os.State) (dir cluster node token : Bytes)
        → (run_of e made s dir cluster node token ≡ (s, err (already_enrolled dir)))
          ⊎ ((exists os s dir ≡ false)
              × (run_of e made s dir cluster node token
                  ≡ saved pki out os dir s (enroll pki out e made cluster node token)))
    unfolding enroll_and_save
    by_cases e made s dir cluster node token = elim (Bool-cases (exists os s dir)) [
      | inl taken ↦ inl (rw taken refl)
      | inr free ↦ inr (free, rw free refl)
    ]

    -- A run of EnrollAndSave either reports an error and has changed no file, or ran in a directory that
    -- had no identity, with a token, names and a new key, got an answer with status 200 or 201 to a
    -- request with the token, made its identity of that answer's certificate, CA and dials, where the
    -- certificate matches the key, and did what Save does: its result is the identity, or Save's error.
    pub enroll_and_save-Outcome :
        (e : Enroller) (made : Result Bytes pki.Key) (s : os.State) (dir cluster node token : Bytes)
        → let run = enroll_and_save pki out os e made s dir cluster node token in
          Outcome e made s dir cluster node token run.0 run.1
    enroll_and_save-Outcome e made s dir cluster node token =
        let Run = λ (r : os.State × Result IdentityError (Identity pki.Key)).
          Outcome e made s dir cluster node token r.0 r.1 in
        elim (by_cases e made s dir cluster node token) [
          | inl same ↦ subst Run (sym same) (inl (refl, (already_enrolled dir, refl)))
          | inr (free, same) ↦ elim (Result-cases (enroll pki out e made cluster node token)) [
            | inl (id, h) ↦ subst Run (sym (same ∙ ap (saved pki out os dir s) h)) (
                saved-Outcome e made s dir cluster node token free id h (save os pki dir id s) refl)
            | inr (why, h) ↦
                subst Run (sym (same ∙ ap (saved pki out os dir s) h)) (inl (refl, (why, refl)))
          ]
        ]

    saved-ok :
        (s t : os.State) (dir : Bytes) (r : Result IdentityError (Identity pki.Key))
        (id : Identity pki.Key)
        → saved pki out os dir s r ≡ (t, ok id)
        → (save os pki dir id s ≡ (t, ok tt)) × (r ≡ ok id)
    saved-ok s t dir (err e) id h = absurd (ground arith)
    saved-ok s t dir (ok new) id h = elim (Result-cases (save os pki dir new s).1) [
      | inl (_, fine) ↦
          let same : new ≡ id = ground (arith, fine) in
          let left : (save os pki dir new s).0 ≡ t = ap (λ r. r.0) h in
          let whole : save os pki dir new s ≡ (t, ok tt) = cc in
          (
            subst (λ (x : Identity pki.Key). save os pki dir x s ≡ (t, ok tt)) same whole,
            ap ok same,
          )
      | inr (why, bad) ↦ absurd (ground (arith, bad))
    ]

    module _ (lawful : IsLawful os) (faithful : IsFaithful pki) where
      -- When EnrollAndSave returns an identity for a directory that had no key, Load reads it back
      -- from the files: the new key, which only its owner can read, the service's certificate and CA,
      -- and the node and the cluster that the certificate names. The certificate names exactly one
      -- cluster, and the service sent a CA or no CA's file was there.
      pub load-enroll_and_save :
          (e : Enroller) (made : Result Bytes pki.Key) (s t : os.State)
          (dir cluster node token : Bytes) (id : Identity pki.Key)
          (named_node named_cluster : Bytes)
          → enroll_and_save pki out os e made s dir cluster node token ≡ (t, ok id)
          → os.stat s (key_path dir) ≡ err not_exist
          → (id.ca_pem ≢ []) ⊎ (os.read_file s (ca_path dir) ≡ err not_exist)
          → subject pki id.cert_pem ≡ ok (named_node, named_cluster)
          → (made ≡ ok id.key)
            × (load os pki t dir
                ≡ ok (of_files pki id.key id.cert_pem id.ca_pem (named_node, named_cluster)))
      load-enroll_and_save e made s t dir cluster node token id named_node named_cluster h fresh
            no_ca named =
          elim (by_cases e made s dir cluster node token) [
            | inl refused ↦ absurd (ground (arith, sym refused ∙ h))
            | inr (_, same) ↦
                let (written, got) =
                  saved-ok s t dir (enroll pki out e made cluster node token) id (sym same ∙ h) in
                (
                  (enroll-IsIssued pki out e made cluster node token id got).1.0,
                  load-save os lawful pki faithful s t dir id named_node named_cluster written fresh
                      no_ca named,
                )
          ]
