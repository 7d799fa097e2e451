-- ===== src/Command/Enroll/Replaced.antt =====
-- What a forced enrolment leaves on the node.
use cube_advisor_agent.Base.{
  ℕ, ◌≡◌, inl, inr, refl, sym, ap, ◌∙◌, true, arith, Bytes, ok, Bool-cases, ok_injective,
}
use cube_advisor_agent.Base.Io.{continue_with-eq-ok}
use cube_advisor_agent.Os.{Os, IsLawful}
use cube_advisor_agent.Identity.Store.{Pki, IsFaithful, Identity, exists, load, subject, of_files}
use cube_advisor_agent.Identity.Writes.{save, remove}
use cube_advisor_agent.Identity.Removal.{remove-Gone}
use cube_advisor_agent.Identity.Reload.{load-save}
use cube_advisor_agent.Identity.Enrolment.{Outside, fingerprint}
use cube_advisor_agent.Identity.Issued.{enroll-IsIssued}
use cube_advisor_agent.Command.{exit_ok}
use cube_advisor_agent.Command.Enroll.{
  EnrollFlags, Around, obtain, obtained, record_enrolment, enroll_as, replaced, enroller,
}
use cube_advisor_agent.Command.Enroll.Untouched.{load-record_enrolment}
use cube_advisor_agent.Command.Enroll.Outcomes.{obtain_cases}

module _ (os : Os) (pki : Pki) (out : Outside pki) (around : Around pki.Key) where
  replaced-load :
      (lawful : IsLawful os) (faithful : IsFaithful pki) (s t : os.State) (dir : Bytes)
      (new id : Identity pki.Key) (node cluster : Bytes)
      → replaced os pki out around dir new s ≡ (t, ok id)
      → subject pki id.cert_pem ≡ ok (node, cluster)
      → (new ≡ id)
        × (load os pki t dir ≡ ok (of_files pki id.key id.cert_pem id.ca_pem (node, cluster)))
  unfolding replaced
  replaced-load lawful faithful s t dir new id node cluster h named =
      let (u, (_, (removed, h1))) = continue_with-eq-ok (remove os dir s) _ h in
      let (v, (_, (saved, h2))) = continue_with-eq-ok (save os pki dir new u) _ h1 in
      let same : new ≡ id = ok_injective (ap (λ r. r.1) h2) in
      let left : v ≡ t = ap (λ r. r.0) h2 in
      let (no_key, no_ca) = remove-Gone os lawful s u dir removed in
      (
        same,
        load-save os lawful pki faithful u t dir id node cluster
            (ap (λ (x : Identity pki.Key). save os pki dir x u) (sym same)
              ∙ saved
              ∙ ap (λ (x : os.State). (x, ok tt)) left)
            no_key.1 (inr no_ca.0) named,
      )

  forced_run :
      (f : EnrollFlags) (cluster node token : Bytes) (s : os.State)
      → f.force ≡ true
      → enroll_as os pki out around f cluster node token s
        ≡ obtained os pki out around f (obtain os pki out around f cluster node token s)
  unfolding enroll_as
  forced_run f cluster node token s forced = elim (Bool-cases (exists os s f.dir)) [
    | inl taken ↦ rw (taken, forced, enroll_as) refl
    | inr free ↦ rw (free, enroll_as) refl
  ]

  recorded :
      (f : EnrollFlags) (id : Identity pki.Key) (t : os.State) (fp : Bytes)
      → fingerprint pki out id.key ≡ ok fp
      → (record_enrolment os pki out around f id t).1 ≡ exit_ok
  unfolding record_enrolment
  recorded f id t fp e = rw (e, record_enrolment) refl

  -- When the service gives an identity to an enrolment with -force and the files of the identity can be
  -- written, the command exits with 0, and in the files that it leaves Load reads the new identity,
  -- whatever the directory held before: the key with permissions for its owner alone, the service's
  -- certificate, and its CA or none. The certificate names exactly one cluster. Whether the command's
  -- other writes, of the tunnel's address and the dials, succeed makes no difference.
  pub forced-load :
      (lawful : IsLawful os) (faithful : IsFaithful pki) (f : EnrollFlags)
      (cluster node token : Bytes) (s t : os.State) (id : Identity pki.Key)
      (named_node named_cluster : Bytes)
      → f.force ≡ true
      → obtain os pki out around f cluster node token s ≡ (t, ok id)
      → subject pki id.cert_pem ≡ ok (named_node, named_cluster)
      → ((enroll_as os pki out around f cluster node token s).1 ≡ exit_ok)
        × (load os pki (enroll_as os pki out around f cluster node token s).0 f.dir
            ≡ ok (of_files pki id.key id.cert_pem id.ca_pem (named_node, named_cluster)))
  forced-load lawful faithful f cluster node token s t id named_node named_cluster forced h named =
      elim (obtain_cases os pki out around f cluster node token s) [
        | inl (new, (_, (got, run))) ↦
            let (same, loaded) =
              replaced-load lawful faithful s t f.dir new id named_node named_cluster (sym run ∙ h)
                named in
            let issued =
              enroll-IsIssued pki out (enroller around.version f) around.new_key cluster node token
                new got in
            let (fp, printed) = issued.1.1.1.1.1.1 in
            let printed' : fingerprint pki out id.key ≡ ok fp =
              ap (λ (x : Identity pki.Key). fingerprint pki out x.key) (sym same) ∙ printed in
            let ran =
              forced_run f cluster node token s forced ∙ ap (obtained os pki out around f) h in
            (
              ap (λ (r : os.State × ℕ). r.1) ran ∙ recorded f id t fp printed',
              ap (λ (r : os.State × ℕ). load os pki r.0 f.dir) ran
                  ∙ load-record_enrolment os lawful pki out around f id t fp printed'
                  ∙ loaded,
            )
        | inr (inl (why, (_, run))) ↦ absurd (ground (arith, sym run ∙ h))
        | inr (inr (fresh, _)) ↦ absurd (ground arith)
      ]
