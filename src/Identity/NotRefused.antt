-- ===== src/Identity/NotRefused.antt =====
-- Which errors of Save and Remove are not the service's refusal of a token: all of them.
use mathlib.Core.Path.{subst}
use cube_advisor_agent.Base.{
  ◌≡◌, inl, inr, refl, List, ◌∷◌, false, [], arith, Bytes, bytes_eq, ◌==◌, Result, ok, err,
  Bool-cases, Result-cases,
}
use cube_advisor_agent.Base.Io.{Fails, continue_with-Fails, wrapped-Fails}
use cube_advisor_agent.Os.{Os, Done, not_exist, other}
use cube_advisor_agent.Identity.Failures.{
  IdentityError, is_token_rejected, create_dir, write_key, write_certificate, write_ca,
  marshal_key_failed,
}
use cube_advisor_agent.Identity.Store.{Pki, Identity, key_path, crt_path, key_pem}
use cube_advisor_agent.Identity.Writes.{
  save, remove, make_dir, put_file, put_ca, tolerated, remove_all, identity_files,
}

-- The service did not refuse the token.
abbrev pub OtherThanRefusal : IdentityError → Type 0
OtherThanRefusal e = is_token_rejected e ≡ false

module _ (os : Os) (pki : Pki) where
  put_ca-other : (s : os.State) (dir ca : Bytes) → Fails OtherThanRefusal (put_ca os dir ca s)
  put_ca-other s dir ca = elim (Bool-cases (ca == [])) [
    | inl e ↦ rw e tt
    | inr e ↦ rw e (wrapped-Fails OtherThanRefusal write_ca _ (λ w. refl))
  ]

  key_pem-other :
      (s : os.State) (k : pki.Key) (r : Result IdentityError Bytes)
      → key_pem pki k ≡ r
      → Fails {S = os.State} OtherThanRefusal (s, r)
  unfolding key_pem
  key_pem-other s k (ok pem) h = tt
  key_pem-other s k (err why) h = elim (Result-cases (pki.marshal_key k)) [
    | inl (der, e) ↦ absurd (ground arith)
    | inr (bad, e) ↦
        let same : marshal_key_failed bad ≡ why = ground arith in subst OtherThanRefusal same refl
  ]

  pub save-other :
      (s : os.State) (dir : Bytes) (id : Identity pki.Key)
      → Fails OtherThanRefusal (save os pki dir id s)
  unfolding save
  save-other s dir id =
      continue_with-Fails OtherThanRefusal (make_dir os dir s) _
        (wrapped-Fails OtherThanRefusal create_dir _ (λ w. refl))
        (λ _ a.
          continue_with-Fails OtherThanRefusal (a, key_pem pki id.key) _
            (key_pem-other a id.key _ refl)
            (λ pem b.
              continue_with-Fails OtherThanRefusal
                (put_file os write_key (key_path dir) pem 0o600 b) _
                (wrapped-Fails OtherThanRefusal write_key _ (λ w. refl))
                (λ _ c.
                  continue_with-Fails OtherThanRefusal
                    (put_file os write_certificate (crt_path dir) id.cert_pem 0o644 c) _
                    (wrapped-Fails OtherThanRefusal write_certificate _ (λ w. refl))
                    (λ _ d. put_ca-other d dir id.ca_pem))))

  tolerated-other :
      (n : Bytes) (got : os.State × Done) → Fails OtherThanRefusal (tolerated os n got)
  tolerated-other n (t, ok _) = tt
  tolerated-other n (t, err not_exist) = tt
  tolerated-other n (t, err (other why)) = refl

  remove_all-other :
      (s : os.State) (dir : Bytes) (names : List Bytes)
      → Fails OtherThanRefusal (remove_all os dir names s)
  unfolding remove_all
  remove_all-other s dir [] = tt
  remove_all-other s dir (n ∷ names) =
      continue_with-Fails OtherThanRefusal
        (tolerated os n (os.remove s (record { dir = dir; name = n }))) _ (tolerated-other n _)
        (λ _ t. remove_all-other t dir names)

  pub remove-other : (s : os.State) (dir : Bytes) → Fails OtherThanRefusal (remove os dir s)
  unfolding remove
  remove-other s dir = remove_all-other s dir (identity_files dir)
