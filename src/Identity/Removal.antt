-- ===== src/Identity/Removal.antt =====
-- What Remove leaves of an identity.
use cube_advisor_agent.Base.{
  ◌≡◌, inl, inr, refl, ap, ◌∙◌, [], ◌∷◌, List, arith, Bytes, bytes_beq_iff, bytes_eq, ◌==◌, ok, err,
  Bool-cases, In,
}
use mathlib.Core.Path.{subst}
use cube_advisor_agent.Base.Io.{continue_with-eq-ok}
use cube_advisor_agent.Os.{Os, FilePath, Done, not_exist, other, IsLawful}
use cube_advisor_agent.Identity.Store.{key_path, ca_path}
use cube_advisor_agent.Identity.Writes.{tolerated, remove_all, remove, identity_files}

module _ (os : Os) (lawful : IsLawful os) where
  abbrev pub Gone : os.State → Bytes → Bytes → Type 0
  Gone t dir name =
      let p : FilePath = record { dir = dir; name = name } in
      (os.read_file t p ≡ err not_exist) × (os.stat t p ≡ err not_exist)

  tolerated-Gone :
      (s t : os.State) (dir n : Bytes) (got : os.State × Done)
      → os.remove s (record { dir = dir; name = n }) ≡ got
      → tolerated os n got ≡ (t, ok tt)
      → Gone t dir n
  tolerated-Gone s t dir n (u, ok _) e h =
      let done = e ∙ ap (λ (x : os.State). (x, ok tt)) (ap (λ r. r.0) h) in
      (lawful.read_removed s t _ done, lawful.stat_removed s t _ done)
  tolerated-Gone s t dir n (u, err not_exist) e h =
      lawful.missing_removed s t _ (e ∙ ap (λ (x : os.State). (x, err not_exist)) (ap (λ r. r.0) h))
  tolerated-Gone s t dir n (u, err (other why)) e h = absurd (ground arith)

  tolerated-state :
      (t : os.State) (n : Bytes) (got : os.State × Done)
      → tolerated os n got ≡ (t, ok tt)
      → got.0 ≡ t
  tolerated-state t n (u, ok _) h = ap (λ r. r.0) h
  tolerated-state t n (u, err not_exist) h = ap (λ r. r.0) h
  tolerated-state t n (u, err (other why)) h = absurd (ground arith)

  -- Removing a file brings no other one back.
  tolerated-keep :
      (s t : os.State) (dir n name : Bytes)
      → tolerated os n (os.remove s (record { dir = dir; name = n })) ≡ (t, ok tt)
      → Gone s dir name
      → Gone t dir name
  tolerated-keep s t dir n name h (unread, unknown) = elim (Bool-cases (n == name)) [
    | inl e ↦
        subst (λ (x : Bytes). Gone t dir x) ((bytes_beq_iff n name).0 e)
          (tolerated-Gone s t dir n _ refl h)
    | inr e ↦
        let gone = os.remove s (record { dir = dir; name = n }) in
        let left : gone ≡ (t, gone.1) =
          ap (λ (x : os.State). (x, gone.1)) (tolerated-state t n gone h) in
        let (kept, known) =
          lawful.keep_removed s t (record { dir = dir; name = n })
            (record { dir = dir; name = name }) gone.1 left
            (λ same.
              let names : n ≡ name = ap (λ (p : FilePath). p.name) same in
              absurd (ground (arith, (bytes_beq_iff n name).1 names))) in
        (kept ∙ unread, known ∙ unknown)
  ]

  remove_all-keep :
      (dir : Bytes) (names : List Bytes) (s t : os.State) (name : Bytes)
      → remove_all os dir names s ≡ (t, ok tt)
      → Gone s dir name
      → Gone t dir name
  unfolding remove_all
  remove_all-keep dir [] s t name h gone =
      subst (λ (x : os.State). Gone x dir name) (ap (λ r. r.0) h) gone
  remove_all-keep dir (n ∷ names) s t name h gone =
      let (u, (_, (first, h1))) =
        continue_with-eq-ok (tolerated os n (os.remove s (record { dir = dir; name = n }))) _ h in
      remove_all-keep dir names u t name h1 (tolerated-keep s u dir n name first gone)

  remove_all-Gone :
      (dir : Bytes) (names : List Bytes) (s t : os.State) (name : Bytes)
      → remove_all os dir names s ≡ (t, ok tt)
      → In name names
      → Gone t dir name
  unfolding remove_all
  remove_all-Gone dir [] s t name h member = absurd member
  remove_all-Gone dir (n ∷ names) s t name h member =
      let (u, (_, (first, h1))) =
        continue_with-eq-ok (tolerated os n (os.remove s (record { dir = dir; name = n }))) _ h in
      elim member [
        | inl here ↦
            remove_all-keep dir names u t name h1
              (subst (λ (x : Bytes). Gone u dir x) here (tolerated-Gone s u dir n _ refl first))
        | inr there ↦ remove_all-Gone dir names u t name h1 there
      ]

  -- After Remove, neither the key nor the CA is there.
  pub remove-Gone :
      (s t : os.State) (dir : Bytes)
      → remove os dir s ≡ (t, ok tt)
      → Gone t dir (key_path dir).name × Gone t dir (ca_path dir).name
  unfolding remove
  remove-Gone s t dir h = (
    remove_all-Gone dir (identity_files dir) s t (key_path dir).name h (inl refl),
    remove_all-Gone dir (identity_files dir) s t (ca_path dir).name h (inr (inr (inl refl))),
  )
