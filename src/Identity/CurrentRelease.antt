-- ===== src/Identity/CurrentRelease.antt =====
-- What RecordCurrentRelease leaves on the node.
use cube_advisor_agent.Base.{
  ◌≡◌, ◌≢◌, ◌⊎◌, inl, inr, refl, ap, ◌∙◌, true, false, ◌++◌, [], arith, Bytes, bytes_eq,
  bytes_beq_iff, ◌==◌, Result, ok, err, contains_any, trim_space, Bool-cases,
}
use cube_advisor_agent.Os.{Os, OsError, not_exist, other, IsLawful, Done}
use cube_advisor_agent.Identity.{
  current_release_path, temporary_path, line_end, blanks, holds, after_remove, after_rename,
  after_write, record_version, record_current_release,
}

module _ (os : Os) (lawful : IsLawful os) (dir : Bytes) where
  -- The file holds the version: as it was, or as one line that has just been written.
  abbrev pub Holds : os.State → os.State → Bytes → Type 0
  Holds s t v =
      (contains_any blanks v ≡ false)
      × (((t ≡ s)
            × ((b : Bytes) × ((os.read_file s (current_release_path dir) ≡ ok b)
                  × (trim_space b ≡ v))))
          ⊎ (os.read_file t (current_release_path dir) ≡ ok (v ++ line_end)))

  -- The file is gone, or was reported to be missing.
  abbrev pub IsGone : os.State → os.State → Type 0
  IsGone s t =
      (os.read_file t (current_release_path dir) ≡ err not_exist)
      ⊎ (os.remove s (current_release_path dir) ≡ (t, err not_exist))

  removed :
      (s t : os.State) (got : os.State × Done)
      → os.remove s (current_release_path dir) ≡ got
      → after_remove got ≡ (t, ok tt)
      → IsGone s t
  removed s t (u, ok _) e h =
      let same : u ≡ t = cc in
      inl (
        lawful.read_removed s t (current_release_path dir)
          (e ∙ ap (λ (x : os.State). (x, ok tt)) same))
  removed s t (u, err not_exist) e h =
      let same : u ≡ t = cc in inr (e ∙ ap (λ (x : os.State). (x, err not_exist)) same)
  removed s t (u, err (other why)) e h = absurd (ground arith)

  renamed :
      (s t : os.State) (got : os.State × Done)
      → os.rename s (temporary_path dir) (current_release_path dir) ≡ got
      → after_rename got ≡ (t, ok tt)
      → os.rename s (temporary_path dir) (current_release_path dir) ≡ (t, ok tt)
  renamed s t (u, ok _) e h = let same : u ≡ t = cc in e ∙ ap (λ (x : os.State). (x, ok tt)) same
  renamed s t (u, err why) e h = absurd (ground arith)

  written :
      (s t : os.State) (v : Bytes) (got : os.State × Done)
      → os.write_file s (temporary_path dir) (v ++ line_end) 0o644 ≡ got
      → after_write os dir got ≡ (t, ok tt)
      → os.read_file t (current_release_path dir) ≡ ok (v ++ line_end)
  written s t v (u, ok _) e h =
      let moved = renamed u t _ refl h in
      lawful.read_renamed u t (temporary_path dir) (current_release_path dir) moved
      ∙ lawful.read_written s u (temporary_path dir) (v ++ line_end) 0o644 e
  written s t v (u, err why) e h = absurd (ground arith)

  held :
      (r : Result OsError Bytes) (v : Bytes)
      → holds r v ≡ true
      → (b : Bytes) × ((r ≡ ok b) × (trim_space b ≡ v))
  held (ok b) v h = (b, (refl, (bytes_beq_iff (trim_space b) v).0 h))
  held (err e) v h = absurd (ground arith)

  version-Holds :
      (s t : os.State) (v : Bytes)
      → record_version os s dir v ≡ (t, ok tt)
      → ((v ≡ []) × IsGone s t) ⊎ ((v ≢ []) × Holds s t v)
  unfolding record_version
  version-Holds s t v h = elim (Bool-cases (v == [])) [
    | inl e ↦ inl ((bytes_beq_iff v []).0 e, removed s t _ refl (ground arith))
    | inr some_version ↦ elim (Bool-cases (contains_any blanks v)) [
      | inl bad ↦ absurd (ground arith)
      | inr plain ↦ elim (Bool-cases (holds (os.read_file s (current_release_path dir)) v)) [
        | inl same ↦ inr (
          ground (arith, bytes_beq_iff v []),
          (plain, inl (ground arith, held (os.read_file s (current_release_path dir)) v same)),
        )
        | inr other_version ↦
            inr (
              ground (arith, bytes_beq_iff v []),
              (plain, inr (written s t v _ refl (ground arith))),
            )
      ]
    ]
  ]

  -- When RecordCurrentRelease reports success for a version that is blank, the file is gone or was
  -- reported missing; for any other, the version has no blank and no slash, and the file holds it: as it
  -- was, with nothing written, or as one line.
  pub record_current_release-Holds :
      (s t : os.State) (version : Bytes)
      → record_current_release os s dir version ≡ (t, ok tt)
      → ((trim_space version ≡ []) × IsGone s t)
        ⊎ ((trim_space version ≢ []) × Holds s t (trim_space version))
  unfolding record_current_release
  record_current_release-Holds s t version h = version-Holds s t (trim_space version) h
