-- ===== src/Identity/Kept.antt =====
-- What RecordCurrentRelease leaves of the file that RecordConsoleOrigins writes.
use cube_advisor_agent.Base.{
  ◌≡◌, ◌≢◌, inl, inr, refl, sym, ap, ◌∙◌, ◌++◌, [], arith, Bytes, bytes_eq, text, ◌==◌, ok, err,
  contains_any, Bool-cases,
}
use cube_advisor_agent.Os.{Os, FilePath, not_exist, other, IsLawful, Done}
use cube_advisor_agent.Identity.{
  current_release_path, temporary_path, line_end, blanks, holds, after_remove, after_rename,
  after_write, record_version,
}
use cube_advisor_agent.Identity.Origins.{origins_path}

module _ (os : Os) (lawful : IsLawful os) (dir : Bytes) where
  release_apart : current_release_path dir ≢ origins_path dir
  unfolding text
  release_apart e = let same = ap (λ (f : FilePath). f.name) e in absurd (ground (arith, same))

  temporary_apart : temporary_path dir ≢ origins_path dir
  unfolding text
  temporary_apart e = let same = ap (λ (f : FilePath). f.name) e in absurd (ground (arith, same))

  removed-keep :
      (s t : os.State) (got : os.State × Done)
      → os.remove s (current_release_path dir) ≡ got
      → after_remove got ≡ (t, ok tt)
      → os.read_file t (origins_path dir) ≡ os.read_file s (origins_path dir)
  removed-keep s t (u, ok r) e h =
      let same : u ≡ t = cc in
      rw (← same) (lawful.keep_removed s u _ (origins_path dir) (ok r) e release_apart).0
  removed-keep s t (u, err not_exist) e h =
      let same : u ≡ t = cc in
      rw (← same) (lawful.keep_removed s u _ (origins_path dir) (err not_exist) e release_apart).0
  removed-keep s t (u, err (other why)) e h = absurd (ground arith)

  renamed-keep :
      (s t : os.State) (got : os.State × Done)
      → os.rename s (temporary_path dir) (current_release_path dir) ≡ got
      → after_rename got ≡ (t, ok tt)
      → os.read_file t (origins_path dir) ≡ os.read_file s (origins_path dir)
  renamed-keep s t (u, ok _) e h =
      let same : u ≡ t = cc in
      rw (← same) (lawful.keep_renamed s u _ _ (origins_path dir) e temporary_apart release_apart)
  renamed-keep s t (u, err why) e h = absurd (ground arith)

  written-keep :
      (s t : os.State) (line : Bytes) (got : os.State × Done)
      → os.write_file s (temporary_path dir) line 0o644 ≡ got
      → after_write os dir got ≡ (t, ok tt)
      → os.read_file t (origins_path dir) ≡ os.read_file s (origins_path dir)
  written-keep s t line (u, ok _) e h =
      renamed-keep u t _ refl h
      ∙ (lawful.keep_written s u _ (origins_path dir) line 0o644 e temporary_apart).0
  written-keep s t line (u, err why) e h = absurd (ground arith)

  -- RecordCurrentRelease leaves the file of the console origins as it was.
  pub version-keep :
      (s t : os.State) (v : Bytes)
      → record_version os s dir v ≡ (t, ok tt)
      → os.read_file t (origins_path dir) ≡ os.read_file s (origins_path dir)
  unfolding record_version
  version-keep s t v h = elim (Bool-cases (v == [])) [
    | inl e ↦ removed-keep s t _ refl (ground arith)
    | inr some_version ↦ elim (Bool-cases (contains_any blanks v)) [
      | inl bad ↦ absurd (ground arith)
      | inr plain ↦ elim (Bool-cases (holds (os.read_file s (current_release_path dir)) v)) [
        | inl same ↦
            let left : s ≡ t = ground (arith) in
            ap (λ (x : os.State). os.read_file x (origins_path dir)) (sym left)
        | inr other_version ↦ written-keep s t (v ++ line_end) _ refl (ground arith)
      ]
    ]
  ]
