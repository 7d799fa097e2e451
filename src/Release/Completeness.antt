-- ===== src/Release/Completeness.antt =====
-- A manifest lists exactly the files that were asked for, and the directory holds no others.
use cube_advisor_agent.Base.{
  ℕ, ◌≡◌, ◌≢◌, ◌↔◌, ◌⊎◌, inl, inr, refl, sym, ap, ◌∙◌, true, not, ◌||◌, [], ◌∷◌, List, map, arith,
  Bytes, bytes_eq, bytes_beq_iff, Result, ok, err, ◌>>=◌, bind-eq-ok, All, All-mono, All-In, In,
  sort_by, Bool-cases,
}
use mathlib.Core.Path.{subst}
use cube_advisor_agent.Release.{
  Artifact, Manifest, DirEntry, ReleaseError, is_release_metadata, is_listed, add_name,
  add_artifact, present_in, artifacts_of, with_artifacts, build,
}

is_listed_iff : (name : Bytes) (ns : List Bytes) → (is_listed name ns ≡ true) ↔ In name ns
unfolding is_listed
is_listed_iff name [] = ground arith
is_listed_iff name (n ∷ ns) = ground (arith, bytes_beq_iff n name, is_listed_iff name ns)

-- An entry that the manifest leaves out on purpose, or one that was asked for.
abbrev pub IsExpected : List Bytes → DirEntry → Type 0
IsExpected want e = (e.is_dir ≡ true) ⊎ (is_release_metadata e.name ≡ true) ⊎ In e.name want

abbrev entry_names : List DirEntry → List Bytes
entry_names entries = map (λ (e : DirEntry). e.name) entries

abbrev AreIn : List Bytes → List Bytes → Type 0
AreIn names present = All (λ n. In n names) present

AreIn-skip :
    (name : Bytes) (names present : List Bytes) → AreIn names present → AreIn (name ∷ names) present
AreIn-skip name names [] h = tt
AreIn-skip name names (n ∷ present) (m, h) = (inr m, AreIn-skip name names present h)

add_name-eq-ok :
    (n : Bytes) (rest : Result ReleaseError (List Bytes)) (present : List Bytes)
    → add_name n rest ≡ ok present
    → (others : List Bytes) × ((rest ≡ ok others) × (n ∷ others ≡ present))
add_name-eq-ok n (ok others) present h = (others, (refl, cc))
add_name-eq-ok n (err e) present h = absurd (ground arith)

present_in-IsExpected :
    (want : List Bytes) (entries : List DirEntry) (present : List Bytes)
    → present_in want entries ≡ ok present
    → All (IsExpected want) entries × AreIn (entry_names entries) present
unfolding present_in
present_in-IsExpected want [] present h =
    let same : [] ≡ present = cc in (tt, subst (AreIn []) same tt)
present_in-IsExpected want (e ∷ entries) present h =
    elim (Bool-cases (e.is_dir || is_release_metadata e.name)) [
      | inl skipped ↦
          let (expected, found) = present_in-IsExpected want entries present (ground arith) in
          ((ground arith, expected), AreIn-skip e.name (entry_names entries) present found)
      | inr counted ↦ elim (Bool-cases (not (is_listed e.name want))) [
        | inl unknown ↦ absurd (ground arith)
        | inr known ↦
            let (others, (rest, same)) =
              add_name-eq-ok e.name (present_in want entries) present (ground arith) in
            let (expected, found) = present_in-IsExpected want entries others rest in
            (
              (inr (inr ((is_listed_iff e.name want).0 (ground arith))), expected),
              subst (AreIn (e.name ∷ entry_names entries)) same
                  (inl refl, AreIn-skip e.name (entry_names entries) others found),
            )
      ]
    ]

module _ (digest : Bytes → Result Bytes Bytes) where
  -- The artifacts of a list of names: those names, each present, with the digest of its file.
  abbrev Lists : List Bytes → List Bytes → List Artifact → Type 0
  Lists present names artifacts =
      (map (λ (a : Artifact). a.name) artifacts ≡ names)
      × All (λ n. In n present) names
      × All (λ (a : Artifact). digest a.name ≡ ok a.sha256) artifacts

  add_artifact-eq-ok :
      (n : Bytes) (d : Result Bytes Bytes) (rest : Result ReleaseError (List Artifact))
      (artifacts : List Artifact)
      → add_artifact n d rest ≡ ok artifacts
      → (sum : Bytes) × ((others : List Artifact) × ((d ≡ ok sum)
            × (rest ≡ ok others)
            × (record { name = n; sha256 = sum } ∷ others ≡ artifacts)))
  add_artifact-eq-ok n (ok sum) (ok others) artifacts h = (sum, (others, (refl, refl, cc)))
  add_artifact-eq-ok n (ok sum) (err e) artifacts h = absurd (ground arith)
  add_artifact-eq-ok n (err why) rest artifacts h = absurd (ground arith)

  artifacts_of-Lists :
      (present names : List Bytes) (artifacts : List Artifact)
      → artifacts_of digest present names ≡ ok artifacts
      → Lists present names artifacts
  unfolding artifacts_of
  artifacts_of-Lists present [] artifacts h =
      let same : [] ≡ artifacts = cc in subst (Lists present []) same (refl, tt, tt)
  artifacts_of-Lists present (n ∷ names) artifacts h =
      elim (Bool-cases (not (is_listed n present))) [
        | inl missing ↦ absurd (ground arith)
        | inr there ↦
            let (sum, (others, (hashed, rest, same))) =
              add_artifact-eq-ok n (digest n) (artifacts_of digest present names) artifacts
                (ground arith) in
            let (named, found, sums) = artifacts_of-Lists present names others rest in
            subst (Lists present (n ∷ names)) same (
              ap (λ (l : List Bytes). n ∷ l) named,
              ((is_listed_iff n present).0 (ground arith), found),
              (hashed, sums),
            )
      ]

  with_artifacts-eq-ok :
      (version commit : Bytes) (protocol : ℕ) (artifacts : List Artifact) (m : Manifest)
      → with_artifacts digest version commit protocol artifacts ≡ ok m
      → (m.artifacts ≡ artifacts) × (m.version ≡ version) × (artifacts ≢ [])
  unfolding with_artifacts
  with_artifacts-eq-ok version commit protocol [] m h = absurd (ground arith)
  with_artifacts-eq-ok version commit protocol (a ∷ artifacts) m h =
      (ground arith, ground arith, λ e. cc)

  -- A manifest that Build makes lists the files that were asked for, sorted, each with its digest and
  -- each a name of the directory; the directory holds nothing else but directories and the release's own
  -- metadata, and the list is not empty.
  pub build-lists :
      (entries : List DirEntry) (want : List Bytes) (version commit : Bytes) (protocol : ℕ)
      (m : Manifest)
      → build digest (ok entries) want version commit protocol ≡ ok m
      → All (IsExpected want) entries
        × (map (λ (a : Artifact). a.name) m.artifacts ≡ sort_by (λ n. n) want)
        × All (λ n. In n (map (λ (e : DirEntry). e.name) entries)) (sort_by (λ n. n) want)
        × All (λ (a : Artifact). digest a.name ≡ ok a.sha256) m.artifacts
        × (m.artifacts ≢ [])
  unfolding build
  build-lists entries want version commit protocol m h =
      let (present, checked, h1) =
        bind-eq-ok (present_in want entries)
          (λ ns.
            artifacts_of digest ns (sort_by (λ n. n) want)
            >>= with_artifacts digest version commit protocol)
          h in
      let (artifacts, made, h2) =
        bind-eq-ok (artifacts_of digest present (sort_by (λ n. n) want))
          (with_artifacts digest version commit protocol) h1 in
      let (expected, found) = present_in-IsExpected want entries present checked in
      let (named, there, sums) =
        artifacts_of-Lists present (sort_by (λ n. n) want) artifacts made in
      let (same, _, some_one) = with_artifacts-eq-ok version commit protocol artifacts m h2 in
      (
        expected,
        ap (λ (l : List Artifact). map (λ (a : Artifact). a.name) l) same ∙ named,
        All-mono (λ n. In n present) (λ n. In n (entry_names entries))
            (λ n i. All-In (λ k. In k (entry_names entries)) present found n i)
            (sort_by (λ n. n) want) there,
        subst (λ (l : List Artifact). All (λ (a : Artifact). digest a.name ≡ ok a.sha256) l)
            (sym same) sums,
        λ e. some_one (sym same ∙ e),
      )
