-- ===== src/Release.antt =====
-- pkg/release/manifest.go: which files a release's manifest lists. The listing of the directory and the
-- digest of a file are arguments.
pub mod Completeness
use cube_advisor_agent.Base.{
  ℕ, Bool, true, false, not, ◌||◌, [], ◌∷◌, List, Bytes, text, bytes_eq, ◌==◌, if◌then◌else◌,
  Result, ok, err, ◌>>=◌, sort_by,
}

pub record Artifact : Type 0 where
  pub name : Bytes
  pub sha256 : Bytes

pub record Manifest : Type 0 where
  pub version : Bytes
  pub commit : Bytes
  pub protocol_version : ℕ
  pub artifacts : List Artifact

unfoldable pub is_release_metadata : Bytes → Bool
is_release_metadata name =
    name == text "manifest.txt"
    || (name == text "manifest.txt.sig" || name == text "manifest.txt.mldsa87.sig")

pub record DirEntry : Type 0 where
  pub name : Bytes
  pub is_dir : Bool

pub data ReleaseError : Type 0 where
  directory_unreadable : Bytes → ReleaseError
  not_part : Bytes → ReleaseError
  not_built : Bytes → ReleaseError
  digest_failed : Bytes → ReleaseError
  no_artifacts : ReleaseError

unfoldable pub is_listed : Bytes → List Bytes → Bool
is_listed name [] = false
is_listed name (n ∷ ns) = n == name || is_listed name ns

abbrev add_name : Bytes → Result ReleaseError (List Bytes) → Result ReleaseError (List Bytes)
add_name n (ok ns) = ok (n ∷ ns)
add_name n (err e) = err e

-- The loop over the directory: the artifacts that are present.
unfoldable pub present_in : List Bytes → List DirEntry → Result ReleaseError (List Bytes)
unfolding is_release_metadata is_listed
present_in want [] = ok []
present_in want (e ∷ entries) =
    let rest = present_in want entries in
    if e.is_dir || is_release_metadata e.name
    then rest
    else if not (is_listed e.name want)
    then err (not_part e.name)
    else add_name e.name rest

abbrev add_artifact :
    Bytes
    → Result Bytes Bytes
    → Result ReleaseError (List Artifact)
    → Result ReleaseError (List Artifact)
add_artifact n (err why) rest = err (digest_failed why)
add_artifact n (ok sum) (err e) = err e
add_artifact n (ok sum) (ok artifacts) = ok (record { name = n; sha256 = sum } ∷ artifacts)

module _ (digest : Bytes → Result Bytes Bytes) where
  -- The loop over the sorted names.
  unfoldable pub artifacts_of : List Bytes → List Bytes → Result ReleaseError (List Artifact)
  unfolding is_listed
  artifacts_of present [] = ok []
  artifacts_of present (n ∷ names) =
      let rest = artifacts_of present names in
      if not (is_listed n present) then err (not_built n) else add_artifact n (digest n) rest

  with_artifacts : Bytes → Bytes → ℕ → List Artifact → Result ReleaseError Manifest
  with_artifacts version commit protocol [] = err no_artifacts
  with_artifacts version commit protocol (a ∷ artifacts) = ok (record {
    version = version;
    commit = commit;
    protocol_version = protocol;
    artifacts = a ∷ artifacts;
  })

  unfoldable pub build :
      Result Bytes (List DirEntry) → List Bytes → Bytes → Bytes → ℕ → Result ReleaseError Manifest
  unfolding present_in artifacts_of with_artifacts
  build (err why) want version commit protocol = err (directory_unreadable why)
  build (ok entries) want version commit protocol = present_in want entries >>= (λ present.
      artifacts_of present (sort_by (λ n. n) want) >>= with_artifacts version commit protocol)
