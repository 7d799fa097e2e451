-- ===== src/Examples/Releases.antt =====
-- pkg/release on a directory with one artifact.
use cube_advisor_agent.Base.{
  ◌≡◌, ◌≢◌, refl, false, [], ◌∷◌, List, map, Bytes, text, Result, ok, All, In, sort_by, bytes_beq,
}
use cube_advisor_agent.Release.{
  Artifact, Manifest, DirEntry, is_release_metadata, is_listed, present_in, artifacts_of, build,
}
use cube_advisor_agent.Release.Completeness.{IsExpected, build-lists}

abbrev agent_file : Bytes
agent_file = text "cube-advisor-agent_linux_amd64"

abbrev dist : List DirEntry
dist =
    record { name = agent_file; is_dir = false }
    ∷ record { name = text "manifest.txt"; is_dir = false }
    ∷ []

abbrev digest : Bytes → Result Bytes Bytes
digest name = ok (text "ab12")

abbrev manifest : Manifest
manifest = record {
  version = text "0.2.0";
  commit = text "f00";
  protocol_version = 1;
  artifacts = record { name = agent_file; sha256 = text "ab12" } ∷ [];
}

dist_built : build digest (ok dist) (agent_file ∷ []) (text "0.2.0") (text "f00") 1 ≡ ok manifest
unfolding build present_in artifacts_of is_release_metadata is_listed bytes_beq text sort_by
dist_built = refl

build_example :
    All (IsExpected (agent_file ∷ [])) dist
    × (map (λ (a : Artifact). a.name) manifest.artifacts ≡ sort_by (λ n. n) (agent_file ∷ []))
    × All (λ n. In n (map (λ (e : DirEntry). e.name) dist)) (sort_by (λ n. n) (agent_file ∷ []))
    × All (λ (a : Artifact). digest a.name ≡ ok a.sha256) manifest.artifacts
    × (manifest.artifacts ≢ [])
build_example =
    build-lists digest dist (agent_file ∷ []) (text "0.2.0") (text "f00") 1 manifest dist_built
