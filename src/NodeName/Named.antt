-- ===== src/NodeName/Named.antt =====
-- A node's name is never empty and has no capital letter.
use cube_advisor_agent.Base.{
  ◌<◌, ◌≡◌, ◌≢◌, ◌⊎◌, inl, inr, refl, [], ◌∷◌, arith, Bytes, bytes_eq, bytes_beq_iff, ◌==◌, Result,
  ok, err, trim_space, to_lower, All, between, Bool-cases,
}
use mathlib.Core.Path.{subst}
use cube_advisor_agent.NodeName.{is_ascii, lower, of_hostname, node_id}

abbrev pub IsNodeName : Bytes → Type 0
IsNodeName name = (name ≢ []) × All (λ c. (c < b'A') ⊎ (b'Z' < c)) name

to_lower-plain : (s : Bytes) → All (λ c. (c < b'A') ⊎ (b'Z' < c)) (to_lower s)
unfolding to_lower
to_lower-plain [] = tt
to_lower-plain (c ∷ s) = elim (Bool-cases (between b'A' b'Z' c)) [
  | inl e ↦ rw (e, to_lower) (inr (ground arith), to_lower-plain s)
  | inr e ↦ rw (e, to_lower) (ground arith, to_lower-plain s)
]

to_lower-ne : (s : Bytes) → s ≢ [] → to_lower s ≢ []
unfolding to_lower
to_lower-ne [] h e = h refl
to_lower-ne (c ∷ s) h e = cc

module _ (map_lower : Bytes → Bytes) (folds : (s : Bytes) → s ≢ [] → IsNodeName (map_lower s)) where
  lower-IsNodeName : (s : Bytes) → s ≢ [] → IsNodeName (lower map_lower s)
  unfolding lower
  lower-IsNodeName s h = elim (Bool-cases (is_ascii s)) [
    | inl e ↦ rw (e, lower) (to_lower-ne s h, to_lower-plain s)
    | inr e ↦ rw (e, lower) (folds s h)
  ]

  -- A folded name that is not empty comes from a text that is not.
  lowered-IsNodeName : (s : Bytes) → lower map_lower s ≢ [] → IsNodeName (lower map_lower s)
  unfolding lower is_ascii to_lower
  lowered-IsNodeName [] h = absurd (h refl)
  lowered-IsNodeName (c ∷ s) h = lower-IsNodeName (c ∷ s) (λ e. cc)

  of_hostname-IsNodeName :
      (hostname : Result Bytes Bytes) (name : Bytes)
      → of_hostname map_lower hostname ≡ ok name
      → IsNodeName name
  unfolding of_hostname
  of_hostname-IsNodeName (err why) name h = absurd (ground arith)
  of_hostname-IsNodeName (ok host) name h =
      elim (Bool-cases (lower map_lower (trim_space host) == [])) [
        | inl e ↦ absurd (ground arith)
        | inr e ↦
            let same : lower map_lower (trim_space host) ≡ name = ground arith in
            subst IsNodeName same (
              lowered-IsNodeName (trim_space host)
                (ground (arith, bytes_beq_iff (lower map_lower (trim_space host)) [])))
      ]

  -- Whatever the flag and the hostname are, a name that is chosen is not empty and has no capital ASCII
  -- letter, where Unicode's table keeps no capital and empties no text.
  pub node_id-IsNodeName :
      (explicit : Bytes) (hostname : Result Bytes Bytes) (name : Bytes)
      → node_id map_lower explicit hostname ≡ ok name
      → IsNodeName name
  unfolding node_id
  node_id-IsNodeName explicit hostname name h = elim (Bool-cases (trim_space explicit == [])) [
    | inl e ↦ of_hostname-IsNodeName hostname name (ground arith)
    | inr e ↦
        let same : lower map_lower (trim_space explicit) ≡ name = ground arith in
        subst IsNodeName same (
          lower-IsNodeName (trim_space explicit)
            (ground (arith, bytes_beq_iff (trim_space explicit) [])))
  ]
