-- ===== src/Proto/Versions.antt =====
-- Negotiate: who is served, and at which version.
use cube_advisor_agent.Base.{
  ℕ, ◌≤◌, ◌≡◌, ◌≢◌, ◌↔◌, true, false, none, [], arith, bytes_beq_iff, pos, ◌⊎◌, inl, inr,
  Bool-cases,
}
use cube_advisor_agent.Proto.{Hello, negotiate, version, min_supported_version}

-- The agent names itself and speaks a version of the window.
abbrev pub IsServed : Hello → Type 0
IsServed h =
    (h.cluster_id ≢ [])
    × (h.fingerprint ≢ [])
    × ((n : ℕ) × (h.protocol_version ≡ pos n) × (min_supported_version ≤ n) × (n ≤ version))

-- An agent is accepted exactly if it names itself and speaks a version of the window.
pub negotiate_accepted_iff : (h : Hello) → ((negotiate h).accepted ≡ true) ↔ IsServed h
unfolding negotiate
negotiate_accepted_iff h =
    ground (arith, bytes_beq_iff h.cluster_id [], bytes_beq_iff h.fingerprint [])

told_version :
    (h : Hello)
    → (negotiate h).accepted ≡ true
    → (negotiate h).protocol_version ≡ h.protocol_version
unfolding negotiate
told_version h = ground arith

told_nothing : (h : Hello) → (negotiate h).accepted ≡ true → (negotiate h).reason ≡ none
unfolding negotiate
told_nothing h = ground arith

pub told_why : (h : Hello) → (negotiate h).accepted ≡ false → (negotiate h).reason ≢ none
unfolding negotiate
told_why h = ground arith

-- An accepted agent is served at its own version with no reason given; a refused one is always told why.
pub negotiate_answer :
    (h : Hello)
    → (((negotiate h).accepted ≡ true)
        × ((negotiate h).protocol_version ≡ h.protocol_version)
        × ((negotiate h).reason ≡ none))
      ⊎ (((negotiate h).accepted ≡ false) × ((negotiate h).reason ≢ none))
unfolding negotiate
negotiate_answer h = elim (Bool-cases (negotiate h).accepted) [
  | inl e ↦ inl (e, told_version h e, told_nothing h e)
  | inr e ↦ inr (e, told_why h e)
]
