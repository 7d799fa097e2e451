-- ===== src/Console/Dialled.antt =====
-- Which addresses the consoles' handlers dial.
use cube_advisor_agent.Base.{
  ◌≡◌, ◌≢◌, ◌⊎◌, inl, inr, refl, arith, not, ◌||◌, [], ◌∷◌, some, Bytes, bytes_eq, bytes_beq_iff,
  ◌==◌, Result, ok, err, All, In, Bool-cases, Result-cases,
}
use cube_advisor_agent.Os.{OsError, not_exist, other}
use cube_advisor_agent.Console.{
  local_ssh, Network, serve_ssh, Allowlist, resolve, check_targets, load_web_allowlist,
  resolve_file, serve_web,
}

module _ (net : Network) where
  -- The allowlist that a file held: it was read and parsed, and every address in it has a port.
  abbrev pub IsListed :
      (Bytes → Result Bytes (Allowlist net)) → Result OsError Bytes → Bytes → Bytes → Type 0
  IsListed parse file name address =
      (b : Bytes) × ((allow : Allowlist net) × ((file ≡ ok b)
          × ((parse b ≡ ok allow)
              × ((In (name, address) allow)
                  × All
                      (λ (p : Bytes × Bytes). (host : Bytes) × (net.split_host_port p.1 ≡ ok host))
                      allow))))

  resolve-In :
      (allow : Allowlist net) (name address : Bytes)
      → resolve net allow name ≡ ok address
      → In (name, address) allow
  unfolding resolve
  resolve-In [] name address h = absurd (ground arith)
  resolve-In ((n, a) ∷ allow) name address h = elim (Bool-cases (n == name)) [
    | inl same ↦
        let named : n ≡ name = (bytes_beq_iff n name).0 same in
        let found : a ≡ address = ground arith in inl (rw (named, found) refl)
    | inr differs ↦ inr (resolve-In allow name address (ground arith))
  ]

  check_targets-All :
      (allow : Allowlist net)
      → check_targets net allow ≡ ok tt
      → All (λ (p : Bytes × Bytes). (host : Bytes) × (net.split_host_port p.1 ≡ ok host)) allow
  unfolding check_targets
  check_targets-All [] h = tt
  check_targets-All ((n, a) ∷ allow) h = elim (Result-cases (net.split_host_port a)) [
    | inl (host, e) ↦ ((host, e), check_targets-All allow (ground arith))
    | inr (why, e) ↦ absurd (ground arith)
  ]

  resolve_file-IsListed :
      (parse : Bytes → Result Bytes (Allowlist net)) (file : Result OsError Bytes)
      (name address : Bytes)
      → resolve_file net parse file name ≡ ok address
      → IsListed parse file name address
  unfolding resolve_file load_web_allowlist resolve
  resolve_file-IsListed parse (err not_exist) name address h = absurd (ground arith)
  resolve_file-IsListed parse (err (other why)) name address h = absurd (ground arith)
  resolve_file-IsListed parse (ok b) name address h = elim (Result-cases (parse b)) [
    | inl (allow, e) ↦ elim (Result-cases (check_targets net allow)) [
      | inl (_, checked) ↦ (
        b,
        (
          allow,
          (
            refl,
            (e, (resolve-In allow name address (ground arith), check_targets-All allow checked)),
          ),
        ),
      )
      | inr (why, bad) ↦ absurd (ground arith)
    ]
    | inr (why, e) ↦ absurd (ground arith)
  ]

  -- A console channel dials this node's own sshd and nothing else, and only if it names this node, which
  -- is not the empty name; a web channel whose addresses come from the allowlist file dials at most one
  -- address, which the file as it is then lists under the channel's name, and only if the file is there,
  -- is parsed, and every address in it has a port.
  pub dialled_addresses :
      (parse : Bytes → Result Bytes (Allowlist net)) (file : Result OsError Bytes)
      (node target : Bytes)
      → (((serve_ssh net node target).0 ≡ [])
          ⊎ ((target ≢ []) × ((target ≡ node) × ((serve_ssh net node target).0 ≡ local_ssh ∷ []))))
        × (((serve_web net (some (resolve_file net parse file)) target).0 ≡ [])
            ⊎ ((address : Bytes) × (((serve_web net (some (resolve_file net parse file)) target).0
                    ≡ address ∷ [])
                  × IsListed parse file target address)))
  unfolding serve_ssh serve_web
  dialled_addresses parse file node target = (
    elim (Bool-cases (target == [] || not (target == node))) [
      | inl elsewhere ↦ inl (rw (elsewhere, serve_ssh) refl)
      | inr here ↦ inr (
        ground (arith, bytes_beq_iff target []),
        (
          ground (arith, bytes_beq_iff target node),
          elim (Result-cases (net.dial local_ssh)) [
            | inl (_, e) ↦ rw (here, e, serve_ssh) refl
            | inr (why, e) ↦ rw (here, e, serve_ssh) refl
          ],
        ),
      )
    ],
    elim (Result-cases (resolve_file net parse file target)) [
      | inr (e, refused) ↦ inl (rw (refused, serve_web) refl)
      | inl (address, found) ↦ inr (
        address,
        (
          elim (Result-cases (net.dial address)) [
            | inl (_, e) ↦ rw (found, e, serve_web) refl
            | inr (why, e) ↦ rw (found, e, serve_web) refl
          ],
          resolve_file-IsListed parse file target address found,
        ),
      )
    ],
  )
