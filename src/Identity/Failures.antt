-- ===== src/Identity/Failures.antt =====
-- The errors of internal/identity/identity.go and enroll.go, and the text that each prints.
use cube_advisor_agent.Base.{
  ℕ, ◌≡◌, refl, arith, Bool, true, false, ◌++◌, [], ◌∷◌, Bytes, text, itoa, digits,
}
use cube_advisor_agent.Os.{OsError}

pub data IdentityError : Type 0 where
  create_dir write_key write_certificate write_ca read_key read_certificate :
      OsError → IdentityError
  write_server read_server : OsError → IdentityError
  no_key : Bytes → OsError → IdentityError
  loose_mode : Bytes → ℕ → IdentityError
  key_not_pem : Bytes → IdentityError
  certificate_not_pem unusable_ca : IdentityError
  empty_address no_token no_cluster no_node no_certificate token_rejected : IdentityError
  certificate_unparsed : Bytes → IdentityError
  wrong_units : Bytes → ℕ → IdentityError
  marshal_key_failed parse_key_failed generate_failed create_csr_failed : Bytes → IdentityError
  marshal_public_failed encode_failed request_failed mismatched : Bytes → IdentityError
  service_unreachable unreadable_answer already_enrolled : Bytes → IdentityError
  enrollment_failed : Bytes → Bytes → IdentityError
  removing : Bytes → OsError → IdentityError

-- errors.Is(err, ErrTokenRejected)
abbrev pub is_token_rejected : IdentityError → Bool
is_token_rejected token_rejected = true
is_token_rejected _ = false

pub is_token_rejected-eq : (e : IdentityError) → is_token_rejected e ≡ true → e ≡ token_rejected
is_token_rejected-eq token_rejected h = refl
is_token_rejected-eq _ h = absurd (ground arith)

-- %04o and %q, and the text of a system error, are package fmt's and package os's.
pub record Printing : Type 0 where
  pub octal : ℕ → Bytes
  pub quoted : Bytes → Bytes
  pub system : OsError → Bytes

-- The bytes of the dash in two of the messages.
abbrev long_dash : Bytes
long_dash = 0xE2 ∷ 0x80 ∷ 0x94 ∷ []

module _ (p : Printing) where
  abbrev with_cause : Bytes → OsError → Bytes
  with_cause what e = what ++ (text ": " ++ p.system e)

  -- err.Error()
  unfoldable pub error_text : IdentityError → Bytes
  unfolding text itoa digits
  error_text (create_dir e) = with_cause (text "identity: create dir") e
  error_text (write_key e) = with_cause (text "identity: write key") e
  error_text (write_certificate e) = with_cause (text "identity: write certificate") e
  error_text (write_ca e) = with_cause (text "identity: write ca") e
  error_text (read_key e) = with_cause (text "identity: read key") e
  error_text (read_certificate e) = with_cause (text "identity: read certificate") e
  error_text (write_server e) = with_cause (text "identity: write server address") e
  error_text (read_server e) = with_cause (text "identity: read server address") e
  error_text (no_key path e) = with_cause (text "identity: no key at " ++ path) e
  error_text (loose_mode path perm) =
      text "identity: "
      ++ (path
          ++ (text " has mode "
              ++ (p.octal perm
                  ++ (text "; it must be "
                      ++ (p.octal 0o600
                          ++ (text " " ++ (long_dash ++ text " others can read this key")))))))
  error_text (key_not_pem path) = text "identity: " ++ (path ++ text " is not PEM")
  error_text certificate_not_pem = text "identity: certificate is not PEM"
  error_text unusable_ca = text "identity: enrollment CA is not usable"
  error_text empty_address = text "identity: refusing to persist an empty tunnel address"
  error_text no_token = text "identity: enrollment needs a pairing token"
  error_text no_cluster = text "identity: a CSR needs a cluster id"
  error_text no_node = text "identity: a CSR needs a node id"
  error_text no_certificate = text "identity: enrollment returned no certificate"
  error_text token_rejected =
      text "identity: pairing token rejected" ++ text ": ask for a fresh pairing token"
  error_text (certificate_unparsed why) = why
  error_text (wrong_units name n) =
      text "identity: certificate for "
      ++ (p.quoted name
          ++ (text " carries "
              ++ (itoa n
                  ++ (text " organizational units, want exactly one holding the cluster id; "
                      ++ (text "identities issued before per-node enrolment carry none "
                          ++ (long_dash
                              ++ (text " re-enrol this node with "
                                  ++ (text
                                        "`cube-advisor-agent enroll -server <url> -cluster <cluster> "
                                      ++ text "-node <node> -token-file <file> -force`"))))))))
  error_text (marshal_key_failed why) = text "identity: marshal key: " ++ why
  error_text (parse_key_failed why) = text "identity: parse key: " ++ why
  error_text (generate_failed why) = text "identity: generate key: " ++ why
  error_text (create_csr_failed why) = text "identity: create csr: " ++ why
  error_text (marshal_public_failed why) = text "identity: marshal public key: " ++ why
  error_text (encode_failed why) = why
  error_text (request_failed why) = why
  error_text (mismatched why) = text "identity: key and certificate do not match: " ++ why
  error_text (service_unreachable why) = text "identity: enrollment service unreachable: " ++ why
  error_text (unreadable_answer why) = text "identity: unreadable enrollment response: " ++ why
  error_text (already_enrolled dir) =
      text "identity: this node already has an identity at "
      ++ (dir ++ text "; remove it first to re-enrol")
  error_text (enrollment_failed status body) =
      text "identity: enrollment failed (" ++ (status ++ (text "): " ++ body))
  error_text (removing name e) = with_cause (text "identity: removing " ++ name) e
