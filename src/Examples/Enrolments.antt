-- ===== src/Examples/Enrolments.antt =====
-- internal/identity and the enroll command of cmd/agent on concrete input.
use cube_advisor_agent.Base.{
  ℕ, ◌≡◌, ◌≢◌, inl, inr, refl, arith, Bool, true, false, none, some, ◌++◌, [], ◌∷◌, Bytes, text,
  Result, ok, err, bytes_beq, trim_space, strip, space_width, space_width_rev, contains_any,
  sort_by, bytes_leb, to_lower, itoa,
}
use cube_advisor_agent.Base.Scanning.{trim_right, set_width}
use cube_advisor_agent.Os.{not_exist}
use cube_advisor_agent.Os.Memory.{Files, memory_os, memory_os-IsLawful, find, without, path_beq}
use cube_advisor_agent.NodeName.{node_id, lower, is_ascii}
use cube_advisor_agent.Identity.Failures.{IdentityError, loose_mode}
use cube_advisor_agent.Identity.Store.{
  Pki, IsFaithful, Identity, key_pem, subject, tls_config, exists, load, of_files,
}
use cube_advisor_agent.Identity.Writes.{save, remove, remove_all}
use cube_advisor_agent.Identity.Enrolment.{
  Outside, Enroller, enroll, enroll_and_save, csr, fingerprint, check_status,
}
use cube_advisor_agent.Identity.Enrolled.{Outcome, load-enroll_and_save, enroll_and_save-Outcome}
use cube_advisor_agent.Identity.Origins.{Origins, record_console_origins, record_content, lines_of}
use cube_advisor_agent.Identity.OriginsFile.{IsRecorded, record_console_origins-IsRecorded}
use cube_advisor_agent.Command.{exit_ok}
use cube_advisor_agent.Command.Tokens.{read_token}
use cube_advisor_agent.Command.Enroll.{EnrollFlags, Around, obtain, replaced, enroll_cmd, enroll_as}
use cube_advisor_agent.Command.Enroll.Outcomes.{enroll_cmd-Idle}
use cube_advisor_agent.Command.Enroll.Replaced.{forced-load}

-- A key is a number, PEM is the bytes themselves, and every certificate names one node.
abbrev pub toy_pki : Pki
toy_pki = record {
  Key = ℕ;
  marshal_key = λ k. ok (k ∷ []);
  parse_key = λ b. elim b [ [] ↦ err [] | k ∷ rest ↦ ok k ];
  pem_encode = λ kind b. b;
  pem_decode = λ b. some b;
  parse_certificate = λ b. ok (record { common_name = text "ctrl-1"; units = text "lab" ∷ [] });
  key_pair = λ cert key. ok tt;
  usable_roots = λ b. true;
}

toy_pki-IsFaithful : IsFaithful toy_pki
toy_pki-IsFaithful = record {
  decode_encoded = λ kind b. refl;
  parse_marshalled = λ k b h. let same : k ∷ [] ≡ b = ground arith in rw (← same) refl;
}

abbrev pub toy_service : ℕ → Outside toy_pki
toy_service code = record {
  create_request = λ k cluster node. ok (cluster ++ node);
  marshal_public = λ k. ok (k ∷ []);
  sha256 = λ b. b;
  base64 = λ b. b;
  encode = λ r. ok r.csr;
  decode = λ b. ok (record {
    certificate = text "cert";
    ca = text "ca";
    action_level = [];
    consent = [];
    console_ca = [];
  });
  request_error = λ url. none;
  send = λ r. ok (record { code = code; status = text "status"; body = [] });
}

abbrev pub toy_enroller : Enroller
toy_enroller = record { base_url = text "https://saas"; agent_version = text "dev" }

abbrev pub run_here : Files → Files × Result IdentityError (Identity ℕ)
run_here fs =
    enroll_and_save toy_pki (toy_service 201) memory_os toy_enroller (ok 7) fs (text "/etc/agent")
      (text "lab") (text "ctrl-1") (text "token")

abbrev pub issued : Identity ℕ
issued = record {
  cluster_id = text "lab";
  node_id = text "ctrl-1";
  action_level = [];
  consent = [];
  console_ca = [];
  key = 7;
  cert_pem = text "cert";
  ca_pem = text "ca";
}

abbrev pub enrolled_files : Files
enrolled_files = (run_here []).0

enrolled : run_here [] ≡ (enrolled_files, ok issued)
unfolding enroll_and_save enroll exists save key_pem tls_config csr fingerprint check_status find
    without path_beq bytes_beq text
enrolled = refl

some_ca : text "ca" ≢ []
unfolding text
some_ca h = ground arith

named_here : subject toy_pki (text "cert") ≡ ok (text "ctrl-1", text "lab")
unfolding subject
named_here = refl

no_key_yet :
    memory_os.stat [] (record { dir = text "/etc/agent"; name = text "agent.key" }) ≡ err not_exist
unfolding find
no_key_yet = refl

load_example :
    (◌≡◌ {A = Result Bytes ℕ} (ok 7) (ok issued.key))
    × (load memory_os toy_pki enrolled_files (text "/etc/agent")
        ≡ ok (of_files toy_pki 7 (text "cert") (text "ca") (text "ctrl-1", text "lab")))
load_example =
    load-enroll_and_save toy_pki (toy_service 201) memory_os memory_os-IsLawful toy_pki-IsFaithful
      toy_enroller (ok 7) [] enrolled_files (text "/etc/agent") (text "lab") (text "ctrl-1")
      (text "token") issued (text "ctrl-1") (text "lab") enrolled no_key_yet (inl some_ca)
      named_here

outcome_example :
    Outcome toy_pki
      (toy_service 201)
      memory_os
      toy_enroller
      (ok 7)
      []
      (text "/etc/agent")
      (text "lab")
      (text "ctrl-1")
      (text "token")
      (run_here []).0
      (run_here []).1
outcome_example =
    enroll_and_save-Outcome toy_pki (toy_service 201) memory_os toy_enroller (ok 7) []
      (text "/etc/agent") (text "lab") (text "ctrl-1") (text "token")

abbrev two_origins : Origins
two_origins = (text "web", text "https://b") ∷ (text "api", text "https://a") ∷ []

abbrev after_origins : Files
after_origins = (record_console_origins memory_os (text "/etc/agent") two_origins []).0

origins_written :
    record_console_origins memory_os (text "/etc/agent") two_origins [] ≡ (after_origins, ok tt)
unfolding record_console_origins record_content lines_of sort_by bytes_leb contains_any find without
    path_beq bytes_beq text
origins_written = refl

origins_example :
    IsRecorded memory_os memory_os-IsLawful after_origins (text "/etc/agent") two_origins
origins_example =
    record_console_origins-IsRecorded memory_os memory_os-IsLawful [] after_origins
      (text "/etc/agent") two_origins origins_written

abbrev flags_here : Bool → EnrollFlags
flags_here force = record {
  server = text "https://saas/";
  cluster = text "lab";
  node = text "ctrl-1";
  dir = text "/etc/agent";
  token = text "token";
  token_file = [];
  token_stdin = false;
  force = force;
  tunnel = text "saas:8443";
}

abbrev around_here : Around ℕ
around_here = record {
  hostname = ok (text "ctrl-1");
  stdin = ok [];
  hostname_of = λ url. ok (text "saas");
  new_key = ok 8;
  printing = record { octal = itoa; quoted = λ b. b; system = λ e. [] };
  version = text "dev";
  map_lower = λ b. b;
}

refused_here :
    enroll_cmd memory_os toy_pki
      (toy_service 401)
      around_here
      (some (flags_here true))
      enrolled_files
    ≡ (enrolled_files, 4)
unfolding enroll_cmd enroll_as node_id lower is_ascii read_token obtain enroll exists csr
    fingerprint check_status find without path_beq bytes_beq text trim_space strip space_width
    space_width_rev to_lower trim_right set_width
refused_here = refl

enroll_cmd_example : enrolled_files ≡ enrolled_files
enroll_cmd_example =
    enroll_cmd-Idle memory_os toy_pki (toy_service 401) around_here (some (flags_here true))
      enrolled_files enrolled_files 4 refused_here (inr (inr refl))

abbrev obtained_here : Files × Result IdentityError (Identity ℕ)
obtained_here =
    obtain memory_os toy_pki (toy_service 200) around_here (flags_here true) (text "lab")
      (text "ctrl-1") (text "token") enrolled_files

abbrev issued_anew : Identity ℕ
issued_anew = record issued { key = 8 }

obtained_anew : obtained_here ≡ (obtained_here.0, ok issued_anew)
unfolding obtain enroll replaced remove remove_all save key_pem tls_config csr fingerprint
    check_status find without path_beq bytes_beq text
obtained_anew = refl

forced_example :
    ((enroll_as memory_os toy_pki
        (toy_service 200)
        around_here
        (flags_here true)
        (text "lab")
        (text "ctrl-1")
        (text "token")
        enrolled_files).1
      ≡ exit_ok)
    × (load memory_os toy_pki
          (enroll_as memory_os toy_pki
            (toy_service 200)
            around_here
            (flags_here true)
            (text "lab")
            (text "ctrl-1")
            (text "token")
            enrolled_files).0
          (text "/etc/agent")
        ≡ ok (of_files toy_pki 8 (text "cert") (text "ca") (text "ctrl-1", text "lab")))
forced_example =
    forced-load memory_os toy_pki (toy_service 200) around_here memory_os-IsLawful
      toy_pki-IsFaithful (flags_here true) (text "lab") (text "ctrl-1") (text "token")
      enrolled_files obtained_here.0 issued_anew (text "ctrl-1") (text "lab") refl obtained_anew
      named_here

-- A key file that others may read, without a certificate: the directory holds no identity.
abbrev loose_files : Files
loose_files =
    (record { dir = text "/etc/agent"; name = text "agent.key" }, (0o644, text "old")) ∷ []

-- The new key is written into that file, which stays readable for others, and Load refuses it.
key_left_loose :
    load memory_os toy_pki (run_here loose_files).0 (text "/etc/agent")
    ≡ err (loose_mode (text "/etc/agent" ++ text "/agent.key") 0o644)
unfolding enroll_and_save enroll exists save key_pem tls_config csr fingerprint check_status find
    without path_beq bytes_beq text load subject
key_left_loose = refl
