-- ===== src/Examples/Starts.antt =====
-- cmd/agent/run.go, internal/console and internal/openstack/admin.go on concrete input.
use cube_advisor_agent.Base.{
  ℕ, ◌+◌, ◌≡◌, ◌≢◌, ◌⊎◌, refl, arith, true, none, some, ◌++◌, [], ◌∷◌, List, Bytes, text, Result,
  ok, bytes_beq, All,
}
use cube_advisor_agent.Os.Memory.{memory_os, find, without, path_beq}
use cube_advisor_agent.Toolplane.Level.{read_level}
use cube_advisor_agent.Toolplane.Consent.{read_consent}
use cube_advisor_agent.Toolplane.Registry.{empty_registry, new_registry, register, apply_options}
use cube_advisor_agent.Settings.{configure, load_settings, options_of, action_level, consent_dial}
use cube_advisor_agent.Identity.Store.{of_files, load, tls_config, key_pem, subject, exists}
use cube_advisor_agent.Identity.Writes.{save}
use cube_advisor_agent.Identity.Enrolment.{enroll, enroll_and_save, csr, fingerprint, check_status}
use cube_advisor_agent.Console.{
  Network, Allowlist, serve_ssh, serve_web, resolve_file, load_web_allowlist, check_targets,
  local_ssh,
}
use cube_advisor_agent.Console.Dialled.{IsListed, dialled_addresses}
use cube_advisor_agent.Credential.Admin.{
  CatalogEndpoint, CatalogService, TokenAnswer, Keystone, new_admin, lookup, add_services,
}
use cube_advisor_agent.Credential.Admin.Catalogs.{preferred, endpoints_of, lookup-preferred}
use cube_advisor_agent.Credential.Admin.Holder.{
  Event, ask_for, dropped, elapsed, run, run_holder, view,
}
use cube_advisor_agent.Credential.Admin.Holder.Refinement.{run-run_holder}
use cube_advisor_agent.Command.Run.{
  RunFlags, RunAround, Started, start, started_with, resolve_server_addr,
}
use cube_advisor_agent.Command.Config.{config_check}
use cube_advisor_agent.Command.Config.Verdict.{Judged, config_check-Judged}
use cube_advisor_agent.Command.Run.Greeting.{IsGreeting, start-IsGreeting}
use cube_advisor_agent.Examples.Enrolments.{toy_pki, toy_service, enrolled_files}

abbrev toy_net : Network
toy_net = record {
  dial = λ address. ok tt;
  pipe = λ address. ok tt;
  split_host_port = λ address. ok address;
}

abbrev one_target : Bytes → Result Bytes (Allowlist toy_net)
one_target b = ok ((text "ui", text "10.0.0.1:443") ∷ [])

dials_example :
    (((serve_ssh toy_net (text "ctrl-1") (text "ui")).0 ≡ [])
      ⊎ ((text "ui" ≢ [])
          × ((text "ui" ≡ text "ctrl-1")
              × ((serve_ssh toy_net (text "ctrl-1") (text "ui")).0 ≡ local_ssh ∷ []))))
    × (((serve_web toy_net (some (resolve_file toy_net one_target (ok []))) (text "ui")).0 ≡ [])
        ⊎ ((address : Bytes) × (((serve_web toy_net
                  (some (resolve_file toy_net one_target (ok [])))
                  (text "ui")).0
                ≡ address ∷ [])
              × IsListed toy_net one_target (ok []) (text "ui") address)))
dials_example = dialled_addresses toy_net one_target (ok []) (text "ctrl-1") (text "ui")

abbrev compute_service : CatalogService
compute_service = record {
  service_type = text "compute";
  endpoints =
      record { interface_kind = text "public"; url = text "https://pub" }
      ∷ record { interface_kind = text "internal"; url = text "http://int" }
      ∷ [];
}

addresses_here :
    All (λ (e : CatalogEndpoint). e.url ≢ []) (endpoints_of (text "compute") (compute_service ∷ []))
unfolding endpoints_of text bytes_beq
addresses_here = ((λ h. ground arith), ((λ h. ground arith), tt))

lookup_example :
    lookup (text "compute") (add_services (compute_service ∷ []) [])
    ≡ preferred (endpoints_of (text "compute") (compute_service ∷ []))
lookup_example = lookup-preferred (text "compute") (compute_service ∷ []) addresses_here

-- Keystone's clock stands in the world, and a token lives for a thousand seconds.
abbrev toy_answer : ℕ → TokenAnswer
toy_answer now = record {
  code = 201;
  subject_token = text "t";
  decoded = some (record { expires_at = now + 1000; services = compute_service ∷ [] });
}

abbrev toy_keystone : Keystone
toy_keystone = record {
  World = ℕ;
  now = λ w. w;
  read_file = λ w path. ok (
      text "export OS_AUTH_URL=http://ks"
      ++ b'\n'
        ∷ (text "OS_USERNAME=admin"
            ++ b'\n' ∷ (text "OS_PASSWORD='x'" ++ b'\n' ∷ text "OS_PROJECT_NAME=p")));
  usable_roots = λ b. true;
  request_error = λ url. none;
  send = λ w r. (w + 1, ok (toy_answer w));
}

abbrev some_events : List (Event toy_keystone (text "/rc"))
some_events =
    ask_for (text "compute")
    ∷ elapsed (λ w. w + 800)
    ∷ ask_for (text "compute")
    ∷ dropped
    ∷ ask_for (text "image")
    ∷ []

run_example :
    run toy_keystone (text "/rc") some_events (new_admin, 10)
    ≡ run_holder toy_keystone
        (text "/rc")
        some_events
        (view toy_keystone (text "/rc") new_admin, 10)
run_example = run-run_holder toy_keystone (text "/rc") some_events new_admin 10

abbrev run_flags : RunFlags
run_flags = record {
  server = text "saas:8443";
  dir = text "/etc/agent";
  web_targets = text "/etc/web-targets.json";
}

abbrev run_around : RunAround toy_net
run_around = record {
  agent_version = text "dev";
  parse_allowlist = one_target;
  audit_opened = true;
  brokers_started = true;
  dial_text = λ e. [];
  tools = [];
}

abbrev started_here : Result ℕ (Started ℕ)
started_here = start memory_os toy_pki (toy_service 201) toy_net run_around enrolled_files run_flags

abbrev started_now : Started ℕ
started_now =
    started_with memory_os toy_pki (toy_service 201) toy_net run_around enrolled_files
      (text "saas:8443") (of_files toy_pki 7 (text "cert") (text "ca") (text "ctrl-1", text "lab"))
      (text "SHA256:" ++ 7 ∷ []) empty_registry

starts : started_here ≡ ok started_now
unfolding start resolve_server_addr load subject load_web_allowlist check_targets fingerprint
    tls_config key_pem configure load_settings options_of action_level consent_dial new_registry
    register apply_options read_level read_consent enroll enroll_and_save exists save csr
    check_status find without path_beq bytes_beq text
starts = refl

named_lab : text "lab" ≢ []
unfolding text
named_lab h = ground arith

start_example :
    IsGreeting memory_os toy_pki
      (toy_service 201)
      toy_net
      run_around
      enrolled_files
      run_flags
      started_now
start_example =
    start-IsGreeting memory_os toy_pki (toy_service 201) toy_net run_around enrolled_files run_flags
      started_now starts named_lab

config_check_example :
    Judged
      (read_level memory_os enrolled_files (text "/etc/agent"))
      (read_consent memory_os enrolled_files (text "/etc/agent"))
      (configure (λ e. []) memory_os enrolled_files (text "/etc/agent") [] true []).0
      (config_check (λ e. []) memory_os [] (some (text "/etc/agent")) enrolled_files).0
config_check_example = config_check-Judged (λ e. []) memory_os [] enrolled_files (text "/etc/agent")
