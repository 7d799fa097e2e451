-- ===== src/Examples/Plane.antt =====
-- internal/toolplane and cmd/agent/settings.go on a node with files in memory.
use cube_advisor_agent.Base.{
  ℕ, ◌≤◌, ◌+◌, ◌≡◌, ◌≢◌, ◌↔◌, refl, true, false, none, some, [], ◌∷◌, Bytes, text, ok, All, length,
  arith, bytes_beq, trim_space, strip, space_width, space_width_rev, ◌∙◌,
}
use cube_advisor_agent.Os.Memory.{Files, memory_os, memory_os-IsLawful, find, path_beq}
use cube_advisor_agent.Toolplane.Level.{
  level_observe, level_operate, read_level, parse_level, level_of_content, level_string, level_path,
  level_internal, writable_by_others, others_may_write, DialError,
}
use cube_advisor_agent.Toolplane.Level.FailClosed.{IsGranted, read_level-IsGranted}
use cube_advisor_agent.Toolplane.Consent.{
  read_consent, parse_consent, consent_string, consent_always, consent_of_content,
}
use cube_advisor_agent.Toolplane.Dials.{write_level, write_consent, write_dial}
use cube_advisor_agent.Toolplane.Dials.RoundTrip.{write_level-read_level}
use cube_advisor_agent.Toolplane.Tools.{validate, tools, second}
use cube_advisor_agent.Toolplane.Sandbox.{
  Args, Node, sandbox_argv_for, sandbox_command, sandbox_command_arg,
}
use cube_advisor_agent.Toolplane.Sandbox.Protections.{IsSealed}
use cube_advisor_agent.Toolplane.Sandbox.Confinement.{
  read_unit, bash, IsCommand, sandbox_argv_for-confined, sandbox_command_iff,
}
use cube_advisor_agent.Toolplane.Truncation.{truncate_at_rune, trim_partial_rune}
use cube_advisor_agent.Toolplane.Truncation.Bounds.{IsPrefixOf, kept_bounds}
use cube_advisor_agent.Toolplane.Registry.{
  Registry, Env, World, empty_registry, new_registry, register, find_tool, apply_options,
  with_level,
}
use cube_advisor_agent.Toolplane.Registry.Building.{
  IsWellFormed, HasDistinctNames, new_registry_iff,
}
use cube_advisor_agent.Toolplane.Registry.Calls.{Audited, call_audited}
use cube_advisor_agent.Settings.{configure, load_settings, options_of, action_level, consent_dial}
use cube_advisor_agent.Settings.Configured.{configure_serves}

abbrev agent_dir : Bytes
agent_dir = text "/etc/agent"

-- A level file that only its owner may write.
abbrev operating : Files
operating = (level_path agent_dir, (0o644, text "operate")) ∷ []

-- One that its group may write.
abbrev loose : Files
loose = (level_path agent_dir, (0o664, text "operate")) ∷ []

abbrev sample_node : Node
sample_node = record {
  broker_dir = text "/run/broker";
  glob = λ p. text "/var/lib/ceph/osd/ceph-0/keyring" ∷ [];
}

abbrev sample_registry : Registry
sample_registry = record empty_registry { tools = tools }

abbrev sample_env : Env
sample_env = record {
  node = sample_node;
  run = λ argv cap. record { out = text "up 3 days"; error = none; deadline_exceeded = false };
  call_id = text "call-1";
  now = 5;
  elapsed = 2;
  error_text = λ e. text "failed";
}

abbrev fresh_world : World
fresh_world = record { audit = []; runs = [] }

abbrev uptime_args : Args
uptime_args = (sandbox_command_arg, text "uptime") ∷ []

abbrev no_text : DialError → Bytes
no_text e = text "broken"

call_audited_example :
    Audited sample_env sample_registry fresh_world (text "shell_read") uptime_args
call_audited_example =
    call_audited sample_env sample_registry fresh_world (text "shell_read") uptime_args

sandbox_argv_for_example :
    ((read_unit (sandbox_argv_for sample_node (text "uptime") second (text "call-1"))).1
      ≡ bash (text "uptime"))
    × IsSealed sample_node second
        (read_unit (sandbox_argv_for sample_node (text "uptime") second (text "call-1"))).0
sandbox_argv_for_example =
    sandbox_argv_for-confined sample_node (text "uptime") second (text "call-1")

sandbox_command_example :
    (sandbox_command uptime_args ≡ ok (text "uptime")) ↔ IsCommand uptime_args (text "uptime")
sandbox_command_example = sandbox_command_iff uptime_args (text "uptime")

-- Two bytes of a rune of three are cut.
abbrev cut_rune : Bytes
cut_rune = b'a' ∷ 0xE2 ∷ 0x82 ∷ 0xAC ∷ []

kept_bounds_example :
    IsPrefixOf (trim_partial_rune (truncate_at_rune cut_rune 3)) cut_rune
    × (length (trim_partial_rune (truncate_at_rune cut_rune 3)) ≤ 3)
    × (length (truncate_at_rune cut_rune 3)
        ≤ length (trim_partial_rune (truncate_at_rune cut_rune 3)) + 3)
kept_bounds_example = kept_bounds cut_rune 3

new_registry_example :
    (new_registry tools true (with_level level_operate ∷ []) ≡ ok sample_registry) ↔ (
      (true ≡ true)
      × All IsWellFormed tools
      × HasDistinctNames tools
      × (sample_registry ≡ record (apply_options (with_level level_operate ∷ []) empty_registry) {
        tools = tools;
      }))
new_registry_example =
    new_registry_iff tools true (with_level level_operate ∷ []) sample_registry (λ r. refl, tt)

operates_run : read_level memory_os operating agent_dir ≡ (level_operate, none)
unfolding read_level find path_beq others_may_write level_of_content parse_level bytes_beq text
    trim_space strip space_width space_width_rev
operates_run = refl

operates : (read_level memory_os operating agent_dir).0 ≢ level_observe
operates = ground (arith, operates_run)

raised_example :
    IsGranted memory_os operating agent_dir (read_level memory_os operating agent_dir).0
raised_example = read_level-IsGranted memory_os operating agent_dir memory_os-IsLawful operates

loose_run : read_level memory_os loose agent_dir ≡ (level_observe, some (writable_by_others 0o664))
unfolding read_level find path_beq others_may_write level_of_content parse_level bytes_beq text
    trim_space strip space_width space_width_rev
loose_run = refl

is_loose : (read_level memory_os loose agent_dir).1 ≢ none
is_loose = ground (arith, loose_run)

abbrev after_level : Files
after_level = (write_level memory_os operating agent_dir (text "internal")).0

level_written : write_level memory_os operating agent_dir (text "internal") ≡ (after_level, ok tt)
unfolding write_level write_dial find path_beq parse_level level_string bytes_beq text
level_written = refl

write_level_example :
    ((parse_level (text "internal")).1 ≡ none)
    × (read_level memory_os after_level agent_dir ≡ parse_level (text "internal"))
    × (read_consent memory_os after_level agent_dir ≡ read_consent memory_os operating agent_dir)
write_level_example =
    write_level-read_level memory_os memory_os-IsLawful operating after_level agent_dir
      (text "internal") level_written

abbrev after_consent : Files
after_consent = (write_consent memory_os operating agent_dir (text "never")).0

consent_written :
    write_consent memory_os operating agent_dir (text "never") ≡ (after_consent, ok tt)
unfolding write_consent write_dial find path_beq parse_consent consent_string bytes_beq text
consent_written = refl

-- The registry that stands for two dials.
abbrev built : ℕ → ℕ → Registry
built l c = record sample_registry { level = l; consent = c }

configured :
    (fs : Files) (l c : ℕ)
    → read_level memory_os fs agent_dir ≡ (l, none)
    → read_consent memory_os fs agent_dir ≡ (c, none)
    → (configure no_text memory_os fs agent_dir tools true []).0 ≡ ok (built l c)
unfolding configure load_settings options_of action_level consent_dial new_registry register
    apply_options validate find_tool bytes_beq text
configured fs l c hl hc = rw (configure, hl, hc) refl

no_consent_file : read_consent memory_os operating agent_dir ≡ (consent_always, none)
unfolding read_consent find path_beq others_may_write consent_of_content parse_consent bytes_beq
    text trim_space strip space_width space_width_rev
no_consent_file = refl

first_built :
    (configure no_text memory_os operating agent_dir tools true []).0
    ≡ ok (built level_operate consent_always)
first_built = configured operating level_operate consent_always operates_run no_consent_file

second_built :
    (configure no_text memory_os after_level agent_dir tools true []).0
    ≡ ok (built level_internal consent_always)
unfolding parse_level bytes_beq text
second_built =
    let reread =
      write_level-read_level memory_os memory_os-IsLawful operating after_level agent_dir
        (text "internal") level_written in
    configured after_level level_internal consent_always (reread.1) (reread.2 ∙ no_consent_file)

configure_example :
    (level_operate ≡ (read_level memory_os operating agent_dir).0)
    × (consent_always ≡ (read_consent memory_os operating agent_dir).0)
configure_example =
    configure_serves no_text memory_os operating agent_dir tools true []
      (built level_operate consent_always) first_built
