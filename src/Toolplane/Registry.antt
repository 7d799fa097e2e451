-- ===== src/Toolplane/Registry.antt =====
-- internal/toolplane/registry.go: the registry of tools, and one call of a tool.
-- What a call does not decide itself is its environment: the node's files, the command's run, the
-- clock and the random call id.
pub mod Building
pub mod Calls
use cube_advisor_agent.Base.{
  ℕ, zero, suc, ◌*◌, ◌^◌, Bool, true, false, not, ◌&&◌, ◌||◌, ◌++◌, [], ◌∷◌, List, map, Option,
  none, some, Bytes, text, bytes_eq, ◌==◌, if◌then◌else◌, Result, ok, err, ℤ, pos, is_pos, to_nat,
  length, sort_by,
}
use cube_advisor_agent.Toolplane.Level.{Level, default_level}
use cube_advisor_agent.Toolplane.Consent.{Consent, default_consent}
use cube_advisor_agent.Toolplane.Tools.{Tool, ToolError, validate, second}
use cube_advisor_agent.Toolplane.Sandbox.{
  Args, ArgError, Node, sandbox_command, sandbox_argv_for, with_call,
}
use cube_advisor_agent.Toolplane.Truncation.{truncate_at_rune, trim_partial_rune, truncation_notice}

abbrev pub default_max_output_bytes : ℕ
default_max_output_bytes = 256 * 2 ^ 10

abbrev pub default_timeout : ℕ
default_timeout = 60 * second

-- The reason of a refused call is the error's; that of a run is the runner's text.
pub data Reason : Type 0 where
  no_reason no_such_tool : Reason
  bad_argument : ArgError → Reason
  run_failed : Bytes → Reason

pub record ToolCall : Type 0 where
  pub time : ℕ
  pub tool : Bytes
  pub args : Args
  pub argv : List Bytes
  pub allowed : Bool
  pub reason : Reason
  pub duration : ℕ
  pub bytes : ℕ
  pub truncated : Bool

-- The map of tools in the order of registration, and the settings of a node.
pub record Registry : Type 0 where
  pub tools : List Tool
  pub timeout : ℕ
  pub level : Level
  pub consent : Consent

abbrev pub ToolOption : Type 0
ToolOption = Registry → Registry

abbrev pub with_level : Level → ToolOption
with_level l r = record r { level = l }

abbrev pub with_consent : Consent → ToolOption
with_consent c r = record r { consent = c }

unfoldable pub find_tool : Bytes → List Tool → Option Tool
find_tool name [] = none
find_tool name (t ∷ ts) = if t.name == name then some t else find_tool name ts

pub data BuildError : Type 0 where
  no_auditor : BuildError
  bad_tool : ToolError → BuildError
  registered_twice : Bytes → BuildError

unfoldable pub apply_options : List ToolOption → Registry → Registry
apply_options [] r = r
apply_options (o ∷ os) r = apply_options os (o r)

abbrev is_some : Option Tool → Bool
is_some none = false
is_some (some t) = true

-- The loop that registers the tools, after those that stand in the map.
unfoldable pub register : List Tool → Registry → Result BuildError Registry
unfolding find_tool
register [] r = ok r
register (t ∷ ts) r =
    let rest = register ts (record r { tools = r.tools ++ t ∷ [] }) in
    elim (validate t) [
      | err e ↦ err (bad_tool e)
      | ok _ ↦ if is_some (find_tool t.name r.tools) then err (registered_twice t.name) else rest
    ]

abbrev pub empty_registry : Registry
empty_registry = record {
  tools = [];
  timeout = default_timeout;
  level = default_level;
  consent = default_consent;
}

-- New; the flag says whether an auditor is given.
unfoldable pub new_registry : List Tool → Bool → List ToolOption → Result BuildError Registry
unfolding register apply_options
new_registry ts audited opts =
    if not audited then err no_auditor else register ts (apply_options opts empty_registry)

unfoldable pub timeout_for : Registry → Tool → ℕ
timeout_for r tool = if is_pos tool.timeout then to_nat tool.timeout else r.timeout

unfoldable pub names : Registry → List Bytes
names r = sort_by (λ n. n) (map (λ (t : Tool). t.name) r.tools)

pub data RunError : Type 0 where
  output_truncated : ℕ → RunError
  tool_timed_out : Bytes → ℕ → RunError
  run_error : Bytes → RunError

-- What a run returned, and whether its own deadline had passed by then.
pub record Ran : Type 0 where
  pub out : Bytes
  pub error : Option RunError
  pub deadline_exceeded : Bool

unfoldable pub as_timeout : Bool → Bytes → ℕ → Option RunError → Option RunError
as_timeout exceeded name timeout none = none
as_timeout exceeded name timeout (some e) =
    if exceeded then some (tool_timed_out name timeout) else some e

pub record Env : Type 0 where
  pub node : Node
  pub run : List Bytes → ℕ → Ran
  pub call_id : Bytes
  pub now : ℕ
  pub elapsed : ℕ
  pub error_text : RunError → Bytes

-- The audit log and the argvs that have been run, the latest last.
pub record World : Type 0 where
  pub audit : List ToolCall
  pub runs : List (List Bytes)

pub data CallError : Type 0 where
  unknown_tool : Bytes → CallError
  argument_refused : ArgError → CallError

abbrev pub record_call : World → ToolCall → World
record_call w c = record w { audit = w.audit ++ c ∷ [] }

abbrev refused_call : ℕ → Bytes → Args → Reason → ToolCall
refused_call now name args why = record {
  time = now;
  tool = name;
  args = args;
  argv = [];
  allowed = false;
  reason = why;
  duration = 0;
  bytes = 0;
  truncated = false;
}

-- What is left of a run: the output, the error, and whether it was cut.
pub record Cut : Type 0 where
  pub out : Bytes
  pub error : Option RunError
  pub truncated : Bool

unfoldable pub cut_output : ℕ → Bytes → Option RunError → Cut
cut_output max out (some (output_truncated n)) =
    let kept = trim_partial_rune (truncate_at_rune out max) in
    record { out = kept ++ truncation_notice (length kept); error = none; truncated = true }
cut_output max out e = record { out = out; error = e; truncated = false }

unfoldable pub output_cap : Tool → ℕ
output_cap tool =
    if is_pos tool.max_output_bytes then to_nat tool.max_output_bytes else default_max_output_bytes

module _ (env : Env) where
  abbrev reason_of : Option RunError → Reason
  reason_of none = no_reason
  reason_of (some e) = run_failed (env.error_text e)

  -- The failure of a command is part of its result.
  abbrev with_failure : Bytes → Option RunError → Bytes
  with_failure out none = out
  with_failure out (some e) = out ++ (b'\n' ∷ b'[' ∷ (env.error_text e ++ b']' ∷ b'\n' ∷ []))

  -- From the accepted command on.
  unfoldable pub run_tool : Registry → World → Tool → Bytes → Args → Bytes → World × Bytes
  unfolding cut_output as_timeout output_cap timeout_for
  run_tool r w tool name args command =
      let timeout = timeout_for r tool in
      let argv = sandbox_argv_for env.node command timeout env.call_id in
      let ran = env.run argv (output_cap tool) in
      let cut =
        cut_output (output_cap tool) ran.out
          (as_timeout ran.deadline_exceeded name timeout ran.error) in
      (
        record {
          audit =
              w.audit
              ++ record {
                time = env.now;
                tool = name;
                args = with_call args env.call_id;
                argv = argv;
                allowed = true;
                reason = reason_of cut.error;
                duration = env.elapsed;
                bytes = length cut.out;
                truncated = cut.truncated;
              }
                ∷ [];
          runs = w.runs ++ argv ∷ [];
        },
        with_failure cut.out cut.error,
      )

  unfoldable pub call : Registry → World → Bytes → Args → World × Result CallError Bytes
  unfolding find_tool
  call r w name args = elim (find_tool name r.tools) [
    | none ↦ (record_call w (refused_call env.now name args no_such_tool), err (unknown_tool name))
    | some tool ↦ elim (sandbox_command args) [
      | err e ↦ (
        record_call w (refused_call env.now name args (bad_argument e)),
        err (argument_refused e),
      )
      | ok command ↦ let (w', out) = run_tool r w tool name args command in (w', ok out)
    ]
  ]
