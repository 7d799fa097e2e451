-- ===== src/Toolplane/Tools.antt =====
-- internal/toolplane/tools.go: what a tool is. A duration counts nanoseconds.
use cube_advisor_agent.Base.{
  ℕ, Bool, true, not, [], ◌∷◌, List, Bytes, text, bytes_eq, ◌==◌, if◌then◌else◌, Result, ok, err, ℤ,
  pos, is_neg, ◌*◌, ◌^◌,
}

abbrev pub second : ℕ
second = 1000000000

pub record Tool : Type 0 where
  pub name : Bytes
  pub description : Bytes
  pub sandbox : Bool
  pub max_output_bytes : ℤ
  pub timeout : ℤ

abbrev pub tools : List Tool
tools =
    record {
      name = text "shell_read";
      description =
          text "Run a command in the read-only sandbox; anything that changes the system fails.";
      sandbox = true;
      max_output_bytes = pos (64 * 2 ^ 10);
      timeout = pos (60 * second);
    }
    ∷ []

pub data ToolError : Type 0 where
  no_name : ToolError
  not_sandbox : Bytes → ToolError
  negative_timeout : Bytes → ToolError
  negative_cap : Bytes → ToolError

unfoldable pub validate : Tool → Result ToolError (Unit {0})
validate t =
    if t.name == []
    then err no_name
    else if not t.sandbox
    then err (not_sandbox t.name)
    else if is_neg t.timeout
    then err (negative_timeout t.name)
    else if is_neg t.max_output_bytes
    then err (negative_cap t.name)
    else ok tt
