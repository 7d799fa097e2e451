-- ===== src/Toolplane/Registry/Calls.antt =====
-- A call of a tool: its record in the audit log, what it runs, and how much it returns.
use cube_advisor_agent.Base.{
  ◌≡◌, ◌⊎◌, inl, inr, refl, true, false, ◌++◌, [], ◌∷◌, none, some, Bytes, Result, ok, err,
  Option-cases, Result-cases, ap,
}
use cube_advisor_agent.Toolplane.Tools.{Tool}
use cube_advisor_agent.Toolplane.Sandbox.{Args, sandbox_command, sandbox_argv_for, ArgError}
use cube_advisor_agent.Toolplane.Registry.{
  Registry, World, Env, ToolCall, CallError, find_tool, timeout_for, run_tool, call, record_call,
  refused_call, no_such_tool, unknown_tool, bad_argument, argument_refused, Reason,
}

module _ (env : Env) (r : Registry) (w : World) (name : Bytes) (args : Args) where
  -- A run: the tool is registered, the arguments give a command, and what ran is that command in the
  -- sandbox, as the record says.
  pub record IsServed (c : ToolCall) : Type 0 where
    pub registered : Tool
    pub command : Bytes
    pub found : find_tool name r.tools ≡ some registered
    pub accepted : sandbox_command args ≡ ok command
    pub argv : c.argv ≡ sandbox_argv_for env.node command (timeout_for r registered) env.call_id
    pub allowed : c.allowed ≡ true
    pub ran : (call env r w name args).0.runs ≡ w.runs ++ c.argv ∷ []
    pub answered : (out : Bytes) × ((call env r w name args).1 ≡ ok out)

  pub record IsRefused (c : ToolCall) : Type 0 where
    pub no_argv : c.argv ≡ []
    pub not_allowed : c.allowed ≡ false
    pub nothing_ran : (call env r w name args).0.runs ≡ w.runs
    pub failed : (e : CallError) × ((call env r w name args).1 ≡ err e)

  -- One new record, of a run or of a refusal.
  abbrev pub Audited : Type 0
  Audited =
      (c : ToolCall) × ((call env r w name args).0.audit ≡ w.audit ++ c ∷ [])
      × (c.tool ≡ name)
      × (IsServed c ⊎ IsRefused c)

  call_of_unknown :
      find_tool name r.tools ≡ none
      → call env r w name args
        ≡ (record_call w (refused_call env.now name args no_such_tool), err (unknown_tool name))
  unfolding call
  call_of_unknown h = rw (h, call) refl

  module _ (t : Tool) (found : find_tool name r.tools ≡ some t) where
    call_of_refused :
        (e : ArgError)
        → sandbox_command args ≡ err e
        → call env r w name args ≡ (
          record_call w (refused_call env.now name args (bad_argument e)),
          err (argument_refused e),
        )
    unfolding call
    call_of_refused e h = rw (found, call, h) refl

    call_of_accepted :
        (command : Bytes)
        → sandbox_command args ≡ ok command
        → call env r w name args
          ≡ ((run_tool env r w t name args command).0, ok (run_tool env r w t name args command).1)
    unfolding call
    call_of_accepted command h = rw (found, call, h) refl

    accepted_audited : (command : Bytes) → sandbox_command args ≡ ok command → Audited
    unfolding run_tool
    accepted_audited command h =
        let e = call_of_accepted command h in
        (
          _,
          ap (λ (x : World × Result CallError Bytes). x.0.audit) e,
          refl,
          inl (record {
            registered = t;
            command = command;
            found = found;
            accepted = h;
            argv = refl;
            allowed = refl;
            ran = ap (λ (x : World × Result CallError Bytes). x.0.runs) e;
            answered = (_, ap (λ (x : World × Result CallError Bytes). x.1) e);
          }),
        )

  refused_audited :
      (why : Reason) (e : CallError)
      → call env r w name args ≡ (record_call w (refused_call env.now name args why), err e)
      → Audited
  refused_audited why e h = (
    refused_call env.now name args why,
    ap (λ (x : World × Result CallError Bytes). x.0.audit) h,
    refl,
    inr (record {
      no_argv = refl;
      not_allowed = refl;
      nothing_ran = ap (λ (x : World × Result CallError Bytes). x.0.runs) h;
      failed = (e, ap (λ (x : World × Result CallError Bytes). x.1) h);
    }),
  )

  -- Every call leaves exactly one new record, under the name that was asked for: either of a run of
  -- a registered tool in the sandbox, or of a refusal, on which nothing runs.
  pub call_audited : Audited
  call_audited = elim (Option-cases (find_tool name r.tools)) [
    | inl missing ↦ refused_audited _ _ (call_of_unknown missing)
    | inr (t, found) ↦ elim (Result-cases (sandbox_command args)) [
      | inl (command, good) ↦ accepted_audited t found command good
      | inr (e, bad) ↦ refused_audited _ _ (call_of_refused t found e bad)
    ]
  ]
