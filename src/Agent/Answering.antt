-- ===== src/Agent/Answering.antt =====
-- What a handled channel gets back.
use cube_advisor_agent.Base.{
  Bytes, text, false, ◌≡◌, ◌≢◌, ◌⊎◌, true, [], ◌∷◌, List, bytes_eq, nat_eq, Result, ok, err,
}
use cube_advisor_agent.Proto.{target_ssh, target_web, target_tool}
use cube_advisor_agent.Toolplane.Registry.{Env, World, CallError, call}
use cube_advisor_agent.Toolplane.Sandbox.{Args}
use cube_advisor_agent.Tunnel.{NetError, Channel, Json, ArgsError, read_tool_args}
use cube_advisor_agent.Agent.{Effect, wrote, piped_ssh, piped_web, Server}

module _ (j : Json) (env : Env) (s : Server) (w : World) (ch : Channel) (ending : NetError) where
  abbrev arguments : Result ArgsError Args
  arguments = read_tool_args j (record { content = ch.unread; ending = ending })

  -- The frame that says no more than that.
  abbrev pub refusal : Effect
  refusal = wrote (record { is_ok = false; output = []; error = text "refused" })

  -- One result frame with the output of the one call, or the refusal where the call failed.
  abbrev pub IsCallAnswer : World × Result CallError Bytes → World × List Effect → Type 0
  IsCallAnswer called got =
      ((out : Bytes) × ((called.1 ≡ ok out)
          × (got ≡ (called.0, wrote (record { is_ok = true; output = out; error = [] }) ∷ []))))
      ⊎ ((why : CallError) × ((called.1 ≡ err why) × (got ≡ (called.0, refusal ∷ []))))

  -- Nothing is called for a target that is no tool, or without arguments.
  abbrev pub IsToolAnswer : World × List Effect → Type 0
  IsToolAnswer got =
      ((ch.request.target.kind ≢ target_tool) × (got ≡ (w, refusal ∷ [])))
      ⊎ ((ch.request.target.kind ≡ target_tool)
          × (((why : ArgsError) × ((arguments ≡ err why) × (got ≡ (w, refusal ∷ []))))
              ⊎ ((args : Args) × ((arguments ≡ ok args)
                    × IsCallAnswer (call env s.registry w ch.request.target.name args) got))))

  -- What a console channel comes to: the pipe of its kind where that console is configured.
  abbrev pub IsConsoleAnswer : List Effect → Type 0
  IsConsoleAnswer effects =
      ((ch.request.target.kind ≡ target_ssh)
        × (((s.has_console ≡ true) × (effects ≡ piped_ssh ch.request.target.name ∷ []))
            ⊎ ((s.has_console ≡ false) × (effects ≡ refusal ∷ []))))
      ⊎ ((ch.request.target.kind ≡ target_web)
          × (((s.has_web ≡ true) × (effects ≡ piped_web ch.request.target.name ∷ []))
              ⊎ ((s.has_web ≡ false) × (effects ≡ refusal ∷ []))))
      ⊎ ((ch.request.target.kind ≢ target_ssh)
          × (ch.request.target.kind ≢ target_web)
          × (effects ≡ refusal ∷ []))
