-- ===== src/Agent.antt =====
-- internal/agent/serve.go: the accept loop and the routing of channels. The consoles and what they
-- pipe are not modelled, nor is a handler's panic; a handler's goroutine is a handled channel.
pub mod Accepting
pub mod Answering
pub mod CutHeaders
use cube_advisor_agent.Base.{
  ℕ, zero, suc, Bool, true, false, not, ◌&&◌, ◌||◌, ◌++◌, [], ◌∷◌, List, Option, none, some, Bytes,
  text, bytes_eq, nat_eq, ◌==◌, if◌then◌else◌, Result, ok, err, leb, contains,
}
use cube_advisor_agent.Proto.{
  channel_tool, channel_console, target_ssh, target_web, target_tool, ChannelOpen,
}
use cube_advisor_agent.Toolplane.Registry.{Env, World, Registry, CallError, call}
use cube_advisor_agent.Toolplane.Sandbox.{Args}
use cube_advisor_agent.Tunnel.{
  NetError, eof, unexpected_eof, closed, conn_reset, broken_pipe, other, TunnelError, net_failed,
  header_cut, send_failed, Channel, Json, Stream, ArgsError, read_tool_args,
}

abbrev pub max_consecutive_accept_errors : ℕ
max_consecutive_accept_errors = 10

-- errors.Is against the five sentinels.
abbrev is_sentinel : NetError → Bool
is_sentinel eof = true
is_sentinel unexpected_eof = true
is_sentinel closed = true
is_sentinel conn_reset = true
is_sentinel broken_pipe = true
is_sentinel (other why) = false

-- The errors of AcceptChannel that wrap another error.
abbrev pub wraps_sentinel : TunnelError → Bool
wraps_sentinel (net_failed e) = is_sentinel e
wraps_sentinel (header_cut e) = is_sentinel e
wraps_sentinel e = false

module _ (error_text : TunnelError → Bytes) where
  unfoldable pub is_session_over : TunnelError → Bool
  is_session_over e =
      wraps_sentinel e
      || (contains (text "session shutdown") (error_text e)
          || contains (text "use of closed") (error_text e))

-- One return of AcceptChannel: a channel, or an error, with whether ctx had ended by then and whether
-- the pause after it ran to its end.
pub data Event : Type 0 where
  opened : Channel → Event
  failed : TunnelError → Bool → Bool → Event

-- How Serve ends; `serving` says that it waits for the next event.
pub data Ending : Type 0 where
  ended serving : Ending
  gave_up : ℕ → TunnelError → Ending

module _ (error_text : TunnelError → Bytes) where
  -- Serve, with the count of errors so far: the channels that it handled, in order, and its end.
  unfoldable pub serve : ℕ → List Event → List Channel × Ending
  unfolding is_session_over
  serve n [] = ([], serving)
  serve n (opened ch ∷ es) = let (handled, end) = serve 0 es in (ch ∷ handled, end)
  serve n (failed e cancelled slept ∷ es) =
      let rest = serve (suc n) es in
      if is_session_over error_text e || cancelled
      then ([], ended)
      else if leb max_consecutive_accept_errors (suc n)
      then ([], gave_up (suc n) e)
      else if not slept
      then ([], ended)
      else rest

-- tunnelproto.ToolResult.
pub record ToolResult : Type 0 where
  pub is_ok : Bool
  pub output : Bytes
  pub error : Bytes

abbrev pub refused_reason : Bytes
refused_reason = text "refused"

abbrev pub refused : ToolResult
refused = record { is_ok = false; output = []; error = refused_reason }

-- What a handler does to its channel: a result frame, or a pipe to the console of a name.
pub data Effect : Type 0 where
  wrote : ToolResult → Effect
  piped_ssh : Bytes → Effect
  piped_web : Bytes → Effect

-- The Server: which consoles are configured.
pub record Server : Type 0 where
  pub registry : Registry
  pub has_console : Bool
  pub has_web : Bool

-- serveConsole, serveSSHConsole and serveWebConsole.
unfoldable pub serve_console : Server → Channel → List Effect
serve_console s ch =
    let target = ch.request.target in
    if target.kind == target_ssh
    then if s.has_console then piped_ssh target.name ∷ [] else wrote refused ∷ []
    else if target.kind == target_web
    then if s.has_web then piped_web target.name ∷ [] else wrote refused ∷ []
    else wrote refused ∷ []

module _ (j : Json) (env : Env) where
  -- From the registry's answer on.
  unfoldable pub of_call : World × Result CallError Bytes → World × List Effect
  of_call (w, err e) = (w, wrote refused ∷ [])
  of_call (w, ok out) = (w, wrote (record { is_ok = true; output = out; error = [] }) ∷ [])

  of_args : Server → World → Bytes → Result ArgsError Args → World × List Effect
  unfolding of_call
  of_args s w name (err e) = (w, wrote refused ∷ [])
  of_args s w name (ok args) = of_call (call env s.registry w name args)

  -- serveTool; what the channel reads ends with the given error.
  unfoldable pub serve_tool : Server → World → Channel → NetError → World × List Effect
  unfolding of_args
  serve_tool s w ch ending =
      if not (ch.request.target.kind == target_tool)
      then (w, wrote refused ∷ [])
      else of_args s w ch.request.target.name
          (read_tool_args j (record { content = ch.unread; ending = ending }))

  unfoldable pub handle : Server → World → Channel → NetError → World × List Effect
  unfolding serve_tool serve_console
  handle s w ch ending =
      if ch.request.kind == channel_tool
      then serve_tool s w ch ending
      else if ch.request.kind == channel_console
      then (w, serve_console s ch)
      else (w, wrote refused ∷ [])
