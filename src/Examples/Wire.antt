-- ===== src/Examples/Wire.antt =====
-- pkg/tunnel, the argument frames and internal/agent on concrete streams.
use cube_advisor_agent.Base.{
  ◌<◌, ◌≤◌, ◌≡◌, ◌≢◌, ◌⊎◌, refl, true, false, none, some, [], ◌∷◌, ◌++◌, List, Bytes, text, ok, err,
  arith, length, All, all, all_sound, not, ◌==◌, nat_eq, trim_space, strip, space_width,
  space_width_rev, contains, pos, bytes_beq,
}
use cube_advisor_agent.Toolplane.Tools.{tools}
use cube_advisor_agent.Toolplane.Sandbox.{Args, sandbox_command_arg}
use cube_advisor_agent.Toolplane.Registry.{Env, World, empty_registry}
use cube_advisor_agent.Proto.{
  Hello, ChannelOpen, Target, channel_tool, target_tool, negotiate, validate_open, valid_channel,
  validate_target, valid_target_kind, is_dotted_numeric, check_plane,
}
use cube_advisor_agent.Proto.Opens.{IsLegal}
use cube_advisor_agent.Proto.Versions.{IsServed}
use cube_advisor_agent.Tunnel.{
  Json, Stream, Channel, eof, header_cut, parse_failed, TunnelError, refused_agent,
  refused_by_service, newline, max_header_bytes, open_request, open_channel, accept_channel, accept,
  dial, write_tool_args, read_tool_args,
}
use cube_advisor_agent.Tunnel.Lines.{IsLineText}
use cube_advisor_agent.Tunnel.Channels.{
  IsEncoded, open_channel-accept_channel, accept_channel-IsLegal,
}
use cube_advisor_agent.Tunnel.Handshakes.{handshake_agrees}
use cube_advisor_agent.Tunnel.ToolArgs.{AreEncoded, write_tool_args-read_tool_args}
use cube_advisor_agent.Agent.{
  Server, max_consecutive_accept_errors, Event, opened, failed, gave_up, serving, ended, serve,
  is_session_over, handle, Effect,
}
use cube_advisor_agent.Agent.Accepting.{
  channels, leading, IsPassing, IsCalm, serve_keeps_serving, serve_gives_up,
}
use cube_advisor_agent.Agent.CutHeaders.{header_cut_ends_session}

abbrev tool_target : Target
tool_target = record { kind = target_tool; name = text "shell_read" }

abbrev tool_request : ChannelOpen
tool_request = open_request 1 channel_tool tool_target []

abbrev uptime_args : Args
uptime_args = (sandbox_command_arg, text "uptime") ∷ []

-- encoding/json, on the frames of this file.
abbrev json : Json
json = record {
  marshal_open = λ o. text "{\"id\":1}";
  unmarshal_open = λ line. ok tool_request;
  marshal_args = λ a. text "{\"command\":\"uptime\"}";
  unmarshal_args = λ line. ok uptime_args;
}

line_text : (s : Bytes) → all (λ c. not (c == b'\n')) s ≡ true → IsLineText s
line_text s h = all_sound _ (λ c. not (c == b'\n')) (λ c e. ground arith) s h

request-IsEncoded : IsEncoded json tool_request
unfolding text
request-IsEncoded = record {
  one_line = line_text (json.marshal_open tool_request) refl;
  read_back = refl;
}

header_short : length (text "{\"id\":1}") < max_header_bytes
unfolding text
header_short = omega arith

abbrev sent_header : Bytes
sent_header = text "{\"id\":1}" ++ newline

header_sent : open_channel json 1 channel_tool tool_target [] none none ≡ ok sent_header
unfolding open_channel validate_open valid_channel validate_target valid_target_kind bytes_beq text
    is_dotted_numeric check_plane
header_sent = refl

open_channel_example :
    accept_channel json (ok (record { content = sent_header ++ text "{}"; ending = eof }))
    ≡ ok (record { request = tool_request; unread = text "{}" })
open_channel_example =
    open_channel-accept_channel json 1 channel_tool tool_target [] none none sent_header (text "{}")
      eof request-IsEncoded header_short header_sent

abbrev tool_channel : Channel
tool_channel = record { request = tool_request; unread = text "{}" }

abbrev tool_stream : Stream
tool_stream = record { content = sent_header ++ text "{}"; ending = eof }

channel_accepted : accept_channel json (ok tool_stream) ≡ ok tool_channel
channel_accepted =
    open_channel-accept_channel json 1 channel_tool tool_target [] none none sent_header (text "{}")
      eof request-IsEncoded header_short header_sent

accept_channel_example :
    IsLegal tool_request
    × ((line : Bytes) × ((tool_stream.content ≡ line ++ text "{}")
          × (length line ≤ max_header_bytes)
          × (json.unmarshal_open line ≡ ok tool_request)))
accept_channel_example = accept_channel-IsLegal json tool_stream tool_channel channel_accepted

abbrev agent_hello : Hello
agent_hello = record {
  cluster_id = text "c-1";
  fingerprint = text "ab:cd";
  agent_version = text "v1.2.0";
  protocol_version = pos 2;
  served_level = [];
  served_consent = [];
  brokers = [];
}

handshake_example :
    ((accept (ok agent_hello) negotiate none).0 ≡ some (negotiate agent_hello))
    × ((IsServed agent_hello
          × ((accept (ok agent_hello) negotiate none).1 ≡ ok (negotiate agent_hello))
          × (dial none (ok (negotiate agent_hello)) ≡ ok (negotiate agent_hello)))
        ⊎ ((¬ IsServed agent_hello)
            × ((accept (ok agent_hello) negotiate none).1
                ≡ err (refused_agent (text "c-1") (negotiate agent_hello).reason))
            × (dial none (ok (negotiate agent_hello))
                ≡ err (refused_by_service (negotiate agent_hello).reason))
            × ((negotiate agent_hello).reason ≢ none)))
handshake_example = handshake_agrees agent_hello

args-AreEncoded : AreEncoded json uptime_args
unfolding text trim_space strip space_width space_width_rev
args-AreEncoded = record {
  one_line = line_text (json.marshal_args uptime_args) refl;
  visible = λ e. cc;
  read_back = refl;
}

abbrev args_frame : Bytes
args_frame = text "{\"command\":\"uptime\"}" ++ newline

args_written : write_tool_args json (λ b. none) uptime_args ≡ ok args_frame
unfolding write_tool_args text
args_written = refl

write_tool_args_example :
    read_tool_args json (record { content = args_frame ++ text "more"; ending = eof })
    ≡ ok uptime_args
write_tool_args_example =
    write_tool_args-read_tool_args json (λ b. none) uptime_args args_frame (text "more") eof
      args-AreEncoded args_written

abbrev env : Env
env = record {
  node = record { broker_dir = []; glob = λ p. [] };
  run = λ argv cap. record { out = text "up 3 days"; error = none; deadline_exceeded = false };
  call_id = text "call-1";
  now = 5;
  elapsed = 2;
  error_text = λ e. text "failed";
}

abbrev server : Server
server = record {
  registry = record empty_registry { tools = tools };
  has_console = true;
  has_web = false;
}

abbrev world : World
world = record { audit = []; runs = [] }

abbrev called : World × List Effect
called = handle json env server world (record { request = tool_request; unread = args_frame }) eof

abbrev says : TunnelError → Bytes
says e = text "bad header"

abbrev bad_open : Event
bad_open = failed (parse_failed (text "eof")) false true

abbrev one_bad_open : List Event
one_bad_open = opened tool_channel ∷ bad_open ∷ opened tool_channel ∷ []

passing : All (IsPassing says) one_bad_open
unfolding is_session_over contains text
passing = (tt, ((refl, refl, refl), (tt, tt)))

calm : IsCalm says one_bad_open
calm = (omega arith, (omega arith, (omega arith, tt)))

serve_keeps_example : serve says 0 one_bad_open ≡ (channels one_bad_open, serving)
serve_keeps_example = serve_keeps_serving says one_bad_open passing calm

abbrev ten_bad_opens : List Event
ten_bad_opens =
    opened tool_channel
    ∷ bad_open
    ∷ bad_open
    ∷ bad_open
    ∷ bad_open
    ∷ bad_open
    ∷ bad_open
    ∷ bad_open
    ∷ bad_open
    ∷ bad_open
    ∷ bad_open
    ∷ []

ten_end : serve says 0 ten_bad_opens ≡ (tool_channel ∷ [], gave_up 10 (parse_failed (text "eof")))
unfolding serve is_session_over contains text
ten_end = refl

serve_gives_up_example :
    (max_consecutive_accept_errors ≡ max_consecutive_accept_errors)
    × ((before : List Event) × ((rest : List Event) × ((ten_bad_opens ≡ before ++ rest)
            × (tool_channel ∷ [] ≡ channels before)
            × (10 ≤ leading rest))))
serve_gives_up_example =
    serve_gives_up says ten_bad_opens (tool_channel ∷ []) 10 (parse_failed (text "eof")) ten_end

half_header : IsLineText (text "{\"id")
unfolding text
half_header = line_text (text "{\"id") refl

half_short : length (text "{\"id") < max_header_bytes
unfolding text
half_short = omega arith

header_cut_example :
    (accept_channel json (ok (record { content = text "{\"id"; ending = eof }))
      ≡ err (header_cut eof))
    × (serve says 0 (failed (header_cut eof) false true ∷ one_bad_open) ≡ ([], ended))
header_cut_example =
    header_cut_ends_session json says (record { content = text "{\"id"; ending = eof }) 0 false true
      one_bad_open half_header half_short refl
