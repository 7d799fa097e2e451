-- ===== src/Tunnel.antt =====
-- pkg/tunnel/session.go: the handshake and the opening of channels; pkg/tunnelproto/toolcall.go: the
-- frame of a tool's arguments. yamux and encoding/json are parameters.
pub mod Lines
pub mod Channels
pub mod Handshakes
pub mod ToolArgs
use cube_advisor_agent.Base.{
  ℕ, zero, suc, ◌+◌, ◌*◌, ◌^◌, Bool, true, false, not, ◌++◌, [], ◌∷◌, List, Option, none, some,
  Bytes, text, bytes_eq, nat_eq, ◌==◌, if◌then◌else◌, Result, ok, err, length, ltb, trim_space,
}
use cube_advisor_agent.Toolplane.Sandbox.{Args}
use cube_advisor_agent.Proto.{
  ChannelKind, Target, ChannelOpen, ProtoError, Hello, HelloAck, Refusal, validate_open,
}

-- An error of the network, by the sentinel that it wraps.
pub data NetError : Type 0 where
  eof unexpected_eof closed conn_reset broken_pipe : NetError
  other : Bytes → NetError

pub data TunnelError : Type 0 where
  net_failed : NetError → TunnelError
  header_too_long : TunnelError
  header_cut : NetError → TunnelError
  parse_failed : Bytes → TunnelError
  invalid_open : ProtoError → TunnelError
  send_failed : NetError → TunnelError
  refused_by_service : Option Refusal → TunnelError
  refused_agent : Bytes → Option Refusal → TunnelError

-- The bytes that a stream will give, and the error that it gives after them.
pub record Stream : Type 0 where
  pub content : Bytes
  pub ending : NetError

pub data LineError : Type 0 where
  buffer_full cut_short : LineError

-- bufio.Reader.ReadSlice('\n') with a buffer of so many bytes: the line with its newline, and the rest.
unfoldable pub read_line : ℕ → Bytes → Result LineError (Bytes × Bytes)
read_line zero s = err buffer_full
read_line (suc n) [] = err cut_short
read_line (suc n) (c ∷ s) =
    let more : Result LineError (Bytes × Bytes) = elim (read_line n s) [
      | err e ↦ err e
      | ok (line, rest) ↦ ok (c ∷ line, rest)
    ] in
    if c == b'\n' then ok (c ∷ [], s) else more

abbrev pub newline : Bytes
newline = b'\n' ∷ []

abbrev pub max_header_bytes : ℕ
max_header_bytes = 8192

-- encoding/json, for the frames of the tunnel; Marshal's line has no newline of its own.
pub record Json : Type 0 where
  pub marshal_open : ChannelOpen → Bytes
  pub unmarshal_open : Bytes → Result Bytes ChannelOpen
  pub marshal_args : Args → Bytes
  pub unmarshal_args : Bytes → Result Bytes Args

-- An accepted channel: its request, and what it will read.
pub record Channel : Type 0 where
  pub request : ChannelOpen
  pub unread : Bytes

abbrev pub OpenOption : Type 0
OpenOption = ChannelOpen → ChannelOpen

abbrev pub approved_by_person : OpenOption
approved_by_person o = record o { approved = true }

abbrev pub agent_driven : OpenOption
agent_driven o = record o { agent_driven = true }

unfoldable pub apply_open_options : List OpenOption → ChannelOpen → ChannelOpen
apply_open_options [] o = o
apply_open_options (f ∷ fs) o = apply_open_options fs (f o)

-- The request that OpenChannel makes.
abbrev pub open_request : ℕ → ChannelKind → Target → List OpenOption → ChannelOpen
open_request id kind target opts =
    apply_open_options opts
      (record { id = id; kind = kind; target = target; approved = false; agent_driven = false })

module _ (j : Json) where
  -- What is written to the stream that mux.Open gave; `sent` is the error of the write, if any.
  unfoldable pub open_channel :
      ℕ
      → ChannelKind
      → Target
      → List OpenOption
      → Option NetError
      → Option NetError
      → Result TunnelError Bytes
  unfolding apply_open_options
  open_channel id kind target opts opened sent =
      let asked : ChannelOpen = open_request id kind target opts in
      elim (validate_open asked) [
        | err e ↦ err (invalid_open e)
        | ok _ ↦ elim opened [
          | some e ↦ err (net_failed e)
          | none ↦ elim sent [
            | some e ↦ err (send_failed e)
            | none ↦ ok (j.marshal_open asked ++ newline)
          ]
        ]
      ]

  -- From the header line on.
  of_header : Bytes → Bytes → Result TunnelError Channel
  of_header line rest = elim (j.unmarshal_open line) [
    | err why ↦ err (parse_failed why)
    | ok asked ↦ elim (validate_open asked) [
      | err e ↦ err (invalid_open e)
      | ok _ ↦ ok (record { request = asked; unread = rest })
    ]
  ]

  unfoldable pub of_stream :
      NetError → Result LineError (Bytes × Bytes) → Result TunnelError Channel
  unfolding of_header
  of_stream ending (err buffer_full) = err header_too_long
  of_stream ending (err cut_short) = err (header_cut ending)
  of_stream ending (ok (line, rest)) = of_header line rest

  -- AcceptChannel, on what mux.Accept returns.
  unfoldable pub accept_channel : Result NetError Stream → Result TunnelError Channel
  unfolding of_stream read_line
  accept_channel (err e) = err (net_failed e)
  accept_channel (ok s) = of_stream s.ending (read_line max_header_bytes s.content)

-- Dial, from the control stream on: the error of sending Hello, and the ack that was read.
unfoldable pub dial : Option NetError → Result NetError HelloAck → Result TunnelError HelloAck
dial (some e) answer = err (send_failed e)
dial none (err e) = err (net_failed e)
dial none (ok ack) = if not ack.accepted then err (refused_by_service ack.reason) else ok ack

-- Accept, from the control stream on: the ack that was sent, and the session's.
unfoldable pub accept :
    Result NetError Hello
    → (Hello → HelloAck)
    → Option NetError
    → Option HelloAck × Result TunnelError HelloAck
accept (err e) admit sent = (none, err (net_failed e))
accept (ok hello) admit (some e) = (none, err (send_failed e))
accept (ok hello) admit none =
    let ack = admit hello in
    (some ack, if not ack.accepted then err (refused_agent hello.cluster_id ack.reason) else ok ack)

abbrev pub max_tool_args_bytes : ℕ
max_tool_args_bytes = 8 * 2 ^ 10

pub data ArgsError : Type 0 where
  frame_too_long : ArgsError
  frame_cut : NetError → ArgsError
  frame_malformed : Bytes → ArgsError
  frame_unsent : NetError → ArgsError

module _ (j : Json) where
  -- The frame that was written; the writer is its error for a frame, if any.
  unfoldable pub write_tool_args : (Bytes → Option NetError) → Args → Result ArgsError Bytes
  write_tool_args write args =
      let line = j.marshal_args args in
      if ltb max_tool_args_bytes (length line + 1)
      then err frame_too_long
      else elim (write (line ++ newline)) [
        | some why ↦ err (frame_unsent why)
        | none ↦ ok (line ++ newline)
      ]

  -- A blank line stands for no arguments.
  args_of_line : Bytes → Result ArgsError Args
  args_of_line line =
      if trim_space line == []
      then ok []
      else elim (j.unmarshal_args line) [ err why ↦ err (frame_malformed why) | ok args ↦ ok args ]

  args_of_read : NetError → Result LineError (Bytes × Bytes) → Result ArgsError Args
  unfolding args_of_line
  args_of_read ending (err buffer_full) = err frame_too_long
  args_of_read ending (err cut_short) = err (frame_cut ending)
  args_of_read ending (ok (line, rest)) = args_of_line line

  unfoldable pub read_tool_args : Stream → Result ArgsError Args
  unfolding args_of_read read_line
  read_tool_args s = args_of_read s.ending (read_line max_tool_args_bytes s.content)
