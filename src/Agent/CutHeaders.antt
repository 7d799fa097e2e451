-- ===== src/Agent/CutHeaders.antt =====
-- A stream that ends within its channel-open header.
use cube_advisor_agent.Base.{
  ℕ, ◌<◌, ◌≡◌, refl, ap, ◌∙◌, Bool, [], ◌∷◌, List, Bytes, ok, err, length,
}
use cube_advisor_agent.Tunnel.{
  NetError, eof, TunnelError, header_cut, Stream, Json, max_header_bytes, of_stream, accept_channel,
}
use cube_advisor_agent.Tunnel.Lines.{IsLineText, read_line-cut}
use cube_advisor_agent.Agent.{Event, failed, ended, serve, is_session_over}

module _ (j : Json) (error_text : TunnelError → Bytes) where
  -- The error of AcceptChannel for a stream that ends within its header line wraps the end of the
  -- stream, so Serve ends the session on it, with any count of errors and whatever comes next.
  pub header_cut_ends_session :
      (s : Stream) (n : ℕ) (cancelled slept : Bool) (es : List Event)
      → IsLineText s.content
      → length s.content < max_header_bytes
      → s.ending ≡ eof
      → (accept_channel j (ok s) ≡ err (header_cut eof))
        × (serve error_text n (failed (header_cut eof) cancelled slept ∷ es) ≡ ([], ended))
  unfolding accept_channel of_stream serve is_session_over
  header_cut_ends_session s n cancelled slept es line short at_end = (
    ap (of_stream j s.ending) (read_line-cut max_header_bytes s.content line short)
        ∙ ap (λ (e : NetError). err (header_cut e)) at_end,
    refl,
  )
