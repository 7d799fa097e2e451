-- ===== src/Tunnel/Channels.antt =====
-- OpenChannel against AcceptChannel.
use cube_advisor_agent.Base.{
  ℕ, ◌≤◌, ◌<◌, ◌≡◌, inl, inr, refl, sym, ◌∙◌, ap, ◌++◌, List, Option, arith, Bytes, Result, ok,
  length, Result-cases, Option-cases,
}
use mathlib.Core.Path.{subst}
use cube_advisor_agent.Proto.{ChannelKind, ChannelOpen, Target, validate_open}
use cube_advisor_agent.Proto.Opens.{IsLegal, validate_open-IsLegal}
use cube_advisor_agent.Tunnel.{
  NetError, Stream, LineError, buffer_full, cut_short, read_line, newline, max_header_bytes, Json,
  Channel, OpenOption, open_request, open_channel, of_header, of_stream, accept_channel,
}
use cube_advisor_agent.Tunnel.Lines.{IsLineText, read_line-frame, read_line-splits}

-- What encoding/json does with one request: its text is a line, and is read back.
pub record IsEncoded (j : Json) (o : ChannelOpen) : Type 0 where
  pub one_line : IsLineText (j.marshal_open o)
  pub read_back : j.unmarshal_open (j.marshal_open o ++ newline) ≡ ok o

module _ (j : Json) where
  of_header-ok :
      (line rest : Bytes) (o : ChannelOpen)
      → j.unmarshal_open line ≡ ok o
      → validate_open o ≡ ok tt
      → of_header j line rest ≡ ok (record { request = o; unread = rest })
  unfolding of_header
  of_header-ok line rest o parsed valid = rw (parsed, of_header, valid) refl

  module _ (id : ℕ) (kind : ChannelKind) (target : Target) (opts : List OpenOption) where
    abbrev o : ChannelOpen
    o = open_request id kind target opts

    opened-valid :
        (opened sent : Option NetError) (wire : Bytes)
        → open_channel j id kind target opts opened sent ≡ ok wire
        → (validate_open o ≡ ok tt) × (wire ≡ j.marshal_open o ++ newline)
    unfolding open_channel
    opened-valid opened sent wire h = elim (Result-cases (validate_open o)) [
      | inr (e, bad) ↦ absurd (ground arith)
      | inl (tt, good) ↦ elim (Option-cases opened) [
        | inr (e, closed) ↦ absurd (ground arith)
        | inl fine ↦ elim (Option-cases sent) [
          | inr (e, broke) ↦ absurd (ground arith)
          | inl went ↦ (good, ground arith)
        ]
      ]
    ]

    -- A channel that OpenChannel opens with a header within the limit is accepted at the other end
    -- with the same request, and what was sent behind the header is what it reads.
    pub open_channel-accept_channel :
        (opened sent : Option NetError) (wire payload : Bytes) (ending : NetError)
        → IsEncoded j o
        → length (j.marshal_open o) < max_header_bytes
        → open_channel j id kind target opts opened sent ≡ ok wire
        → accept_channel j (ok (record { content = wire ++ payload; ending = ending }))
          ≡ ok (record { request = o; unread = payload })
    unfolding accept_channel of_stream
    open_channel-accept_channel opened sent wire payload ending coded short h =
        let (valid, written) = opened-valid opened sent wire h in
        ap (λ (t : Bytes). of_stream j ending (read_line max_header_bytes (t ++ payload))) written
        ∙ ap (of_stream j ending)
            (read_line-frame max_header_bytes (j.marshal_open o) payload coded.one_line short)
        ∙ of_header-ok (j.marshal_open o ++ newline) payload o coded.read_back valid

  -- What an accepted channel is, for the line and the rest that were read.
  abbrev pub IsAccepted : Bytes → Bytes → Channel → Type 0
  IsAccepted line rest ch =
      IsLegal ch.request × (ch.unread ≡ rest) × (j.unmarshal_open line ≡ ok ch.request)

  header-IsAccepted :
      (line rest : Bytes) (ch : Channel) → of_header j line rest ≡ ok ch → IsAccepted line rest ch
  unfolding of_header
  header-IsAccepted line rest ch h = elim (Result-cases (j.unmarshal_open line)) [
    | inr (e, bad) ↦ absurd (ground arith)
    | inl (req, parsed) ↦ elim (Result-cases (validate_open req)) [
      | inr (e, bad) ↦ absurd (ground arith)
      | inl (_, valid) ↦
          let made : Channel = record { request = req; unread = rest } in
          let same : made ≡ ch = ground arith in
          subst (IsAccepted line rest) same ((validate_open-IsLegal req).0 valid, refl, parsed)
    ]
  ]

  -- Every accepted channel is legal; its request is the first line of the stream, of at most 8192
  -- bytes, and no byte behind that line is lost.
  pub accept_channel-IsLegal :
      (s : Stream) (ch : Channel)
      → accept_channel j (ok s) ≡ ok ch
      → IsLegal ch.request
        × ((line : Bytes) × ((s.content ≡ line ++ ch.unread)
              × (length line ≤ max_header_bytes)
              × (j.unmarshal_open line ≡ ok ch.request)))
  unfolding accept_channel of_stream
  accept_channel-IsLegal s ch h = elim (Result-cases (read_line max_header_bytes s.content)) [
    | inr (buffer_full, bad) ↦ absurd (ground arith)
    | inr (cut_short, bad) ↦ absurd (ground arith)
    | inl ((line, rest), read) ↦
        let found : of_stream j s.ending (ok (line, rest)) ≡ ok ch =
          subst (λ (t : Result LineError (Bytes × Bytes)). of_stream j s.ending t ≡ ok ch) read h in
        let (legal, left, parsed) = header-IsAccepted line rest ch found in
        let (whole, short) = read_line-splits max_header_bytes s.content line rest read in
        (legal, (line, (whole ∙ ap (λ (t : Bytes). line ++ t) (sym left), short, parsed)))
  ]
