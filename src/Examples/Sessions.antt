-- ===== src/Examples/Sessions.antt =====
-- The loop of cmd/agent/run.go over two sessions, the first of them cut short.
use cube_advisor_agent.Base.{
  ℕ, ◌≡◌, refl, true, false, none, some, [], ◌∷◌, List, Bytes, text, ok, bytes_beq, pos, trim_space,
  strip, space_width, space_width_rev, contains_any, sort_by, bytes_leb,
}
use cube_advisor_agent.Os.Memory.{Files, memory_os, memory_os-IsLawful, find, without, path_beq}
use cube_advisor_agent.Proto.{HelloAck}
use cube_advisor_agent.Backoff.{FlapGuard, reconnect, session_ended}
use cube_advisor_agent.Identity.{record_current_release, record_version}
use cube_advisor_agent.Identity.Origins.{record_console_origins, record_content, lines_of}
use cube_advisor_agent.Identity.OriginsFile.{IsRecorded}
use cube_advisor_agent.Command.Sessions.{Session, record_ack, serve_sessions}
use cube_advisor_agent.Command.Sessions.Recorded.{record_acks}
use cube_advisor_agent.Command.Sessions.Standing.{IsCurrent, serve_sessions-Standing}

abbrev first_ack : HelloAck
first_ack = record {
  accepted = true;
  protocol_version = pos 1;
  reason = none;
  console_origins = (text "ui", text "https://old") ∷ [];
  current_release = text "v1";
}

abbrev last_ack : HelloAck
last_ack = record {
  accepted = true;
  protocol_version = pos 1;
  reason = none;
  console_origins = (text "ui", text "https://new") ∷ [];
  current_release = text "v2";
}

abbrev same_delay : ℕ → ℕ
same_delay n = 30

abbrev session_with : HelloAck → ℕ → Session
session_with ack lifetime = record {
  cancelled = false;
  attempts =
      record { cancelled = false; session = none; slept = true }
      ∷ record { cancelled = false; session = some ack; slept = true }
      ∷ [];
  lifetime = lifetime;
  delay = same_delay;
  flap_delay = same_delay;
  slept = true;
}

abbrev two_sessions : List Session
two_sessions = session_with first_ack 5 ∷ session_with last_ack 600 ∷ []

abbrev guard_here : FlapGuard
guard_here = record { threshold = pos 60; flaps = 0 }

abbrev etc_agent : Bytes
etc_agent = text "/etc/agent"

served_here :
    (serve_sessions memory_os etc_agent guard_here two_sessions []).1.0 ≡ first_ack ∷ last_ack ∷ []
unfolding serve_sessions reconnect session_ended
served_here = refl

abbrev before_last : Files
before_last = record_acks memory_os etc_agent (first_ack ∷ []) []

abbrev after_origins : Files
after_origins = (record_console_origins memory_os etc_agent last_ack.console_origins before_last).0

abbrev after_release : Files
after_release =
    (record_current_release memory_os after_origins etc_agent last_ack.current_release).0

origins_recorded :
    record_console_origins memory_os etc_agent last_ack.console_origins before_last
    ≡ (after_origins, ok tt)
unfolding record_acks record_ack record_console_origins record_content lines_of sort_by bytes_leb
    contains_any find without path_beq bytes_beq text record_current_release record_version
    trim_space strip space_width space_width_rev
origins_recorded = refl

release_recorded :
    record_current_release memory_os after_origins etc_agent last_ack.current_release
    ≡ (after_release, ok tt)
unfolding record_acks record_ack record_console_origins record_content lines_of sort_by bytes_leb
    contains_any find without path_beq bytes_beq text record_current_release record_version
    trim_space strip space_width space_width_rev
release_recorded = refl

standing_example :
    IsRecorded memory_os memory_os-IsLawful
      (serve_sessions memory_os etc_agent guard_here two_sessions []).0
      etc_agent
      last_ack.console_origins
    × IsCurrent memory_os memory_os-IsLawful etc_agent after_origins
        (serve_sessions memory_os etc_agent guard_here two_sessions []).0
        last_ack.current_release
standing_example =
    serve_sessions-Standing memory_os memory_os-IsLawful etc_agent guard_here two_sessions []
      after_origins after_release (first_ack ∷ []) last_ack served_here origins_recorded
      release_recorded
