-- ===== src/Command/Sessions.antt =====
-- cmd/agent/run.go: the loop of run over its sessions. A round of the loop is what happens in it: whether
-- the process was told to stop before it, what connecting gave, how long the session lived, and whether
-- the sleep behind it ran to its end.
pub mod Recorded
pub mod Standing
use cube_advisor_agent.Base.{
  ℕ, Bool, true, false, not, ◌&&◌, [], ◌∷◌, List, Bytes, if◌then◌else◌, ltb,
}
use cube_advisor_agent.Os.{Os}
use cube_advisor_agent.Proto.{HelloAck}
use cube_advisor_agent.Backoff.{
  Attempt, Outcome, connected, stopped, trying, FlapGuard, reconnect, session_ended,
}
use cube_advisor_agent.Identity.{record_current_release}
use cube_advisor_agent.Identity.Origins.{record_console_origins}

pub record Session : Type 0 where
  pub cancelled : Bool
  pub attempts : List (Attempt HelloAck)
  pub lifetime : ℕ
  -- what Backoff.Delay draws while connecting, and after the session
  pub delay : ℕ → ℕ
  pub flap_delay : ℕ → ℕ
  pub slept : Bool

-- How far the loop came: it left, or it waits for what comes next.
pub data Progress : Type 0 where
  left waiting : Progress

module _ (os : Os) (dir : Bytes) where
  -- What is recorded of the service's answer before a session is served; an error is only logged.
  unfoldable pub record_ack : HelloAck → os.State → os.State
  unfolding record_console_origins record_current_release
  record_ack ack s =
      (record_current_release os (record_console_origins os dir ack.console_origins s).0 dir
        ack.current_release).0

  -- The files, the acks of the sessions that were served, and how far the loop came.
  abbrev pub Served : Type 0
  Served = os.State × (List HelloAck × Progress)

  abbrev pub also : HelloAck → Served → Served
  also ack (s, (acks, p)) = (s, (ack ∷ acks, p))

  -- What reconnecting gave: a session, with what follows it, or the end of the loop for now.
  abbrev pub on_outcome : os.State → (HelloAck → Served) → Outcome HelloAck → Served
  on_outcome s next stopped = (s, ([], left))
  on_outcome s next trying = (s, ([], waiting))
  on_outcome s next (connected ack) = next ack

  unfoldable pub serve_sessions : FlapGuard → List Session → os.State → Served
  unfolding record_ack reconnect session_ended
  serve_sessions g [] s = (s, ([], waiting))
  serve_sessions g (r ∷ rs) s =
      let ended = session_ended r.flap_delay g r.lifetime in
      let next : HelloAck → Served = λ ack.
        if ltb 0 ended.1 && not r.slept
        then (record_ack ack s, (ack ∷ [], left))
        else also ack (serve_sessions ended.0 rs (record_ack ack s)) in
      if r.cancelled then (s, ([], left)) else on_outcome s next (reconnect r.delay 0 r.attempts).1
