-- ===== src/Command/Sessions/Recorded.antt =====
-- What the files say of the service after any number of sessions.
use cube_advisor_agent.Base.{
  ◌≡◌, refl, Bool, true, false, not, ◌&&◌, ◌++◌, [], ◌∷◌, List, Bytes, ltb, if◌then◌else◌,
}
use cube_advisor_agent.Os.{Os}
use cube_advisor_agent.Proto.{HelloAck}
use cube_advisor_agent.Backoff.{
  Outcome, connected, stopped, trying, FlapGuard, reconnect, session_ended,
}
use cube_advisor_agent.Command.Sessions.{
  Session, left, record_ack, Served, also, on_outcome, serve_sessions,
}

module _ (os : Os) (dir : Bytes) where
  -- The records of the acks, one after the other.
  unfoldable pub record_acks : List HelloAck → os.State → os.State
  unfolding record_ack
  record_acks [] s = s
  record_acks (ack ∷ acks) s = record_acks acks (record_ack os dir ack s)

  abbrev Good : os.State → Served os dir → Type 0
  Good s x = x.0 ≡ record_acks x.1.0 s

  also-Good :
      (s : os.State) (ack : HelloAck) (x : Served os dir)
      → Good (record_ack os dir ack s) x
      → Good s (also os dir ack x)
  unfolding record_acks
  also-Good s ack (t, (acks, p)) h = h

  on_outcome-Good :
      (s : os.State) (next : HelloAck → Served os dir) (o : Outcome HelloAck)
      → ((ack : HelloAck) → Good s (next ack))
      → Good s (on_outcome os dir s next o)
  unfolding record_acks
  on_outcome-Good s next stopped h = refl
  on_outcome-Good s next trying h = refl
  on_outcome-Good s next (connected ack) h = h ack

  Good-if :
      (s : os.State) (b : Bool) (x y : Served os dir)
      → Good s x
      → Good s y
      → Good s (if b then x else y)
  Good-if s true x y h k = h
  Good-if s false x y h k = k

  -- The files after the loop are those that the records of the served sessions leave, in their order:
  -- reconnecting, serving and waiting change none.
  pub serve_sessions-record_acks :
      (g : FlapGuard) (rs : List Session) (s : os.State) → Good s (serve_sessions os dir g rs s)
  unfolding serve_sessions record_acks
  serve_sessions-record_acks g [] s = refl
  serve_sessions-record_acks g (r ∷ rs) s =
      let ended = session_ended r.flap_delay g r.lifetime in
      let out = (reconnect r.delay 0 r.attempts).1 in
      let rest : HelloAck → Served os dir =
        λ ack. serve_sessions os dir ended.0 rs (record_ack os dir ack s) in
      let stop : HelloAck → Served os dir = λ ack. (record_ack os dir ack s, (ack ∷ [], left)) in
      let next : HelloAck → Served os dir =
        λ ack. if ltb 0 ended.1 && not r.slept then stop ack else also os dir ack (rest ack) in
      Good-if s r.cancelled (s, ([], left)) (on_outcome os dir s next out) refl
        (on_outcome-Good s next out (λ ack.
          Good-if s (ltb 0 ended.1 && not r.slept) (stop ack) (also os dir ack (rest ack)) refl (
            also-Good s ack (rest ack)
              (serve_sessions-record_acks ended.0 rs (record_ack os dir ack s)))))

  pub record_acks-append :
      (acks : List HelloAck) (ack : HelloAck) (s : os.State)
      → record_acks (acks ++ ack ∷ []) s ≡ record_ack os dir ack (record_acks acks s)
  unfolding record_acks
  record_acks-append [] ack s = refl
  record_acks-append (a ∷ acks) ack s = record_acks-append acks ack (record_ack os dir a s)
