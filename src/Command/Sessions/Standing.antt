-- ===== src/Command/Sessions/Standing.antt =====
-- What the node's tools find in the files of run's loop over its sessions.
use cube_advisor_agent.Base.{
  ◌≡◌, ◌≢◌, ◌⊎◌, inl, inr, sym, ap, ◌∙◌, ◌++◌, [], ◌∷◌, List, Bytes, ok, trim_space,
}
use mathlib.Core.Path.{subst}
use cube_advisor_agent.Os.{Os, IsLawful}
use cube_advisor_agent.Proto.{HelloAck}
use cube_advisor_agent.Backoff.{FlapGuard}
use cube_advisor_agent.Identity.{record_current_release}
use cube_advisor_agent.Identity.Kept.{version-keep}
use cube_advisor_agent.Identity.CurrentRelease.{Holds, IsGone, record_current_release-Holds}
use cube_advisor_agent.Identity.Origins.{record_console_origins}
use cube_advisor_agent.Identity.OriginsFile.{IsRecorded, record_console_origins-IsRecorded}
use cube_advisor_agent.Command.Sessions.{Session, record_ack, serve_sessions}
use cube_advisor_agent.Command.Sessions.Recorded.{
  record_acks, serve_sessions-record_acks, record_acks-append,
}

module _ (os : Os) (lawful : IsLawful os) (dir : Bytes) where
  -- The file of the current release as the last ack leaves it.
  abbrev pub IsCurrent : os.State → os.State → Bytes → Type 0
  IsCurrent u t version =
      ((trim_space version ≡ []) × IsGone os lawful dir u t)
      ⊎ ((trim_space version ≢ []) × Holds os lawful dir u t (trim_space version))

  ack-Standing :
      (s u t : os.State) (ack : HelloAck)
      → record_console_origins os dir ack.console_origins s ≡ (u, ok tt)
      → record_current_release os u dir ack.current_release ≡ (t, ok tt)
      → IsRecorded os lawful t dir ack.console_origins × IsCurrent u t ack.current_release
  unfolding record_current_release
  ack-Standing s u t ack h k =
      let kept = version-keep os lawful dir u t (trim_space ack.current_release) k in
      let recorded = record_console_origins-IsRecorded os lawful s u dir ack.console_origins h in
      (
        elim recorded [
          | inl (none_sent, gone) ↦ inl (none_sent, kept ∙ gone)
          | inr (some_sent, (content, (shown, sorted))) ↦
              inr (some_sent, (content, (kept ∙ shown, sorted)))
        ],
        record_current_release-Holds os lawful dir u t ack.current_release k,
      )

  -- However many sessions run has served, and however they ended: when both records of the last ack
  -- reported success on a lawful file system, the files that the loop leaves are as that ack says,
  -- whatever the acks before it recorded or failed to record. The lines of one file are its console
  -- origins, sorted (with none, the file is gone); the other holds its release (where that is blank, the
  -- file is gone or was reported missing).
  pub serve_sessions-Standing :
      (g : FlapGuard) (rs : List Session) (s u t : os.State) (acks : List HelloAck) (ack : HelloAck)
      → (serve_sessions os dir g rs s).1.0 ≡ acks ++ ack ∷ []
      → record_console_origins os dir ack.console_origins (record_acks os dir acks s) ≡ (u, ok tt)
      → record_current_release os u dir ack.current_release ≡ (t, ok tt)
      → IsRecorded os lawful (serve_sessions os dir g rs s).0 dir ack.console_origins
        × IsCurrent u (serve_sessions os dir g rs s).0 ack.current_release
  unfolding record_ack
  serve_sessions-Standing g rs s u t acks ack served h k =
      let before = record_acks os dir acks s in
      let first : (record_console_origins os dir ack.console_origins before).0 ≡ u =
        ap (λ r. r.0) h in
      let last : record_ack os dir ack before ≡ t =
        ap (λ (x : os.State). (record_current_release os x dir ack.current_release).0) first
        ∙ ap (λ r. r.0) k in
      let left : (serve_sessions os dir g rs s).0 ≡ t =
        serve_sessions-record_acks os dir g rs s
        ∙ ap (λ (l : List HelloAck). record_acks os dir l s) served
        ∙ record_acks-append os dir acks ack s
        ∙ last in
      subst
        (λ (x : os.State).
          IsRecorded os lawful x dir ack.console_origins × IsCurrent u x ack.current_release)
        (sym left) (ack-Standing before u t ack h k)
