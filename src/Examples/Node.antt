-- ===== src/Examples/Node.antt =====
-- pkg/tunnel/backoff.go, internal/identity/currentrelease.go and cmd/agent/nodeid.go on concrete input.
use cube_advisor_agent.Base.{
  ◌+◌, ℕ, ◌*◌, ◌^◌, ◌≡◌, ◌≢◌, ◌⊎◌, refl, arith, true, false, none, some, ◌++◌, [], ◌∷◌, Bytes, text,
  ok, bytes_beq, trim_space, strip, space_width, space_width_rev, contains_any,
}
use cube_advisor_agent.Os.Memory.{Files, memory_os, memory_os-IsLawful, find, without, path_beq}
use cube_advisor_agent.Backoff.{Attempt, connected, reconnect, sessions_ended, Ended}
use cube_advisor_agent.Backoff.Waits.{schedule, guard, draws, reconnect_first, sessions_ended_waits}
use cube_advisor_agent.Identity.{record_current_release, record_version}
use cube_advisor_agent.Identity.CurrentRelease.{IsGone, Holds, record_current_release-Holds}

abbrev doubling : ℕ → ℕ
doubling n = 10 * 2 ^ n

abbrev failure : Attempt ℕ
failure = record { cancelled = false; session = none; slept = true }

abbrev success : Attempt ℕ
success = record { cancelled = false; session = some 7; slept = true }

reconnect_example :
    reconnect doubling 0 ((failure ∷ failure ∷ []) ++ success ∷ [])
    ≡ (schedule doubling 0 2, connected 7)
reconnect_example =
    reconnect_first doubling (failure ∷ failure ∷ []) success [] 7
      ((refl, refl, refl), ((refl, refl, refl), tt)) refl refl

-- The jitter adds so much to every delay that is drawn.
abbrev lived : ℕ → ℕ → Ended
lived lifetime jitter = record { lifetime = lifetime; delay = λ n. doubling n + jitter }

sessions_ended_example :
    sessions_ended (guard 30 0) ((lived 1 0 ∷ lived 2 1 ∷ []) ++ lived 40 0 ∷ lived 3 1 ∷ [])
    ≡ draws 0 (lived 1 0 ∷ lived 2 1 ∷ []) ++ 0 ∷ sessions_ended (guard 30 0) (lived 3 1 ∷ [])
sessions_ended_example =
    sessions_ended_waits 30 0 (lived 1 0 ∷ lived 2 1 ∷ []) (lived 40 0) (lived 3 1 ∷ [])
      (omega arith, (omega arith, tt)) (omega arith)

abbrev identity_dir : Bytes
identity_dir = text "/etc/agent"

abbrev after_record : Files
after_record = (record_current_release memory_os [] identity_dir (text " v1.2.0")).0

recorded : record_current_release memory_os [] identity_dir (text " v1.2.0") ≡ (after_record, ok tt)
unfolding record_current_release record_version find without path_beq bytes_beq text trim_space
    strip space_width space_width_rev contains_any
recorded = refl

record_current_release_example :
    ((trim_space (text " v1.2.0") ≡ [])
      × IsGone memory_os memory_os-IsLawful identity_dir [] after_record)
    ⊎ ((trim_space (text " v1.2.0") ≢ [])
        × Holds memory_os memory_os-IsLawful identity_dir [] after_record
            (trim_space (text " v1.2.0")))
record_current_release_example =
    record_current_release-Holds memory_os memory_os-IsLawful identity_dir [] after_record
      (text " v1.2.0") recorded
