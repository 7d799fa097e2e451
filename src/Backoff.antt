-- ===== src/Backoff.antt =====
-- pkg/tunnel/backoff.go: the loops over the schedule of delays. Backoff.Delay computes with floating-point
-- numbers and is a parameter, as are connecting and sleeping.
pub mod Waits
use cube_advisor_agent.Base.{
  ℕ, zero, suc, ◌+◌, Bool, true, false, not, ◌||◌, ◌++◌, [], ◌∷◌, List, Option, none, some,
  if◌then◌else◌, leb, ℤ, is_pos, to_nat,
}

-- One turn of the loop: whether ctx had ended before it, what connecting gave, and whether the sleep
-- after a failure ran to its end.
pub record Attempt (S : Type 0) : Type 0 where
  pub cancelled : Bool
  pub session : Option S
  pub slept : Bool

pub data Outcome (S : Type 0) : Type 0 where
  connected : S → Outcome S
  stopped trying : Outcome S

-- FlapGuard: its threshold, and the flaps in a row.
pub record FlapGuard : Type 0 where
  pub threshold : ℤ
  pub flaps : ℕ

module _ (delay : ℕ → ℕ) where
  module _ {S : Type 0} where
    -- Reconnect, from the attempt of a number on: the delays that it slept, and its outcome.
    unfoldable pub reconnect : ℕ → List (Attempt S) → List ℕ × Outcome S
    reconnect n [] = ([], trying)
    reconnect n (a ∷ attempts) =
        let (waits, out) = reconnect (suc n) attempts in
        if a.cancelled then ([], stopped) else elim a.session [
          | some s ↦ ([], connected s)
          | none ↦ if not a.slept then (delay n ∷ [], stopped) else (delay n ∷ waits, out)
        ]

  unfoldable pub session_ended : FlapGuard → ℕ → FlapGuard × ℕ
  session_ended g lifetime =
      if not (is_pos g.threshold) || leb (to_nat g.threshold) lifetime
      then (record g { flaps = 0 }, 0)
      else (record g { flaps = g.flaps + 1 }, delay g.flaps)

-- How long a session lived, and what Backoff.Delay draws for the numbers when it has ended.
pub record Ended : Type 0 where
  pub lifetime : ℕ
  pub delay : ℕ → ℕ

-- The waits after a row of sessions.
unfoldable pub sessions_ended : FlapGuard → List Ended → List ℕ
unfolding session_ended
sessions_ended g [] = []
sessions_ended g (r ∷ rs) =
    let (after, wait) = session_ended r.delay g r.lifetime in wait ∷ sessions_ended after rs
