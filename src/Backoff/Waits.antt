-- ===== src/Backoff/Waits.antt =====
-- The waits follow the schedule.
use cube_advisor_agent.Base.{
  ℕ, zero, suc, ◌+◌, ◌<◌, ◌≤◌, Bool-cases, ◌≡◌, inl, inr, refl, true, false, ◌++◌, [], ◌∷◌, List,
  none, some, arith, leb, pos, is_pos, All, length,
}
use cube_advisor_agent.Backoff.{
  Attempt, connected, reconnect, FlapGuard, Ended, session_ended, sessions_ended,
}

abbrev pub guard : ℕ → ℕ → FlapGuard
guard threshold n = record { threshold = pos threshold; flaps = n }

module _ (delay : ℕ → ℕ) where
  -- So many delays of the schedule, from a number on.
  abbrev pub schedule : ℕ → ℕ → List ℕ
  schedule n zero = []
  schedule n (suc k) = delay n ∷ schedule (suc n) k

  module _ {S : Type 0} where
    -- A turn that failed and was slept off.
    abbrev pub IsRetried : Attempt S → Type 0
    IsRetried a = (a.cancelled ≡ false) × (a.session ≡ none) × (a.slept ≡ true)

    reconnect-from :
        (n : ℕ) (failures : List (Attempt S)) (a : Attempt S) (later : List (Attempt S)) (s : S)
        → All IsRetried failures
        → a.cancelled ≡ false
        → a.session ≡ some s
        → reconnect delay n (failures ++ a ∷ later) ≡ (schedule n (length failures), connected s)
    unfolding reconnect
    reconnect-from n [] a later s h going found = rw (going, found) refl
    reconnect-from n (f ∷ failures) a later s ((alive, failed, woke), h) going found =
        rw (alive, failed, woke, reconnect-from (suc n) failures a later s h going found) refl

    -- Reconnect returns the first session that connecting gives, after the delays of the schedule from
    -- its start on, one for each failure before it.
    pub reconnect_first :
        (failures : List (Attempt S)) (a : Attempt S) (later : List (Attempt S)) (s : S)
        → All IsRetried failures
        → a.cancelled ≡ false
        → a.session ≡ some s
        → reconnect delay 0 (failures ++ a ∷ later) ≡ (schedule 0 (length failures), connected s)
    reconnect_first failures a later s h going found =
        reconnect-from 0 failures a later s h going found

  module _ (threshold : ℕ) where
    session_young :
        (n l : ℕ)
        → l < threshold
        → session_ended delay (guard threshold n) l ≡ (guard threshold (suc n), delay n)
    unfolding session_ended
    session_young n l young =
        let positive : is_pos (pos threshold) ≡ true = ground arith in
        let under : leb threshold l ≡ false = ground arith in
        let next : n + 1 ≡ suc n = omega arith in rw (positive, under, next) refl

    session_old :
        (n l : ℕ)
        → threshold ≤ l
        → session_ended delay (guard threshold n) l ≡ (guard threshold 0, 0)
    unfolding session_ended
    session_old n l old =
        let over : leb threshold l ≡ true = ground arith in
        elim (Bool-cases (is_pos (pos threshold))) [
          | inl e ↦ rw (e, over) refl
          | inr e ↦ rw (e, session_ended) refl
        ]

-- What is drawn after each of the sessions, for consecutive numbers.
pub draws : ℕ → List Ended → List ℕ
draws n [] = []
draws n (r ∷ rs) = r.delay n ∷ draws (suc n) rs

-- Sessions that die young wait the delays that are drawn for consecutive numbers; one that lives past
-- the threshold waits nothing, and the numbers begin again after it.
pub sessions_ended_waits :
    (threshold n : ℕ) (young : List Ended) (old : Ended) (later : List Ended)
    → All (λ r. r.lifetime < threshold) young
    → threshold ≤ old.lifetime
    → sessions_ended (guard threshold n) (young ++ old ∷ later)
      ≡ draws n young ++ 0 ∷ sessions_ended (guard threshold 0) later
unfolding sessions_ended draws
sessions_ended_waits threshold n [] old later h lived =
    rw (session_old old.delay threshold n old.lifetime lived) refl
sessions_ended_waits threshold n (r ∷ young) old later (died, h) lived =
    rw
      (
        session_young r.delay threshold n r.lifetime died,
        sessions_ended_waits threshold (suc n) young old later h lived,
      )
      refl
