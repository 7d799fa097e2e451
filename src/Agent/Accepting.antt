-- ===== src/Agent/Accepting.antt =====
-- Serve's loop over the returns of AcceptChannel.
use cube_advisor_agent.Base.{
  ℕ, suc, ◌+◌, ◌≤◌, ◌<◌, ◌≡◌, ◌⊎◌, inl, inr, refl, ap, ◌∙◌, true, false, not, ◌||◌, ◌++◌, [], ◌∷◌,
  List, arith, Bytes, leb, All, Bool-cases,
}
use cube_advisor_agent.Tunnel.{TunnelError, Channel}
use cube_advisor_agent.Agent.{
  Event, opened, failed, serving, gave_up, serve, is_session_over, max_consecutive_accept_errors,
}

-- The channels among the events, in order.
abbrev pub channels : List Event → List Channel
channels [] = []
channels (opened ch ∷ es) = ch ∷ channels es
channels (failed e cancelled slept ∷ es) = channels es

-- How many events at the front are failures.
abbrev pub leading : List Event → ℕ
leading [] = 0
leading (opened ch ∷ es) = 0
leading (failed e cancelled slept ∷ es) = suc (leading es)

module _ (error_text : TunnelError → Bytes) where
  -- A failure of one channel only: the session lives, ctx lives, and the pause ran to its end.
  abbrev pub IsPassing : Event → Type 0
  IsPassing (opened ch) = Unit
  IsPassing (failed e cancelled slept) =
      (is_session_over error_text e ≡ false) × (cancelled ≡ false) × (slept ≡ true)

  -- No ten failures in a row, from anywhere on.
  abbrev pub IsCalm : List Event → Type 0
  IsCalm [] = Unit
  IsCalm (e ∷ es) = (leading (e ∷ es) < max_consecutive_accept_errors) × IsCalm es

  IsCalm-leading : (es : List Event) → IsCalm es → leading es < max_consecutive_accept_errors
  IsCalm-leading [] calm = ground arith
  IsCalm-leading (opened ch ∷ es) calm = ground arith
  IsCalm-leading (failed e cancelled slept ∷ es) (few, calm) = few

  serve-from :
      (n : ℕ) (es : List Event)
      → All IsPassing es
      → IsCalm es
      → n + leading es < max_consecutive_accept_errors
      → serve error_text n es ≡ (channels es, serving)
  unfolding serve
  serve-from n [] passing calm few = refl
  serve-from n (opened ch ∷ es) (_, passing) (_, calm) few =
      rw (serve-from 0 es passing calm (ground (arith, IsCalm-leading es calm))) refl
  serve-from n (failed e cancelled slept ∷ es) ((alive, going, woke), passing) (_, calm) few =
      let under : leb max_consecutive_accept_errors (suc n) ≡ false = ground arith in
      rw (alive, going, woke, under, serve-from (suc n) es passing calm (ground arith)) refl

  -- Bad opens are survived: as long as failures are of one channel only and no ten of them come in a
  -- row, Serve goes on, and it has handled every channel that opened, in order.
  pub serve_keeps_serving :
      (es : List Event)
      → All IsPassing es
      → IsCalm es
      → serve error_text 0 es ≡ (channels es, serving)
  serve_keeps_serving es passing calm =
      serve-from 0 es passing calm (ground (arith, IsCalm-leading es calm))

  -- Where Serve gave up: the events before the failures that ended it, or that with the count it began
  -- with ended it.
  pub record GaveUp (n : ℕ) (es : List Event) (handled : List Channel) (k : ℕ) : Type 0 where
    pub before : List Event
    pub rest : List Event
    pub split : es ≡ before ++ rest
    pub done : handled ≡ channels before
    pub count : k ≡ max_consecutive_accept_errors
    pub streak :
        (max_consecutive_accept_errors ≤ leading rest)
        ⊎ ((before ≡ []) × (max_consecutive_accept_errors ≤ n + leading rest))

  gave_up-from :
      (n : ℕ) (es : List Event) (handled : List Channel) (k : ℕ) (e : TunnelError)
      → n < max_consecutive_accept_errors
      → serve error_text n es ≡ (handled, gave_up k e)
      → GaveUp n es handled k
  unfolding serve
  gave_up-from n [] handled k e low h = absurd (ground arith)
  gave_up-from n (opened ch ∷ es) handled k e low h =
      let inner : serve error_text 0 es ≡ ((serve error_text 0 es).0, gave_up k e) = ground arith in
      let r : GaveUp 0 es (serve error_text 0 es).0 k =
        gave_up-from 0 es (serve error_text 0 es).0 k e (ground arith) inner in
      record {
        before = opened ch ∷ r.before;
        rest = r.rest;
        split = ap (λ (l : List Event). opened ch ∷ l) r.split;
        done = ground (arith, r.done);
        count = r.count;
        streak = inl (ground (arith, r.streak));
      }
  gave_up-from n (failed why cancelled slept ∷ es) handled k e low h =
      elim (Bool-cases (is_session_over error_text why || cancelled)) [
        | inl over ↦ absurd (ground arith)
        | inr alive ↦ elim (Bool-cases (leb max_consecutive_accept_errors (suc n))) [
          | inl full ↦ record {
            before = [];
            rest = failed why cancelled slept ∷ es;
            split = refl;
            done = ground arith;
            count = ground arith;
            streak = inr (refl, ground arith);
          }
          | inr under ↦ elim (Bool-cases (not slept)) [
            | inl cut ↦ absurd (ground arith)
            | inr slept_out ↦
                let same : serve error_text (suc n) es ≡ (handled, gave_up k e) = ground arith in
                let r : GaveUp (suc n) es handled k =
                  gave_up-from (suc n) es handled k e (ground arith) same in
                elim r.streak [
                  | inl long ↦ record {
                    before = failed why cancelled slept ∷ r.before;
                    rest = r.rest;
                    split = ap (λ (l : List Event). failed why cancelled slept ∷ l) r.split;
                    done = r.done;
                    count = r.count;
                    streak = inl long;
                  }
                  | inr (none_before, long) ↦ record {
                    before = [];
                    rest = failed why cancelled slept ∷ es;
                    split = refl;
                    done = r.done ∙ ap channels none_before;
                    count = r.count;
                    streak = inr (refl, ground (arith, r.split, none_before, long));
                  }
                ]
          ]
        ]
      ]

  -- Serve gives up only after ten failures in a row, and has then handled every channel that opened
  -- before them, in order.
  pub serve_gives_up :
      (es : List Event) (handled : List Channel) (k : ℕ) (e : TunnelError)
      → serve error_text 0 es ≡ (handled, gave_up k e)
      → (k ≡ max_consecutive_accept_errors)
        × ((before : List Event) × ((rest : List Event) × ((es ≡ before ++ rest)
                × (handled ≡ channels before)
                × (max_consecutive_accept_errors ≤ leading rest))))
  serve_gives_up es handled k e h =
      let r : GaveUp 0 es handled k = gave_up-from 0 es handled k e (ground arith) h in
      (r.count, (r.before, (r.rest, (r.split, r.done, ground (arith, r.streak)))))
