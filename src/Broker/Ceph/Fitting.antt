-- ===== src/Broker/Ceph/Fitting.antt =====
-- Which commands of the table fit the words best: the loop of CheckCephArgs.
use mathlib.Core.List.{concat-ne-nil}
use cube_advisor_agent.Base.{
  ℕ, suc, ◌+◌, ◌≤◌, ◌<◌, ◌≡◌, ◌≢◌, ◌↔◌, ◌⊎◌, inl, inr, refl, true, Bool, ◌++◌, [], ◌∷◌, List, some,
  arith, Bytes, bytes_eq, bytes_beq_iff, All, In, All-of_In, All-append, All-mono, All-append_inv,
  In-append, ltb→lt, ◌&&◌, ◌∙◌, sym, length, Bool-cases, Option-cases, ltb, if◌then◌else◌, ◌==◌,
  nat_eq,
}
use cube_advisor_agent.Broker.Ceph.{CephCommand, score_from, fit, best_of}

-- A signature admits the words: each literal stands at its place, and no word is left over but for a
-- last parameter that takes any number.
abbrev pub Matches : List Bytes → List Bytes → Bool → Type 0
Matches [] [] rest = Unit
Matches [] (w ∷ ws) rest = rest ≡ true
Matches (lit ∷ sig) [] rest = (lit ≡ []) × Matches sig [] rest
Matches (lit ∷ sig) (w ∷ ws) rest = ((lit ≡ []) ⊎ (w ≡ lit)) × Matches sig ws rest

-- The number of literals among the positions that have a word.
abbrev pub literals : List Bytes → List Bytes → ℕ
literals [] ws = 0
literals (lit ∷ sig) [] = 0
literals (lit ∷ sig) (w ∷ ws) = if lit == [] then literals sig ws else suc (literals sig ws)

literals_of_none : (sig : List Bytes) → literals sig [] ≡ 0
literals_of_none [] = refl
literals_of_none (lit ∷ sig) = refl

score_from_iff :
    (sig words : List Bytes) (score n : ℕ)
    → (score_from sig words score ≡ some n)
      ↔ (Matches sig words true × (n ≡ score + literals sig words))
unfolding score_from
score_from_iff [] [] score n = ground arith
score_from_iff [] (w ∷ ws) score n = ground arith
score_from_iff (lit ∷ sig) [] score n =
    ground (arith, score_from_iff sig [] score n, bytes_beq_iff lit [], literals_of_none sig)
score_from_iff (lit ∷ sig) (w ∷ ws) score n = ground (
  arith,
  score_from_iff sig ws score n,
  score_from_iff sig ws (suc score) n,
  bytes_beq_iff lit [],
  bytes_beq_iff w lit,
)

-- No words are left over, or the last parameter takes them.
Matches-iff :
    (sig words : List Bytes) (rest : Bool)
    → Matches sig words rest
      ↔ (Matches sig words true × ((rest ≡ true) ⊎ (length words ≤ length sig)))
Matches-iff [] [] rest = ground arith
Matches-iff [] (w ∷ ws) rest = ground arith
Matches-iff (lit ∷ sig) [] rest = ground (arith, Matches-iff sig [] rest)
Matches-iff (lit ∷ sig) (w ∷ ws) rest = ground (arith, Matches-iff sig ws rest)

-- The score of a command is positive exactly if its signature matches the words with a literal among
-- them, and is then the number of those literals.
pub fit_iff :
    (c : CephCommand) (words : List Bytes) (n : ℕ)
    → (fit c words ≡ suc n) ↔ (Matches c.sig words c.rest × (literals c.sig words ≡ suc n))
unfolding fit
fit_iff c words n = ground (
  arith,
  score_from_iff c.sig words 0 (suc n),
  score_from_iff c.sig words 0 (literals c.sig words),
  Matches-iff c.sig words c.rest,
  Option-cases (score_from c.sig words 0),
)

module _ (words : List Bytes) where
  -- What the loop over the table leaves, from the commands and the score that it starts with.
  pub record BestOf (table best : List CephCommand) (score : ℕ) (chosen : List CephCommand)
      : Type 0 where
    pub top : ℕ
    pub above : score ≤ top
    pub bound : All (λ c. fit c words ≤ top) table
    pub exact : All (λ c. fit c words ≡ top) chosen
    pub given : score ≡ top → All (λ c. In c chosen) best
    pub gathered : 0 < top → All (λ c. fit c words ≡ top → In c chosen) table
    pub origin : All (λ c. In c table ⊎ In c best) chosen
    pub positive : All (λ c. 0 < fit c words) best → All (λ c. 0 < fit c words) chosen
    pub some_one : 0 < top → (0 < score → best ≢ []) → chosen ≢ []

  module _ (c : CephCommand) (table best chosen : List CephCommand) (score : ℕ) where
    -- A command that fits better takes the place of all before it.
    better :
        score < fit c words
        → BestOf table (c ∷ []) (fit c words) chosen
        → BestOf (c ∷ table) best score chosen
    better lt b = record {
      top = b.top;
      above = omega (arith, b.above);
      bound = (b.above, b.bound);
      exact = b.exact;
      given = λ e. absurd (omega (arith, b.above));
      gathered = λ p. ((λ e. (b.given e).0), b.gathered p);
      origin = All-mono _ _ moved chosen b.origin;
      positive = λ p. b.positive (omega arith, tt);
      some_one = λ p k. b.some_one p (λ q e. cc);
    }
      where
        moved : (d : CephCommand) → In d table ⊎ In d (c ∷ []) → In d (c ∷ table) ⊎ In d best
        moved d (inl m) = inl (inr m)
        moved d (inr (inl e)) = inl (inl e)
        moved d (inr (inr m)) = absurd m

    -- A command that fits as well joins them.
    as_good :
        0 < fit c words
        → fit c words ≡ score
        → BestOf table (best ++ c ∷ []) score chosen
        → BestOf (c ∷ table) best score chosen
    as_good pos same b = record {
      top = b.top;
      above = b.above;
      bound = (omega (arith, b.above), b.bound);
      exact = b.exact;
      given = λ e. (All-append_inv _ best (c ∷ []) (b.given e)).0;
      gathered =
          λ p. ((λ e. (All-append_inv _ best (c ∷ []) (b.given (sym same ∙ e))).1.0), b.gathered p);
      origin = All-mono _ _ moved chosen b.origin;
      positive = λ p. b.positive (All-append _ best (c ∷ []) p (pos, tt));
      some_one = λ p k. b.some_one p (λ q e. concat-ne-nil c best e);
    }
      where
        moved :
            (d : CephCommand) → In d table ⊎ In d (best ++ c ∷ []) → In d (c ∷ table) ⊎ In d best
        moved d (inl m) = inl (inr m)
        moved d (inr m) = elim (In-append d best (c ∷ []) m) [
          | inl old ↦ inr old
          | inr (inl e) ↦ inl (inl e)
          | inr (inr no_more) ↦ absurd no_more
        ]

    -- Any other is passed over.
    worse :
        fit c words ≤ score
        → (0 < fit c words → fit c words ≢ score)
        → BestOf table best score chosen
        → BestOf (c ∷ table) best score chosen
    worse le other b = record {
      top = b.top;
      above = b.above;
      bound = (omega (arith, b.above), b.bound);
      exact = b.exact;
      given = b.given;
      gathered = λ p. ((λ e. absurd (other (omega arith) (omega (arith, b.above)))), b.gathered p);
      origin = All-mono _ _ moved chosen b.origin;
      positive = b.positive;
      some_one = b.some_one;
    }
      where
        moved : (d : CephCommand) → In d table ⊎ In d best → In d (c ∷ table) ⊎ In d best
        moved d (inl m) = inl (inr m)
        moved d (inr m) = inr m

  pub best_of-BestOf :
      (table best : List CephCommand) (score : ℕ)
      → All (λ c. fit c words ≡ score) best
      → BestOf table best score (best_of table words best score)
  unfolding best_of
  best_of-BestOf [] best score h = record {
    top = score;
    above = omega arith;
    bound = tt;
    exact = h;
    given = λ _. All-of_In _ best (λ c m. m);
    gathered = λ _. tt;
    origin = All-of_In _ best (λ c m. inr m);
    positive = λ p. p;
    some_one = λ p k. k p;
  }
  best_of-BestOf (c ∷ table) best score h = elim (Bool-cases (ltb score (fit c words))) [
    | inl more ↦ rw more (
        better c table best _ score (ltb→lt score (fit c words) more)
          (best_of-BestOf table (c ∷ []) (fit c words) (refl, tt)))
    | inr fits ↦ rw fits (elim (Bool-cases (ltb 0 (fit c words) && fit c words == score)) [
      | inl joins ↦ rw joins (
          as_good c table best _ score (ground arith) (ground arith) (
            best_of-BestOf table (best ++ c ∷ []) score
              (All-append _ best (c ∷ []) h (ground arith, tt))))
      | inr passed ↦ rw passed (
          worse c table best _ score (ground arith) (λ p e. ground arith)
            (best_of-BestOf table best score h))
    ])
  ]
