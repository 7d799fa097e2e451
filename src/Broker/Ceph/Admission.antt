-- ===== src/Broker/Ceph/Admission.antt =====
-- CheckCephArgs lets a command run only on the word of Ceph's own table.
use cube_advisor_agent.Base.{
  ◌≤◌, ◌<◌, ◌≡◌, ◌≢◌, ◌↔◌, ◌⊎◌, inl, inr, refl, true, [], ◌∷◌, List, none, arith, Bytes, text,
  bytes_eq, bytes_beq_iff, ok, All, Any, In, All-of_In, All-mono, All-In, In-of_Any, Any-of_In,
  bind-eq-ok, Option-cases, nat_eq,
}
use cube_advisor_agent.Broker.Ceph.{
  CephCommand, strip_format, fit, best_of, first_not_read, judge, is_pg_query, check_words,
  check_ceph_args,
}
use cube_advisor_agent.Broker.Ceph.Fitting.{BestOf, best_of-BestOf}

first_not_read-none_iff :
    (cs : List CephCommand) → (first_not_read cs ≡ none) ↔ All (λ c. c.perm ≡ text "r") cs
unfolding first_not_read
first_not_read-none_iff [] = (λ _. tt, λ _. refl)
first_not_read-none_iff (c ∷ cs) =
    ground (arith, first_not_read-none_iff cs, bytes_beq_iff c.perm (text "r"))

judge_iff :
    (words : List Bytes) (cs : List CephCommand)
    → (judge words cs ≡ ok tt) ↔ ((cs ≢ []) × All (λ c. c.perm ≡ text "r") cs)
unfolding judge
judge_iff words [] = ground arith
judge_iff words (c ∷ cs) =
    ground (arith, first_not_read-none_iff (c ∷ cs), Option-cases (first_not_read (c ∷ cs)))

-- The words are a command of the table, and every entry that fits them best is marked "r".
pub record IsReadOnly (table : List CephCommand) (words : List Bytes) : Type 0 where
  pub known : Any (λ c. 0 < fit c words) table
  pub reads :
      All
        (λ c. 0 < fit c words → All (λ d. fit d words ≤ fit c words) table → c.perm ≡ text "r")
        table

a_member : (cs : List CephCommand) → cs ≢ [] → (c : CephCommand) × In c cs
a_member [] h = absurd (h refl)
a_member (c ∷ cs) h = (c, inl refl)

module _ (table : List CephCommand) (words : List Bytes) where
  chosen_lem : BestOf words table [] 0 (best_of table words [] 0)
  chosen_lem = best_of-BestOf words table [] 0 tt

  from_table : (c : CephCommand) → In c (best_of table words [] 0) → In c table
  from_table c m = elim (All-In _ _ chosen_lem.origin c m) [ inl h ↦ h | inr h ↦ absurd h ]

  judged-IsReadOnly :
      (best_of table words [] 0 ≢ []) × All (λ c. c.perm ≡ text "r") (best_of table words [] 0)
      → IsReadOnly table words
  judged-IsReadOnly (found, reads) =
      let (c, m) = a_member (best_of table words [] 0) found in
      record {
        known = Any-of_In _ c table (All-In _ _ (chosen_lem.positive tt) c m) (from_table c m);
        reads = All-of_In _ table (λ d n pos most. All-In _ _ reads d (
            All-In _ table
              (chosen_lem.gathered (omega (arith, All-In _ table chosen_lem.bound d n))) d n
              (omega (
                arith,
                All-In _ table chosen_lem.bound d n,
                All-In _ table most c (from_table c m),
                All-In _ _ chosen_lem.exact c m,
              ))));
      }

  IsReadOnly-judged :
      IsReadOnly table words
      → (best_of table words [] 0 ≢ []) × All (λ c. c.perm ≡ text "r") (best_of table words [] 0)
  IsReadOnly-judged r =
      let (c, m, p) = In-of_Any _ table r.known in
      let le : fit c words ≤ chosen_lem.top = All-In _ table chosen_lem.bound c m in
      let pos : 0 < chosen_lem.top = omega arith in
      (
        chosen_lem.some_one pos (λ q. absurd (omega arith)),
        All-of_In _ _ (λ d n.
            let e : fit d words ≡ chosen_lem.top = All-In _ _ chosen_lem.exact d n in
            All-In _ table r.reads d (from_table d n) (omega arith)
              (All-mono _ _ (λ b le'. omega arith) table chosen_lem.bound)),
      )

check_words_iff :
    (table : List CephCommand) (words : List Bytes)
    → (check_words table words ≡ ok tt)
      ↔ ((words ≢ []) × ((is_pg_query words ≡ true) ⊎ IsReadOnly table words))
unfolding check_words
check_words_iff table [] = ground arith
check_words_iff table (w ∷ ws) = ground (
  arith,
  judge_iff (w ∷ ws) (best_of table (w ∷ ws) [] 0),
  judged-IsReadOnly table (w ∷ ws),
  IsReadOnly-judged table (w ∷ ws),
)

-- CheckCephArgs admits a command exactly if, with the format options taken out, words are left that
-- are one of the two reads of a placement group, or a command that Ceph's table marks as a read.
pub check_ceph_args_iff :
    (table : List CephCommand) (args : List Bytes)
    → (check_ceph_args table args ≡ ok tt) ↔ (
        (words : List Bytes) × (strip_format args ≡ ok words)
        × (words ≢ [])
        × ((is_pg_query words ≡ true) ⊎ IsReadOnly table words))
unfolding check_ceph_args
check_ceph_args_iff table args = (
  λ h.
      let (words, good, passed) = bind-eq-ok (strip_format args) (check_words table) h in
      let (some_word, reads) = (check_words_iff table words).0 passed in
      (words, good, some_word, reads),
  λ (words, good, some_word, reads).
      rw (good, check_ceph_args) ((check_words_iff table words).1 (some_word, reads)),
)
