-- ===== src/Broker/CephServer/Serving.antt =====
-- What the Ceph broker runs.
use cube_advisor_agent.Base.{
  ◌≡◌, ◌⊎◌, inl, inr, refl, false, not, [], ◌∷◌, List, some, arith, Bytes, text, bytes_beq_iff,
  bytes_eq, ◌==◌, Result, ok, err, Result-cases, Option-cases, Bool-cases, sym,
}
use mathlib.Core.Path.{subst}
use cube_advisor_agent.Broker.{IsOne, Request, Served, refuse, serve}
use cube_advisor_agent.Broker.Ceph.{CephCommand, check_ceph_args}
use cube_advisor_agent.Broker.CephServer.{CephNode, TableCache, ceph_table, answer_with, ceph}

-- The words of the request ran once, after Ceph's table had admitted them, for a POST.
pub record IsAdmitted (node : CephNode) (c : TableCache) (r : Request) (ran : List (List Bytes))
    : Type 0 where
  pub words : List Bytes
  pub table : List CephCommand
  pub posted : r.method ≡ text "POST"
  pub sent : r.decoded ≡ some words
  pub current : (ceph_table node c).1 ≡ ok table
  pub admitted : check_ceph_args table words ≡ ok tt
  pub once : ran ≡ words ∷ []

module _ (node : CephNode) (c : TableCache) (r : Request) where
  module _ (words : List Bytes) where
    abbrev Ends : Served (List Bytes) → Result Bytes (List CephCommand) → Type 0
    Ends s t =
        ((s.asked ≡ [])
          ⊎ ((table : List CephCommand) × (t ≡ ok table)
              × (check_ceph_args table words ≡ ok tt)
              × (s.asked ≡ words ∷ [])))
        × (IsOne s.audit)

    answer_with-Ends : (t : Result Bytes (List CephCommand)) → Ends (answer_with node r words t) t
    unfolding answer_with refuse serve
    answer_with-Ends (err why) = (inl refl, tt)
    answer_with-Ends (ok table) = elim (Result-cases (check_ceph_args table words)) [
      | inr (e, bad) ↦ rw (bad, answer_with) (inl refl, tt)
      | inl (tt, good) ↦ elim (Option-cases (node.run words).error) [
        | inl fine ↦ rw (good, answer_with, fine) (inr (table, refl, good, refl), tt)
        | inr (why, failed) ↦ rw (good, answer_with, failed) (inr (table, refl, good, refl), tt)
      ]
    ]

  -- What `ceph-IsAdmitted` states of a served request.
  abbrev pub Admits : Served (List Bytes) → Type 0
  Admits s = ((s.asked ≡ []) ⊎ IsAdmitted node c r s.asked) × IsOne s.audit

  Ends-Admits :
      (words : List Bytes) (s : Served (List Bytes))
      → r.method ≡ text "POST"
      → r.decoded ≡ some words
      → Ends words s (ceph_table node c).1
      → Admits s
  Ends-Admits words s posted sent (inl e, h) = (inl e, h)
  Ends-Admits words s posted sent (inr (table, current, admitted, once), h) = (
    inr (record {
      words = words;
      table = table;
      posted = posted;
      sent = sent;
      current = current;
      admitted = admitted;
      once = once;
    }),
    h,
  )

  ceph-answer_with :
      (words : List Bytes)
      → not (r.method == text "POST") ≡ false
      → r.decoded ≡ some words
      → (ceph node c r).1 ≡ answer_with node r words (ceph_table node c).1
  unfolding ceph serve refuse
  ceph-answer_with words posted sent = rw (posted, ceph, sent) refl

  -- Nothing ran, or the request was a POST and its words ran once after the current table had admitted
  -- them; the request leaves exactly one audit record.
  pub ceph-IsAdmitted : Admits (ceph node c r).1
  unfolding ceph refuse
  ceph-IsAdmitted = elim (Bool-cases (not (r.method == text "POST"))) [
    | inl other ↦ rw (other, ceph) (inl refl, tt)
    | inr posted ↦ elim (Option-cases r.decoded) [
      | inl bad ↦ rw (posted, ceph, bad) (inl refl, tt)
      | inr (words, sent) ↦ subst Admits (sym (ceph-answer_with words posted sent)) (
          Ends-Admits words (answer_with node r words (ceph_table node c).1)
            (ground (arith, bytes_beq_iff r.method (text "POST"))) sent
            (answer_with-Ends words (ceph_table node c).1))
    ]
  ]
