-- ===== src/Broker/Ceph.antt =====
-- internal/broker/ceph.go: which words may follow `ceph`.
pub mod Fitting
pub mod Admission
use cube_advisor_agent.Base.{
  ℕ, suc, Bool, true, false, not, ◌&&◌, ◌||◌, [], ◌∷◌, List, Option, none, some, Bytes, text,
  bytes_eq, nat_eq, ◌==◌, if◌then◌else◌, Result, ok, err, ◌>>=◌, ltb, leb, length, elem, has_prefix,
  trim_prefix, join, ◌++◌, map,
}

-- A position of the signature is a literal word, or [] for a parameter.
pub record CephCommand : Type 0 where
  pub sig : List Bytes
  pub rest : Bool
  pub perm : Bytes

pub data CephError : Type 0 where
  takes_format : Bytes → CephError
  bad_format : Bytes → CephError
  option_refused : Bytes → CephError
  no_command : CephError
  not_in_table : List Bytes → CephError
  not_read_only : List Bytes → Bytes → CephError

unfoldable pub is_format : Bytes → Bool
is_format w = w == text "json" || (w == text "json-pretty" || w == text "plain")

unfoldable pub is_pg_read : Bytes → Bool
is_pg_read w = w == text "query" || w == text "list_unfound"

abbrev takes_next : Bytes → Bool
takes_next a = a == text "-f" || a == text "--format"

abbrev add_word : Bytes → Result CephError (List Bytes) → Result CephError (List Bytes)
add_word a (ok ws) = ok (a ∷ ws)
add_word a (err e) = err e

-- The words with the format options taken out.
unfoldable pub strip_format : List Bytes → Result CephError (List Bytes)
unfolding is_format
strip_format [] = ok []
strip_format (a ∷ []) =
    if takes_next a
    then err (takes_format a)
    else if has_prefix (text "--format=") a
    then if not (is_format (trim_prefix (text "--format=") a)) then err (bad_format a) else ok []
    else if has_prefix (text "-") a
    then err (option_refused a)
    else ok (a ∷ [])
strip_format (a ∷ b ∷ args) =
    let after_value = strip_format args in
    let after_word = strip_format (b ∷ args) in
    if takes_next a
    then if not (is_format b) then err (takes_format a) else after_value
    else if has_prefix (text "--format=") a
    then if not (is_format (trim_prefix (text "--format=") a))
      then err (bad_format a)
      else after_word
    else if has_prefix (text "-") a
    then err (option_refused a)
    else add_word a after_word

-- The loop over the signature's positions and the words at them; `none` for a mismatch.
score_from : List Bytes → List Bytes → ℕ → Option ℕ
score_from [] words score = some score
score_from (lit ∷ sig) [] score = if not (lit == []) then none else score_from sig [] score
score_from (lit ∷ sig) (w ∷ words) score =
    let same = score_from sig words score in
    let one_more = score_from sig words (suc score) in
    if lit == [] then same else if not (w == lit) then none else one_more

abbrev or_zero : Option ℕ → ℕ
or_zero none = 0
or_zero (some n) = n

unfoldable pub fit : CephCommand → List Bytes → ℕ
unfolding score_from
fit c words =
    if ltb (length c.sig) (length words) && not c.rest
    then 0
    else or_zero (score_from c.sig words 0)

-- The loop that keeps the best-fitting commands, in the order of the table.
unfoldable pub best_of : List CephCommand → List Bytes → List CephCommand → ℕ → List CephCommand
best_of [] words best score = best
best_of (c ∷ table) words best score =
    let s = fit c words in
    let replaced = best_of table words (c ∷ []) s in
    let joined = best_of table words (best ++ c ∷ []) score in
    let kept = best_of table words best score in
    if ltb score s then replaced else if ltb 0 s && s == score then joined else kept

-- The loop over the best commands: the first that is not marked "r".
unfoldable pub first_not_read : List CephCommand → Option CephCommand
first_not_read [] = none
first_not_read (c ∷ cs) = if not (c.perm == text "r") then some c else first_not_read cs

unfoldable pub is_pg_query : List Bytes → Bool
unfolding is_pg_read
is_pg_query (w ∷ pgid ∷ verb ∷ []) = w == text "pg" && is_pg_read verb
is_pg_query (w ∷ pgid ∷ verb ∷ arg ∷ []) =
    w == text "pg" && (is_pg_read verb && verb == text "list_unfound")
is_pg_query _ = false

-- The verdict on the best-fitting commands.
unfoldable pub judge : List Bytes → List CephCommand → Result CephError (Unit {0})
judge words [] = err (not_in_table words)
judge words (c ∷ cs) = elim (first_not_read (c ∷ cs)) [
  | some d ↦ err (not_read_only words d.perm)
  | none ↦ ok tt
]

unfoldable pub check_words : List CephCommand → List Bytes → Result CephError (Unit {0})
unfolding judge first_not_read is_pg_query best_of
check_words table [] = err no_command
check_words table (w ∷ ws) =
    if is_pg_query (w ∷ ws) then ok tt else judge (w ∷ ws) (best_of table (w ∷ ws) [] 0)

unfoldable pub check_ceph_args : List CephCommand → List Bytes → Result CephError (Unit {0})
unfolding strip_format check_words
check_ceph_args table args = do words ← strip_format args; check_words table words
