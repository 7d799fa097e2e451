-- ===== src/Toolplane/Registry/Building.antt =====
-- New: a registry stands exactly for distinct, well-formed tools under an auditor.
use cube_advisor_agent.Base.{
  ◌≡◌, ◌≢◌, ◌↔◌, refl, true, false, Bool, ◌++◌, [], ◌∷◌, List, map, arith, bytes_beq_iff, ok, All,
  append-nil, append_assoc, IsSortedBy, sort_by-IsSortedBy, sort_by-perm, Result-cases, ◌∙◌,
}
use mathlib.Core.Path.{subst}
use mathlib.Core.List.{Perm}
use cube_advisor_agent.Toolplane.Tools.{Tool, validate}
use cube_advisor_agent.Toolplane.Registry.{
  Registry, ToolOption, find_tool, apply_options, register, new_registry, is_some, names,
  empty_registry,
}

abbrev IsUnlike : Tool → Tool → Type 0
IsUnlike t u = u.name ≢ t.name

-- No two tools share a name.
abbrev pub HasDistinctNames : List Tool → Type 0
HasDistinctNames [] = Unit
HasDistinctNames (t ∷ ts) = All (λ u. IsUnlike u t) ts × HasDistinctNames ts

abbrev pub IsWellFormed : Tool → Type 0
IsWellFormed t = validate t ≡ ok tt

-- Distinct tools, none of which shares its name with one of `old`.
abbrev IsFreshTo : List Tool → List Tool → Type 0
IsFreshTo old ts = All (λ t. All (IsUnlike t) old) ts × HasDistinctNames ts

All-concat_iff :
    (t u : Tool) (old : List Tool)
    → All (IsUnlike t) (old ++ u ∷ []) ↔ (All (IsUnlike t) old × IsUnlike t u)
All-concat_iff t u [] = ground arith
All-concat_iff t u (v ∷ old) = ground (arith, All-concat_iff t u old)

fresh-concat_iff :
    (old ts : List Tool) (u : Tool)
    → All (λ t. All (IsUnlike t) (old ++ u ∷ [])) ts
      ↔ (All (λ t. All (IsUnlike t) old) ts × All (λ t. IsUnlike t u) ts)
fresh-concat_iff old [] u = ground arith
fresh-concat_iff old (t ∷ ts) u = ground (arith, All-concat_iff t u old, fresh-concat_iff old ts u)

find_tool_none_iff :
    (t : Tool) (ts : List Tool) → (is_some (find_tool t.name ts) ≡ false) ↔ All (IsUnlike t) ts
unfolding find_tool
find_tool_none_iff t [] = (λ _. tt, λ _. refl)
find_tool_none_iff t (u ∷ us) = ground (arith, find_tool_none_iff t us, bytes_beq_iff u.name t.name)

-- What registering a list of tools after others comes to.
register_iff :
    (ts : List Tool) (r r' : Registry)
    → (register ts r ≡ ok r')
      ↔ (All IsWellFormed ts × IsFreshTo r.tools ts × (r' ≡ record r { tools = r.tools ++ ts }))
unfolding register
register_iff [] r r' = ground (arith, append-nil r.tools)
register_iff (t ∷ ts) r r' = ground (
  arith,
  find_tool_none_iff t r.tools,
  fresh-concat_iff r.tools ts t,
  register_iff ts (record r { tools = r.tools ++ t ∷ [] }) r',
  append_assoc r.tools (t ∷ []) ts,
  Result-cases (validate t),
)

fresh_to_none : (ts : List Tool) → All (λ t. All (IsUnlike t) []) ts
fresh_to_none [] = tt
fresh_to_none (t ∷ ts) = (tt, fresh_to_none ts)

-- The options set the registry's settings, and leave its tools alone.
abbrev pub KeepsTools : ToolOption → Type 0
KeepsTools o = (r : Registry) → (o r).tools ≡ r.tools

apply_options-tools :
    (opts : List ToolOption) (r : Registry)
    → All KeepsTools opts
    → (apply_options opts r).tools ≡ r.tools
unfolding apply_options
apply_options-tools [] r h = refl
apply_options-tools (o ∷ opts) r (k, h) = apply_options-tools opts (o r) h ∙ k r

register_into_empty :
    (ts : List Tool) (r r' : Registry)
    → r.tools ≡ []
    → (register ts r ≡ ok r')
      ↔ (All IsWellFormed ts × HasDistinctNames ts × (r' ≡ record r { tools = ts }))
register_into_empty ts r r' none_yet =
    let h =
      subst
        (λ old.
          (register ts r ≡ ok r')
          ↔ (All IsWellFormed ts × IsFreshTo old ts × (r' ≡ record r { tools = old ++ ts })))
        none_yet (register_iff ts r r') in
    ground (arith, h, fresh_to_none ts)

-- With options that leave the tools alone, New succeeds exactly with an auditor and for well-formed
-- tools of distinct names, and the registry then serves these tools under the settings of the options.
pub new_registry_iff :
    (ts : List Tool) (audited : Bool) (opts : List ToolOption) (r : Registry)
    → All KeepsTools opts
    → (new_registry ts audited opts ≡ ok r) ↔ (
        (audited ≡ true)
        × All IsWellFormed ts
        × HasDistinctNames ts
        × (r ≡ record (apply_options opts empty_registry) { tools = ts }))
unfolding new_registry
new_registry_iff ts audited opts r keeps = ground (
  arith,
  register_into_empty ts (apply_options opts empty_registry) r
      (apply_options-tools opts empty_registry keeps),
)

-- The names served are the registered ones, each as often, and in order.
pub names_lem :
    (r : Registry)
    → Perm (names r) (map (λ (t : Tool). t.name) r.tools) × IsSortedBy (λ n. n) (names r)
unfolding names
names_lem r = (sort_by-perm (λ n. n) _, sort_by-IsSortedBy (λ n. n) _)
