-- ===== src/Broker/Prom/Forwarding.antt =====
-- What reaches Prometheus.
use cube_advisor_agent.Base.{
  ap, Option, some, none, Option-cases, ◌≡◌, ◌≢◌, ◌↔◌, ◌⊎◌, inl, inr, refl, true, false, not, ◌||◌,
  [], ◌∷◌, List, arith, Bytes, text, bytes_beq_iff, Result, All, has_prefix, contains, trim_suffix,
  bytes_eq, ◌==◌, Bool-cases, Result-cases, Bool, sym,
}
use cube_advisor_agent.Base.Substrings.{StartsWith, Holds, has_prefix_iff, contains_iff}
use mathlib.Core.Path.{subst}
use cube_advisor_agent.Broker.{IsOne, Request, Served, Answer, method_get, refuse, serve}
use cube_advisor_agent.Broker.Prom.{
  PromUrl, Handled, returned, panicked, prom_denied, is_denied, prom_url, exchange, forward, prom,
}

-- A read whose decoded path is below /api/v1/, does not climb and is not under a denied path.
pub record IsRead (r : Request) : Type 0 where
  pub get : r.method ≡ method_get
  pub below : StartsWith (text "/api/v1/") r.path
  pub stays : ¬ Holds (text "..") r.path
  pub open_path :
      All (λ d. (¬ StartsWith d r.path) × (r.path ≢ trim_suffix (text "/") d)) prom_denied

is_denied_iff :
    (ds : List Bytes) (p : Bytes)
    → (is_denied ds p ≡ false) ↔ All (λ d. (¬ StartsWith d p) × (p ≢ trim_suffix (text "/") d)) ds
unfolding is_denied
is_denied_iff [] p = (λ _. tt, λ _. refl)
is_denied_iff (d ∷ ds) p =
    ground
      (arith, is_denied_iff ds p, has_prefix_iff d p, bytes_beq_iff p (trim_suffix (text "/") d))

-- One record, and the calls that were made.
abbrev pub Traced : {B : Type 0} → Served B → List B → Type 0
Traced s asked = (s.asked ≡ asked) × (IsOne s.audit)

-- The handler returned with one record and those calls made.
abbrev pub IsReturned : List PromUrl → Handled → Type 0
IsReturned asked (returned s) = Traced s asked
IsReturned asked panicked = ⊥

module _ (base : Bytes) (new_request : Bytes → Option PromUrl)
    (client : PromUrl → Result Bytes Answer) (r : Request) where
  -- What a request that passes the guards comes to.
  abbrev pub IsForwarded : Handled → Type 0
  IsForwarded h =
      ((u : PromUrl) × ((new_request (prom_url base r) ≡ some u) × IsReturned (u ∷ []) h))
      ⊎ ((new_request (prom_url base r) ≡ none) × (h ≡ panicked))

  exchange-IsReturned :
      (u : PromUrl) → IsReturned (u ∷ []) (exchange base new_request client r (some u))
  unfolding exchange refuse serve
  exchange-IsReturned u = elim (Result-cases (client u)) [
    | inl (a, e) ↦ rw (e, exchange) (refl, tt)
    | inr (why, e) ↦ rw (e, exchange) (refl, tt)
  ]

  forward-IsForwarded : IsForwarded (forward base new_request client r)
  unfolding forward exchange
  forward-IsForwarded = elim (Option-cases (new_request (prom_url base r))) [
    | inl e ↦ inr (e, ap (exchange base new_request client r) e)
    | inr (u, e) ↦ inl (
      u,
      (
        e,
        subst (λ (o : Option PromUrl). IsReturned (u ∷ []) (exchange base new_request client r o))
            (sym e) (exchange-IsReturned u),
      ),
    )
  ]

  abbrev no_get : Bool
  no_get = not (r.method == method_get)

  abbrev outside : Bool
  outside = not (has_prefix (text "/api/v1/") r.path) || contains (text "..") r.path

  guards_iff :
      IsRead r ↔ ((no_get ≡ false) × (outside ≡ false) × (is_denied prom_denied r.path ≡ false))
  guards_iff = ground (
    arith,
    bytes_beq_iff r.method method_get,
    has_prefix_iff (text "/api/v1/") r.path,
    contains_iff (text "..") r.path,
    is_denied_iff prom_denied r.path,
  )

  passes :
      no_get ≡ false
      → outside ≡ false
      → is_denied prom_denied r.path ≡ false
      → prom base new_request client r ≡ forward base new_request client r
  unfolding prom
  passes get below open_path = rw (get, below, open_path) refl

  stops :
      (no_get ≡ true) ⊎ (outside ≡ true) ⊎ (is_denied prom_denied r.path ≡ true)
      → IsReturned [] (prom base new_request client r)
  unfolding prom refuse
  stops h = elim (Bool-cases no_get) [
    | inl e ↦ rw (e, prom) (refl, tt)
    | inr get ↦ elim (Bool-cases outside) [
      | inl e ↦ rw (get, e, prom) (refl, tt)
      | inr below ↦ elim (Bool-cases (is_denied prom_denied r.path)) [
        | inl e ↦ rw (get, below, e, prom) (refl, tt)
        | inr open_path ↦ absurd (ground arith)
      ]
    ]
  ]

  -- The guards look at the decoded path. A request that passes them has its base, decoded path and
  -- raw query put together and parsed anew: that URL is asked for once, with one audit record; where
  -- the text does not parse, the handler panics, with no record. Any other request is refused with one
  -- record, and nothing is asked for.
  pub prom_asked :
      (IsRead r × IsForwarded (prom base new_request client r))
      ⊎ ((¬ IsRead r) × IsReturned [] (prom base new_request client r))
  prom_asked = elim (Bool-cases no_get) [
    | inl e ↦ inr (ground (arith, guards_iff), stops (inl e))
    | inr get ↦ elim (Bool-cases outside) [
      | inl e ↦ inr (ground (arith, guards_iff), stops (inr (inl e)))
      | inr below ↦ elim (Bool-cases (is_denied prom_denied r.path)) [
        | inl e ↦ inr (ground (arith, guards_iff), stops (inr (inr e)))
        | inr allowed ↦ inl (
          guards_iff.1 (get, below, allowed),
          subst IsForwarded (sym (passes get below allowed)) forward-IsForwarded,
        )
      ]
    ]
  ]
