-- ===== src/Credential/Admin/Catalogs.antt =====
-- Which endpoint of a service Admin keeps of Keystone's catalogue.
use cube_advisor_agent.Base.{
  ◌≡◌, ◌≢◌, inl, inr, refl, sym, ap, ◌∙◌, arith, Bool, false, ◌&&◌, ◌||◌, ◌++◌, [], ◌∷◌, List,
  Option, none, some, Bytes, text, bytes_eq, bytes_beq_iff, bytes_beq_refl, ◌==◌, if◌then◌else◌,
  All, Bool-cases, Option-cases,
}
use cube_advisor_agent.Credential.Admin.{
  CatalogEndpoint, CatalogService, Catalog, lookup, or_zero, add_endpoint, add_endpoints,
  add_services,
}

abbrev pub is_internal : CatalogEndpoint → Bool
is_internal e = e.interface_kind == text "internal"

abbrev pub is_public : CatalogEndpoint → Bool
is_public e = e.interface_kind == text "public"

-- The endpoints that the catalogue lists for a service, in its order.
unfoldable pub endpoints_of : Bytes → List CatalogService → List CatalogEndpoint
endpoints_of service [] = []
endpoints_of service (s ∷ ss) =
    let rest = endpoints_of service ss in
    if s.service_type == service then s.endpoints ++ rest else rest

unfoldable pub last_internal : List CatalogEndpoint → Option Bytes
last_internal [] = none
last_internal (e ∷ es) = elim (last_internal es) [
  | some url ↦ some url
  | none ↦ if is_internal e then some e.url else none
]

unfoldable pub first_public : List CatalogEndpoint → Option Bytes
first_public [] = none
first_public (e ∷ es) = let rest = first_public es in if is_public e then some e.url else rest

abbrev or_else : Option Bytes → Option Bytes → Option Bytes
or_else (some url) other = some url
or_else none other = other

-- The last internal endpoint, or the first public one where there is none.
unfoldable pub preferred : List CatalogEndpoint → Option Bytes
unfolding last_internal first_public
preferred es = or_else (last_internal es) (first_public es)

-- What one endpoint of the service makes of the one that is held.
abbrev choose : CatalogEndpoint → Option Bytes → Option Bytes
choose e held = if is_internal e || (is_public e && or_zero held == []) then some e.url else held

choose_all : List CatalogEndpoint → Option Bytes → Option Bytes
choose_all [] held = held
choose_all (e ∷ es) held = choose_all es (choose e held)

lookup_here :
    (service url : Bytes) (cat : Catalog) → lookup service ((service, url) ∷ cat) ≡ some url
unfolding lookup
lookup_here service url cat = rw (bytes_beq_refl service) refl

lookup_past :
    (t service url : Bytes) (cat : Catalog)
    → (t == service) ≡ false
    → lookup service ((t, url) ∷ cat) ≡ lookup service cat
unfolding lookup
lookup_past t service url cat apart = rw apart refl

lookup-add_endpoint_same :
    (service : Bytes) (e : CatalogEndpoint) (cat : Catalog)
    → lookup service (add_endpoint service e cat) ≡ choose e (lookup service cat)
unfolding add_endpoint
lookup-add_endpoint_same service e cat =
    elim (Bool-cases (is_internal e || (is_public e && or_zero (lookup service cat) == []))) [
      | inl taken ↦ rw taken (lookup_here service e.url cat)
      | inr left ↦ rw left refl
    ]

lookup-add_endpoints_same :
    (service : Bytes) (es : List CatalogEndpoint) (cat : Catalog)
    → lookup service (add_endpoints service es cat) ≡ choose_all es (lookup service cat)
unfolding add_endpoints choose_all
lookup-add_endpoints_same service [] cat = refl
lookup-add_endpoints_same service (e ∷ es) cat =
    lookup-add_endpoints_same service es (add_endpoint service e cat)
    ∙ ap (choose_all es) (lookup-add_endpoint_same service e cat)

lookup-add_endpoint_other :
    (t service : Bytes) (e : CatalogEndpoint) (cat : Catalog)
    → (t == service) ≡ false
    → lookup service (add_endpoint t e cat) ≡ lookup service cat
unfolding add_endpoint
lookup-add_endpoint_other t service e cat apart =
    elim (Bool-cases (is_internal e || (is_public e && or_zero (lookup t cat) == []))) [
      | inl taken ↦ rw taken (lookup_past t service e.url cat apart)
      | inr left ↦ rw left refl
    ]

lookup-add_endpoints_other :
    (t service : Bytes) (es : List CatalogEndpoint) (cat : Catalog)
    → (t == service) ≡ false
    → lookup service (add_endpoints t es cat) ≡ lookup service cat
unfolding add_endpoints
lookup-add_endpoints_other t service [] cat apart = refl
lookup-add_endpoints_other t service (e ∷ es) cat apart =
    lookup-add_endpoints_other t service es (add_endpoint t e cat) apart
    ∙ lookup-add_endpoint_other t service e cat apart

choose_all-append :
    (es fs : List CatalogEndpoint) (held : Option Bytes)
    → choose_all (es ++ fs) held ≡ choose_all fs (choose_all es held)
unfolding choose_all
choose_all-append [] fs held = refl
choose_all-append (e ∷ es) fs held = choose_all-append es fs (choose e held)

lookup-add_services :
    (service : Bytes) (ss : List CatalogService) (cat : Catalog)
    → lookup service (add_services ss cat)
      ≡ choose_all (endpoints_of service ss) (lookup service cat)
unfolding add_services choose_all endpoints_of
lookup-add_services service [] cat = refl
lookup-add_services service (s ∷ ss) cat = elim (Bool-cases (s.service_type == service)) [
  | inl same ↦
      let e : s.service_type ≡ service = (bytes_beq_iff s.service_type service).0 same in
      lookup-add_services service ss (add_endpoints s.service_type s.endpoints cat)
      ∙ ap (choose_all (endpoints_of service ss)) (
          ap (λ (t : Bytes). lookup service (add_endpoints t s.endpoints cat)) e
          ∙ lookup-add_endpoints_same service s.endpoints cat)
      ∙ sym (choose_all-append s.endpoints (endpoints_of service ss) (lookup service cat))
      ∙ rw (same, endpoints_of) refl
  | inr apart ↦
      lookup-add_services service ss (add_endpoints s.service_type s.endpoints cat)
      ∙ ap (choose_all (endpoints_of service ss))
          (lookup-add_endpoints_other s.service_type service s.endpoints cat apart)
      ∙ rw (apart, endpoints_of) refl
]

abbrev NotEmpty : CatalogEndpoint → Type 0
NotEmpty e = e.url ≢ []

-- Once an address is held, only an internal endpoint replaces it.
choose_all-held :
    (es : List CatalogEndpoint) (url : Bytes)
    → url ≢ []
    → All NotEmpty es
    → choose_all es (some url) ≡ or_else (last_internal es) (some url)
unfolding choose_all last_internal
choose_all-held [] url ne h = refl
choose_all-held (e ∷ es) url ne (filled, h) = elim (Bool-cases (is_internal e)) [
  | inl inside ↦
      let taken : choose e (some url) ≡ some e.url = rw inside refl in
      ap (choose_all es) taken
      ∙ choose_all-held es e.url filled h
      ∙ elim (Option-cases (last_internal es)) [
        | inl nothing ↦ rw (nothing, inside, last_internal) refl
        | inr (u, later) ↦ rw (later, last_internal) refl
      ]
  | inr outside ↦
      let filled_now : (url == []) ≡ false = ground (arith, bytes_beq_iff url []) in
      let kept : choose e (some url) ≡ some url = ground arith in
      ap (choose_all es) kept
      ∙ choose_all-held es url ne h
      ∙ elim (Option-cases (last_internal es)) [
        | inl nothing ↦ rw (nothing, outside, last_internal) refl
        | inr (u, later) ↦ rw (later, last_internal) refl
      ]
]

choose_all-none : (es : List CatalogEndpoint) → All NotEmpty es → choose_all es none ≡ preferred es
unfolding choose_all preferred last_internal first_public
choose_all-none [] h = refl
choose_all-none (e ∷ es) (filled, h) = elim (Bool-cases (is_internal e)) [
  | inl inside ↦
      let taken : choose e none ≡ some e.url = rw inside refl in
      ap (choose_all es) taken
      ∙ choose_all-held es e.url filled h
      ∙ elim (Option-cases (last_internal es)) [
        | inl nothing ↦ rw (nothing, inside, last_internal) refl
        | inr (u, later) ↦ rw (later, last_internal) refl
      ]
  | inr outside ↦ elim (Bool-cases (is_public e)) [
    | inl open_to_all ↦
        let taken : choose e none ≡ some e.url =
          rw (outside, open_to_all, bytes_beq_refl []) refl in
        ap (choose_all es) taken
        ∙ choose_all-held es e.url filled h
        ∙ elim (Option-cases (last_internal es)) [
          | inl nothing ↦ rw (nothing, outside, open_to_all, last_internal, first_public) refl
          | inr (u, later) ↦ rw (later, last_internal) refl
        ]
    | inr closed ↦
        let kept : choose e none ≡ none = ground arith in
        ap (choose_all es) kept ∙ choose_all-none es h ∙ elim (Option-cases (last_internal es)) [
          | inl nothing ↦ rw (nothing, outside, closed, last_internal, first_public) refl
          | inr (u, later) ↦ rw (later, last_internal) refl
        ]
  ]
]

-- For every service whose listed addresses are not empty, Admin keeps the last internal endpoint of the
-- catalogue, or else the first public one, and none where there is neither.
pub lookup-preferred :
    (service : Bytes) (ss : List CatalogService)
    → All NotEmpty (endpoints_of service ss)
    → lookup service (add_services ss []) ≡ preferred (endpoints_of service ss)
unfolding lookup
lookup-preferred service ss h =
    lookup-add_services service ss [] ∙ choose_all-none (endpoints_of service ss) h
