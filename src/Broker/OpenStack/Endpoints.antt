-- ===== src/Broker/OpenStack/Endpoints.antt =====
-- Where joinEndpoint sends a request.
use cube_advisor_agent.Base.{
  ◌≡◌, ◌≢◌, ◌⊎◌, inl, inr, refl, ◌++◌, [], ◌∷◌, Option, some, arith, Bytes, text, bytes_beq_iff,
  bytes_eq, ◌==◌, ok, ◌>>=◌, bind-eq-ok, trim_suffix, Bool-cases, Option-cases,
}
use mathlib.Core.Path.{subst}
use cube_advisor_agent.Base.Substrings.{StartsWith, has_prefix_iff}
use cube_advisor_agent.Broker.OpenStack.{
  NetUrl, Endpoint, Url, under_base, join_parsed, join_endpoint, check_segments,
}
use cube_advisor_agent.Broker.OpenStack.Paths.{AllClean, check_segments_iff}

-- The path, or the path under the base that it does not begin with.
abbrev pub IsUnder : Bytes → Bytes → Bytes → Type 0
IsUnder base p full =
    ((full ≡ p) × ((base ≡ []) ⊎ (p ≡ base) ⊎ StartsWith (base ++ b'/' ∷ []) p))
    ⊎ (full ≡ base ++ p)

under_base-IsUnder : (base p : Bytes) → IsUnder base p (under_base base p)
unfolding under_base
under_base-IsUnder base p =
    ground
      (arith, bytes_beq_iff base [], bytes_beq_iff p base, has_prefix_iff (base ++ b'/' ∷ []) p)

-- The URL goes to the host of the endpoint, and its path is clean.
pub record IsJoined (net : NetUrl) (endpoint p query : Bytes) (u : Url) : Type 0 where
  pub parsed : Endpoint
  pub read : net.parse endpoint ≡ some parsed
  pub has_host : parsed.host ≢ []
  pub same_scheme : u.scheme ≡ parsed.scheme
  pub same_host : u.host ≡ parsed.host
  pub under : IsUnder (trim_suffix (text "/") parsed.path) p u.path
  pub clean : AllClean u.path
  pub same_query : u.query ≡ query

module _ (p query : Bytes) where
  abbrev target_url : Endpoint → Url
  target_url ep = record {
    scheme = ep.scheme;
    host = ep.host;
    path = under_base (trim_suffix (text "/") ep.path) p;
    query = query;
  }

  joined_lem :
      (ep : Endpoint) (u : Url)
      → join_parsed (some ep) p query ≡ ok u
      → (ep.host ≢ []) × AllClean (target_url ep).path × (target_url ep ≡ u)
  unfolding join_parsed
  joined_lem ep u h = elim (Bool-cases (ep.host == [])) [
    | inl e ↦ absurd (ground arith)
    | inr e ↦
        let inner : (check_segments (target_url ep).path >>= (λ _. ok (target_url ep))) ≡ ok u =
          ground arith in
        let (_, clean, same) =
          bind-eq-ok (check_segments (target_url ep).path) (λ _. ok (target_url ep)) inner in
        (
          ground (arith, bytes_beq_iff ep.host []),
          (check_segments_iff (target_url ep).path).0 clean,
          cc,
        )
  ]

  endpoint-IsJoined :
      (net : NetUrl) (endpoint : Bytes) (ep : Endpoint) (u : Url)
      → net.parse endpoint ≡ some ep
      → (ep.host ≢ []) × AllClean (target_url ep).path × (target_url ep ≡ u)
      → IsJoined net endpoint p query u
  endpoint-IsJoined net endpoint ep u e (has_host, clean, same) =
      subst (IsJoined net endpoint p query) same (record {
        parsed = ep;
        read = e;
        has_host = has_host;
        same_scheme = refl;
        same_host = refl;
        under = under_base-IsUnder (trim_suffix (text "/") ep.path) p;
        clean = clean;
        same_query = refl;
      })

  -- A URL that joinEndpoint returns goes to the endpoint's scheme and host, under its path, with clean
  -- segments.
  pub join_endpoint-IsJoined :
      (net : NetUrl) (endpoint : Bytes) (u : Url)
      → join_endpoint net endpoint p query ≡ ok u
      → IsJoined net endpoint p query u
  unfolding join_endpoint join_parsed
  join_endpoint-IsJoined net endpoint u h = elim (Option-cases (net.parse endpoint)) [
    | inl e ↦ absurd (ground arith)
    | inr (ep, e) ↦
        endpoint-IsJoined net endpoint ep u e
          (joined_lem ep u (subst (λ (o : Option Endpoint). join_parsed o p query ≡ ok u) e h))
  ]
