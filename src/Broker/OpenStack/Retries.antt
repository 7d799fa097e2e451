-- ===== src/Broker/OpenStack/Retries.antt =====
-- What the OpenStack broker sends, over both rounds of its loop.
use cube_advisor_agent.Base.{
  ℕ, suc, ◌≤◌, ◌≡◌, ◌⊎◌, inl, inr, refl, true, false, not, Bool, ◌||◌, ◌++◌, [], ◌∷◌, List, arith,
  Bytes, text, bytes_beq_iff, bytes_eq, nat_eq, ◌==◌, if◌then◌else◌, Result, ok, err, length, All,
  All-append, Bool-cases, Result-cases,
}
use cube_advisor_agent.Toolplane.Sandbox.{lookup_arg}
use cube_advisor_agent.Broker.{Request, Served, Answer, IsOne, method_get, refuse, serve}
use cube_advisor_agent.Broker.OpenStack.{
  NetUrl, Url, PathError, Source, SourceError, Texts, Round, done, again, answered, on_answer,
  on_url, on_endpoint, one_round, finish, then_last, attempts, openstack, join_endpoint,
  check_openstack_path, unauthorized,
}
use cube_advisor_agent.Broker.OpenStack.Paths.{IsServable, check_openstack_path-IsServable}
use cube_advisor_agent.Broker.OpenStack.Endpoints.{IsJoined, join_endpoint-IsJoined}

-- The states of the source that the handler's own calls of it lead to.
pub data Reached (src : Source) (service : Bytes) (s : src.State) : src.State → Type 0 where
  here : Reached src service s s
  found :
      (t : src.State) → Reached src service s t → Reached src service s (src.endpoint t service).0
  sent :
      (t : src.State) (u : Url) (token : Bytes)
      → Reached src service s t
      → Reached src service s (src.send t u token).0
  dropped : (t : src.State) → Reached src service s t → Reached src service s (src.invalidate t)

module _ (net : NetUrl) (src : Source) (service p query : Bytes) (s : src.State) where
  -- The source, asked for the service, gave the endpoint that the URL is joined from.
  pub record IsGiven (u : Url) : Type 0 where
    pub asked_in : src.State
    pub reached : Reached src service s asked_in
    pub endpoint : Bytes
    pub token : Bytes
    pub gave : (src.endpoint asked_in service).1 ≡ ok (endpoint, token)
    pub joined : IsJoined net endpoint p query u

  -- At most so many requests went out, each to an endpoint that the source gave for the service, with
  -- the path and query.
  abbrev pub Sent : ℕ → List Url → Type 0
  Sent n asked = (length asked ≤ n) × All IsGiven asked

length_snoc : (us : List Url) (u : Url) → length (us ++ u ∷ []) ≡ suc (length us)
length_snoc [] u = refl
length_snoc (v ∷ us) u = ground (arith, length_snoc us u)

module _ (net : NetUrl) (src : Source) (texts : Texts) (r : Request) where
  abbrev service : Bytes
  service = lookup_arg (text "service") r.values

  module _ (p query : Bytes) (s0 : src.State) where
    abbrev Known : src.State → Type 0
    Known = Reached src service s0

    abbrev RoundSent : ℕ → Round src.State → Type 0
    RoundSent n (done s served) =
        IsOne served.audit × Sent net src service p query s0 n served.asked
    RoundSent n (again s asked) = Known s × Sent net src service p query s0 n asked

    RoundSent-if :
        (b : Bool) (n : ℕ) (x y : Round src.State)
        → RoundSent n x
        → RoundSent n y
        → RoundSent n (if b then x else y)
    RoundSent-if true n x y hx hy = hx
    RoundSent-if false n x y hx hy = hy

    on_answer-Sent :
        (n : ℕ) (last : Bool) (s : src.State) (asked : List Url) (resp : Result Bytes Answer)
        → Known s
        → Sent net src service p query s0 n asked
        → RoundSent n (on_answer net src texts r last s asked resp)
    unfolding on_answer answered refuse serve
    on_answer-Sent n last s asked (err why) known h = (tt, h)
    on_answer-Sent n last s asked (ok a) known h =
        RoundSent-if (not (a.code == unauthorized) || last) n _ _ (tt, h) (dropped s known, h)

    on_url-Sent :
        (n : ℕ) (last : Bool) (t : src.State) (asked : List Url) (endpoint token : Bytes)
        (u : Result PathError Url)
        → join_endpoint net endpoint p query ≡ u
        → Known t
        → (src.endpoint t service).1 ≡ ok (endpoint, token)
        → Sent net src service p query s0 n asked
        → RoundSent (suc n) (on_url net src texts r last (src.endpoint t service).0 asked token u)
    unfolding on_url refuse
    on_url-Sent n last t asked endpoint token (err e) same known gave (few, all) =
        (tt, (ground arith, all))
    on_url-Sent n last t asked endpoint token (ok u) same known gave (few, all) =
        let given : IsGiven net src service p query s0 u = record {
          asked_in = t;
          reached = known;
          endpoint = endpoint;
          token = token;
          gave = gave;
          joined = join_endpoint-IsJoined p query net endpoint u same;
        } in
        on_answer-Sent (suc n) last (src.send (src.endpoint t service).0 u token).0
          (asked ++ u ∷ []) (src.send (src.endpoint t service).0 u token).1
          (sent (src.endpoint t service).0 u token (found t known))
          (ground (arith, length_snoc asked u), All-append _ asked (u ∷ []) all (given, tt))

    on_endpoint-Sent :
        (n : ℕ) (last : Bool) (t : src.State) (asked : List Url)
        (got : Result SourceError (Bytes × Bytes))
        → (src.endpoint t service).1 ≡ got
        → Known t
        → Sent net src service p query s0 n asked
        → RoundSent
            (suc n)
            (on_endpoint net src texts r last (src.endpoint t service).0 asked p query got)
    unfolding on_endpoint refuse
    on_endpoint-Sent n last t asked (err e) same known (few, all) = (tt, (ground arith, all))
    on_endpoint-Sent n last t asked (ok (endpoint, token)) same known h =
        on_url-Sent n last t asked endpoint token _ refl known same h

    one_round-Sent :
        (n : ℕ) (last : Bool) (t : src.State) (asked : List Url)
        → Known t
        → Sent net src service p query s0 n asked
        → RoundSent (suc n) (one_round net src texts r last t asked p query)
    unfolding one_round
    one_round-Sent n last t asked known h = on_endpoint-Sent n last t asked _ refl known h

    abbrev Outcome : src.State × Served Url → Type 0
    Outcome (s, served) = IsOne served.audit × Sent net src service p query s0 2 served.asked

    finish-Sent : (x : Round src.State) → RoundSent 2 x → Outcome (finish net src texts r x)
    unfolding finish refuse
    finish-Sent (done s served) h = h
    finish-Sent (again s asked) (known, h) = (tt, h)

    then_last-Sent :
        (x : Round src.State) → RoundSent 1 x → Outcome (then_last net src texts r p query x)
    unfolding then_last
    then_last-Sent (done s served) (h, (few, all)) = (h, (ground arith, all))
    then_last-Sent (again s asked) (known, h) =
        finish-Sent (one_round net src texts r true s asked p query)
          (one_round-Sent 1 true s asked known h)

    attempts-Sent : Outcome (attempts net src texts r s0 p query)
    unfolding attempts
    attempts-Sent =
        then_last-Sent (one_round net src texts r false s0 [] p query)
          (one_round-Sent 0 false s0 [] here (ground arith, tt))

  -- What went out for a request, on every branch: nothing, or at most two reads of a servable path.
  abbrev pub IsOutcome : src.State → Bool → Served Url → Type 0
  IsOutcome s0 configured served =
      IsOne served.audit
      × ((served.asked ≡ [])
          ⊎ ((r.method ≡ method_get)
              × (r.path ≡ text "/get")
              × (configured ≡ true)
              × ((p : Bytes) × ((query : Bytes) × (IsServable net
                        (lookup_arg (text "service") r.values) (lookup_arg (text "path") r.values) p
                        query
                      × Sent net src service p query s0 2 served.asked)))))

  checked : Result PathError (Bytes × Bytes)
  checked =
      check_openstack_path net (lookup_arg (text "service") r.values)
        (lookup_arg (text "path") r.values)

  -- A request is answered with one audit record; it sends nothing unless it is a GET of /get on a node
  -- with a credential and its path is servable, and then at most two requests, each of that path and
  -- query at an endpoint that the source gave for the request's service.
  pub openstack-IsOutcome :
      (configured : Bool) (s : src.State)
      → IsOutcome s configured (openstack net src texts r configured s).1
  unfolding openstack refuse checked
  openstack-IsOutcome configured s = elim (Bool-cases (not (r.method == method_get))) [
    | inl e ↦ rw (e, openstack) (tt, inl refl)
    | inr get ↦ elim (Bool-cases (not (r.path == text "/get"))) [
      | inl e ↦ rw (get, e, openstack) (tt, inl refl)
      | inr path ↦ elim (Bool-cases (not configured)) [
        | inl e ↦ rw (get, path, e, openstack) (tt, inl refl)
        | inr on ↦ elim (Result-cases checked) [
          | inr (why, bad) ↦ rw (get, path, on, openstack, bad) (tt, inl refl)
          | inl ((p, query), good) ↦
              let (h, went) = attempts-Sent p query s in
              rw (get, path, on, openstack, good)
                (
                  h,
                  inr (
                    ground (arith, bytes_beq_iff r.method method_get),
                    ground (arith, bytes_beq_iff r.path (text "/get")),
                    ground arith,
                    (p, (query, (check_openstack_path-IsServable net _ _ p query good, went))),
                  ),
                )
        ]
      ]
    ]
  ]
