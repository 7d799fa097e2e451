-- ===== src/Broker/OpenStack.antt =====
-- internal/broker/openstack.go: which reads of OpenStack pass, where they go, and the broker's loop.
-- What net/url makes of a query and of an endpoint, and the OpenStack source, are parameters.
pub mod Paths
pub mod Endpoints
pub mod Retries
use cube_advisor_agent.Base.{
  ℕ, zero, suc, Bool, true, false, not, ◌&&◌, ◌||◌, ◌++◌, [], ◌∷◌, List, map, Option, none, some,
  Bytes, text, bytes_eq, nat_eq, ◌==◌, if◌then◌else◌, Result, ok, err, ◌>>=◌, ◌>>◌, fail_if, length,
  leb, between, all, any, elem, split, strip, reverse, has_prefix, trim_suffix, contains, cut,
  to_lower,
}
use cube_advisor_agent.Toolplane.Sandbox.{Args, lookup_arg}
use cube_advisor_agent.Broker.{
  Request, Served, Answer, method_get, refuse, serve, read_capped, cut_reason, notice_if,
}

abbrev is_lower : ℕ → Bool
is_lower c = between b'a' b'z' c

abbrev is_digit : ℕ → Bool
is_digit c = between b'0' b'9' c

-- The regular expression `osService`.
unfoldable pub is_service : Bytes → Bool
is_service [] = false
is_service (c ∷ s) =
    is_lower c && (leb (length s) 39 && all (λ d. is_lower d || (is_digit d || d == b'-')) s)

-- A character of a segment in `osPath`.
abbrev pub is_segment_char : ℕ → Bool
is_segment_char c =
    between b'A' b'Z' c
    || (is_lower c
        || (is_digit c
            || (c == b'_'
                || (c == b'~'
                    || (c == b':'
                        || (c == b'@'
                            || (c == b','
                                || (c == b'=' || (c == b'+' || (c == b'.' || c == b'-'))))))))))

-- Where a match of `osPath` stands: before a segment's first character, in a segment, or behind the
-- slash that may end the path.
pub data Place : Type 0 where
  before inside behind : Place

unfoldable pub path_from : Place → Bytes → Bool
path_from before [] = false
path_from before (c ∷ s) = is_segment_char c && path_from inside s
path_from inside [] = true
path_from inside (c ∷ s) =
    if c == b'/' then path_from behind s else is_segment_char c && path_from inside s
path_from behind [] = true
path_from behind (c ∷ s) = is_segment_char c && path_from inside s

-- The regular expression `osPath`.
unfoldable pub is_path : Bytes → Bool
unfolding path_from
is_path [] = false
is_path (c ∷ s) = c == b'/' && path_from before s

abbrev pub denied_services : List Bytes
denied_services = map text ("key-manager" ∷ "object-store" ∷ "s3" ∷ [])

abbrev pub denied_segments : List Bytes
denied_segments = map text (
    "credentials" ∷ "application_credentials" ∷ "os-oauth1" ∷ "os-oauth2" ∷ "os-keypairs"
    ∷ "os-server-password" ∷ "os-console-auth-tokens" ∷ "secrets" ∷ "payload" ∷ "file"
    ∷ "environment" ∷ "files" ∷ "share-access-rules" ∷ "security-services"
    ∷ "ipsec-site-connections" ∷ "tsigkeys" ∷ "vendor_passthru" ∷ [])

unfoldable pub is_among : Bytes → List Bytes → Bool
is_among w [] = false
is_among w (d ∷ ds) = d == w || is_among w ds

pub data PathError : Type 0 where
  bad_service bad_path : PathError
  denied_service : Bytes → PathError
  bad_segment : Bytes → PathError
  denied_segment : Bytes → PathError
  bad_query : Bytes → PathError
  bad_endpoint : PathError

-- strings.Trim with a cutset of one character.
char_width : ℕ → Bytes → ℕ
char_width d [] = 0
char_width d (c ∷ s) = if c == d then 1 else 0

unfoldable pub trim_char : ℕ → Bytes → Bytes
unfolding strip char_width
trim_char d s =
    let front = strip (char_width d) (length s) s in
    reverse (strip (char_width d) (length front) (reverse front))

unfoldable pub check_segment : Bytes → Result PathError (Unit {0})
unfolding trim_char is_among
check_segment seg =
    if trim_char b'.' seg == [] || contains (text "..") seg
    then err (bad_segment seg)
    else if is_among (to_lower seg) denied_segments
    then err (denied_segment seg)
    else ok tt

unfoldable pub check_all : List Bytes → Result PathError (Unit {0})
check_all [] = ok tt
check_all (seg ∷ segs) = do check_segment seg; check_all segs

unfoldable pub check_segments : Bytes → Result PathError (Unit {0})
unfolding check_all trim_char split
check_segments p = check_all (split b'/' (trim_char b'/' p))

-- The part before the first "?", and the part behind it.
unfoldable pub cut_query : Bytes → Bytes × Bytes
cut_query target = elim (cut (text "?") target) [ none ↦ (target, []) | some parts ↦ parts ]

-- What url.Parse finds in an endpoint.
pub record Endpoint : Type 0 where
  pub scheme : Bytes
  pub host : Bytes
  pub path : Bytes

pub record Url : Type 0 where
  pub scheme : Bytes
  pub host : Bytes
  pub path : Bytes
  pub query : Bytes

-- net/url: a query parsed and encoded again, and an endpoint parsed.
pub record NetUrl : Type 0 where
  pub reencode : Bytes → Result Bytes Bytes
  pub parse : Bytes → Option Endpoint

-- The path under the endpoint's own, unless it begins with that already.
unfoldable pub under_base : Bytes → Bytes → Bytes
under_base base p =
    if not (base == []) && (not (p == base) && not (has_prefix (base ++ b'/' ∷ []) p))
    then base ++ p
    else p

join_parsed : Option Endpoint → Bytes → Bytes → Result PathError Url
join_parsed none p query = err bad_endpoint
join_parsed (some ep) p query =
    if ep.host == []
    then err bad_endpoint
    else (let full = under_base (trim_suffix (text "/") ep.path) p in
        check_segments full
        >> ok (record { scheme = ep.scheme; host = ep.host; path = full; query = query }))

module _ (net : NetUrl) where
  unfoldable pub check_openstack_path : Bytes → Bytes → Result PathError (Bytes × Bytes)
  unfolding cut_query
  check_openstack_path service target = do
    fail_if (not (is_service service)) bad_service
    fail_if (is_among service denied_services) (denied_service service)
    let parts = cut_query target
    fail_if (not (is_path parts.0)) bad_path
    check_segments parts.0
    elim (net.reencode parts.1) [ err why ↦ err (bad_query why) | ok q ↦ ok (parts.0, q) ]

  unfoldable pub join_endpoint : Bytes → Bytes → Bytes → Result PathError Url
  unfolding join_parsed under_base
  join_endpoint endpoint p query = join_parsed (net.parse endpoint) p query

pub data SourceError : Type 0 where
  unknown_service : SourceError
  failed : Bytes → SourceError

-- OpenStackSource and its HTTP client, which keep a token.
pub record Source : Type 1 where
  pub State : Type 0
  pub endpoint : State → Bytes → State × Result SourceError (Bytes × Bytes)
  pub invalidate : State → State
  pub send : State → Url → Bytes → State × Result Bytes Answer

abbrev tool : Bytes
tool = text "broker:os"

abbrev os_args : Request → Args
os_args r =
    (text "method", r.method)
    ∷ (text "service", lookup_arg (text "service") r.values)
    ∷ (text "path", lookup_arg (text "path") r.values)
    ∷ []

abbrev source_code : SourceError → ℕ
source_code unknown_service = 404
source_code (failed why) = 502

abbrev pub unauthorized : ℕ
unauthorized = 401

-- The texts of refusals are not modelled.
pub record Texts : Type 0 where
  pub of_path : PathError → Bytes
  pub of_source : SourceError → Bytes

-- One round of the loop ends the request, or drops the token for another round.
pub data Round (S : Type 0) : Type 0 where
  done : S → Served Url → Round S
  again : S → List Url → Round S

module _ (net : NetUrl) (src : Source) (texts : Texts) (r : Request) where
  answered : List Url → Answer → Served Url
  answered asked a =
      let (body, truncated) = read_capped a.body in
      serve r tool (os_args r) asked (cut_reason truncated) a.code (body ++ notice_if truncated)
        (length body)

  -- From the answer on; `last` says that no round is left.
  on_answer : Bool → src.State → List Url → Result Bytes Answer → Round src.State
  on_answer last s asked (err why) =
      done s (refuse r tool (os_args r) asked 502 (text "openstack: " ++ why))
  on_answer last s asked (ok a) =
      if not (a.code == unauthorized) || last
      then done s (answered asked a)
      else again (src.invalidate s) asked

  -- From the URL on.
  on_url : Bool → src.State → List Url → Bytes → Result PathError Url → Round src.State
  on_url last s asked token (err e) = done s (refuse r tool (os_args r) asked 403 (texts.of_path e))
  on_url last s asked token (ok u) =
      let (s', resp) = src.send s u token in on_answer last s' (asked ++ u ∷ []) resp

  on_endpoint :
      Bool
      → src.State
      → List Url
      → Bytes
      → Bytes
      → Result SourceError (Bytes × Bytes)
      → Round src.State
  on_endpoint last s asked p query (err e) =
      done s (refuse r tool (os_args r) asked (source_code e) (texts.of_source e))
  on_endpoint last s asked p query (ok (endpoint, token)) =
      on_url last s asked token (join_endpoint net endpoint p query)

  unfoldable pub one_round : Bool → src.State → List Url → Bytes → Bytes → Round src.State
  unfolding on_endpoint on_url on_answer answered
  one_round last s asked p query =
      let (s', found) = src.endpoint s (lookup_arg (text "service") r.values) in
      on_endpoint last s' asked p query found

  finish : Round src.State → src.State × Served Url
  finish (done s served) = (s, served)
  finish (again s asked) = (s, refuse r tool (os_args r) asked 502 [])

  -- The second round, after a first one.
  then_last : Bytes → Bytes → Round src.State → src.State × Served Url
  unfolding one_round finish
  then_last p query (done s served) = (s, served)
  then_last p query (again s asked) = finish (one_round true s asked p query)

  -- The two rounds of `for attempt := 0; attempt < 2; attempt++`; the last one never asks for more.
  unfoldable pub attempts : src.State → Bytes → Bytes → src.State × Served Url
  unfolding one_round then_last
  attempts s p query = then_last p query (one_round false s [] p query)

  -- The handler; the flag says whether the node has an OpenStack source.
  unfoldable pub openstack : Bool → src.State → src.State × Served Url
  unfolding attempts
  openstack configured s =
      if not (r.method == method_get)
      then (s, refuse r tool (os_args r) [] 405 (text "only GET is forwarded"))
      else if not (r.path == text "/get")
      then (s, refuse r tool (os_args r) [] 404 (text "only /get?service=TYPE&path=PATH is served"))
      else if not configured
      then (s, refuse r tool (os_args r) [] 503 (text "no OpenStack credential on this node"))
      else elim (check_openstack_path net (lookup_arg (text "service") r.values)
          (lookup_arg (text "path") r.values)) [
            | err e ↦ (s, refuse r tool (os_args r) [] 403 (texts.of_path e))
            | ok (p, query) ↦ attempts s p query
          ]
