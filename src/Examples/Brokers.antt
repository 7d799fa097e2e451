-- ===== src/Examples/Brokers.antt =====
-- internal/broker on concrete requests.
use cube_advisor_agent.Base.{
  Option, Bool, has_prefix, drop, nat_beq, ℕ, suc, ◌<◌, ◌-◌, ◌^◌, ◌==◌, nat_eq, if◌then◌else◌,
  trim_suffix, contains, to_lower, ◌≡◌, ◌≢◌, ◌↔◌, ◌⊎◌, refl, true, false, none, some, [], ◌∷◌, List,
  map, Bytes, text, Result, ok, err, bytes_beq, cut,
}
use cube_advisor_agent.Broker.{Request, Answer, method_get, refuse, serve, read_capped}
use cube_advisor_agent.Broker.Ceph.{CephCommand, strip_format, is_pg_query, check_ceph_args}
use cube_advisor_agent.Broker.Ceph.Admission.{IsReadOnly, check_ceph_args_iff}
use cube_advisor_agent.Broker.CephServer.{CephNode, TableCache, Run, ceph_table, ceph, hour}
use cube_advisor_agent.Broker.CephServer.Cache.{ceph_table_fresh}
use cube_advisor_agent.Broker.CephServer.Serving.{Admits, ceph-IsAdmitted}
use cube_advisor_agent.Broker.Prom.{PromUrl, Handled, returned, panicked, prom, is_denied}
use cube_advisor_agent.Broker.Prom.Forwarding.{IsRead, IsForwarded, IsReturned, prom_asked}
use cube_advisor_agent.Broker.Host.{HostCommand, host}
use cube_advisor_agent.Broker.Host.Commands.{Bounded, host-Bounded}
use cube_advisor_agent.Broker.OpenStack.{
  NetUrl, Url, Source, Texts, check_openstack_path, join_endpoint, openstack, is_service, is_among,
  is_path, check_segments, check_segment,
}
use cube_advisor_agent.Broker.OpenStack.Retries.{IsOutcome, openstack-IsOutcome}

abbrev osd_tree : CephCommand
osd_tree = record { sig = map text ("osd" ∷ "tree" ∷ []); rest = false; perm = text "r" }

abbrev osd_out : CephCommand
osd_out = record { sig = text "osd" ∷ text "out" ∷ [] ∷ []; rest = true; perm = text "rw" }

abbrev table : List CephCommand
table = osd_tree ∷ osd_out ∷ []

abbrev tree_args : List Bytes
tree_args = map text ("osd" ∷ "tree" ∷ "-f" ∷ "json" ∷ [])

check_ceph_args_example : (check_ceph_args table tree_args ≡ ok tt) ↔ (
    (words : List Bytes) × (strip_format tree_args ≡ ok words)
    × (words ≢ [])
    × ((is_pg_query words ≡ true) ⊎ IsReadOnly table words))
check_ceph_args_example = check_ceph_args_iff table tree_args

abbrev ceph_node : CephNode
ceph_node = record {
  read_table = ok table;
  run = λ words. record { out = text "tree"; err_out = []; error = none };
  now = 2 ^ 60;
  refusal = λ e. text "refused";
}

abbrev no_cache : TableCache
no_cache = record { table = []; read_at = 0 }

ceph_table_example :
    ((t : List CephCommand) × (((ceph_table ceph_node no_cache).1 ≡ ok t)
        × ((ceph_table ceph_node no_cache).0.table ≡ t)
        × (ceph_node.now - (ceph_table ceph_node no_cache).0.read_at < hour)))
    ⊎ ((why : Bytes) × (((ceph_table ceph_node no_cache).1 ≡ err why)
          × ((ceph_table ceph_node no_cache).0 ≡ no_cache)
          × (ceph_node.read_table ≡ err why)))
ceph_table_example = ceph_table_fresh ceph_node no_cache

abbrev tree_request : Request
tree_request = record {
  method = text "POST";
  path = text "/";
  raw_query = [];
  values = [];
  query_error = none;
  call = text "call-1";
  decoded = some tree_args;
}

ceph_example : Admits ceph_node no_cache tree_request (ceph ceph_node no_cache tree_request).1
ceph_example = ceph-IsAdmitted ceph_node no_cache tree_request

abbrev up_request : Request
up_request = record {
  method = method_get;
  path = text "/api/v1/query";
  raw_query = text "query=up";
  values = (text "query", text "up") ∷ [];
  query_error = none;
  call = [];
  decoded = none;
}

abbrev up_client : PromUrl → Result Bytes Answer
up_client u = ok (record { code = 200; body = text "{}" })

abbrev prom_base : Bytes
prom_base = text "http://h"

abbrev before : Bytes → Option (Bytes × Bytes) → Bytes
before u (some (path, query)) = path
before u none = u

abbrev behind : Option (Bytes × Bytes) → Bytes
behind (some (path, query)) = query
behind none = []

ends_in_percent : Bytes → Bool
ends_in_percent [] = false
ends_in_percent (c ∷ []) = nat_beq c b'%'
ends_in_percent (c ∷ d ∷ s) = ends_in_percent (d ∷ s)

-- The URL is cut at its first question mark; an escape that is cut short does not parse.
abbrev parse_url : Bytes → Option PromUrl
parse_url u =
    if ends_in_percent (before (drop 8 u) (cut (b'?' ∷ []) (drop 8 u)))
    then none
    else some (record {
      host = text "h";
      path = before (drop 8 u) (cut (b'?' ∷ []) (drop 8 u));
      query = behind (cut (b'?' ∷ []) (drop 8 u));
    })

prom_example :
    (IsRead up_request
      × IsForwarded prom_base parse_url up_client up_request
          (prom prom_base parse_url up_client up_request))
    ⊎ ((¬ IsRead up_request) × IsReturned [] (prom prom_base parse_url up_client up_request))
prom_example = prom_asked prom_base parse_url up_client up_request

abbrev asked_paths : Handled → List Bytes
asked_paths (returned s) = map (λ (u : PromUrl). u.path) s.asked
asked_paths panicked = []

-- A path that was escaped twice passes the deny list, and is asked for with the escape that is left.
escaped_config :
    asked_paths (
      prom prom_base parse_url up_client
        (record up_request { path = text "/api/v1/status/%63onfig" }))
    ≡ text "/api/v1/status/%63onfig" ∷ []
unfolding prom is_denied cut contains has_prefix ends_in_percent text bytes_beq trim_suffix refuse
    serve read_capped
escaped_config = refl

-- A question mark that was escaped ends the path that is asked for.
escaped_question :
    asked_paths
      (prom prom_base parse_url up_client (record up_request { path = text "/api/v1/labels?x" }))
    ≡ text "/api/v1/labels" ∷ []
unfolding prom is_denied cut contains has_prefix ends_in_percent text bytes_beq trim_suffix refuse
    serve read_capped
escaped_question = refl

-- An escape that is cut short panics the handler.
escape_panics :
    prom prom_base parse_url up_client (record up_request { path = text "/api/v1/labels%" })
    ≡ panicked
unfolding prom is_denied cut contains has_prefix ends_in_percent text bytes_beq trim_suffix
escape_panics = refl

abbrev unit_request : Request
unit_request = record {
  method = method_get;
  path = text "/unit";
  raw_query = text "name=sshd.service";
  values = (text "name", text "sshd.service") ∷ [];
  query_error = none;
  call = [];
  decoded = none;
}

abbrev host_run : HostCommand → Run
host_run c = record { out = text "Id=sshd.service"; err_out = []; error = none }

host_example : Bounded host_run [] (host host_run [] unit_request)
host_example = host-Bounded host_run [] unit_request

abbrev net : NetUrl
net = record {
  reencode = λ q. ok q;
  parse =
      λ e. some (record { scheme = text "https"; host = text "nova:8774"; path = text "/v2.1/" });
}

abbrev servers : Bytes
servers = text "/servers/detail?limit=5"

servers_checked :
    check_openstack_path net (text "compute") servers ≡ ok (text "/servers/detail", text "limit=5")
unfolding check_openstack_path is_service text is_among bytes_beq is_path cut check_segments
    check_segment contains to_lower
servers_checked = refl

abbrev servers_url : Url
servers_url = record {
  scheme = text "https";
  host = text "nova:8774";
  path = text "/v2.1/servers/detail";
  query = text "limit=5";
}

servers_joined :
    join_endpoint net (text "https://nova:8774/v2.1/") (text "/servers/detail") (text "limit=5")
    ≡ ok servers_url
unfolding join_endpoint bytes_beq text check_segments check_segment trim_suffix contains to_lower
servers_joined = refl

-- A source whose first token has expired.
abbrev source : Source
source = record {
  State = ℕ;
  endpoint = λ s service. (s, ok (text "https://nova:8774/v2.1/", text "token"));
  invalidate = λ s. suc s;
  send = λ s u token. (s, ok (record { code = if s == 0 then 401 else 200; body = text "{}" }));
}

abbrev texts : Texts
texts = record { of_path = λ e. text "path"; of_source = λ e. text "source" }

abbrev servers_request : Request
servers_request = record {
  method = method_get;
  path = text "/get";
  raw_query = [];
  values = (text "service", text "compute") ∷ (text "path", servers) ∷ [];
  query_error = none;
  call = [];
  decoded = none;
}

openstack_example :
    IsOutcome net source texts servers_request 0 true
      (openstack net source texts servers_request true 0).1
openstack_example = openstack-IsOutcome net source texts servers_request true 0
