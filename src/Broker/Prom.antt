-- ===== src/Broker/Prom.antt =====
-- internal/broker/broker.go: the Prometheus broker.
pub mod Forwarding
use cube_advisor_agent.Base.{
  ℕ, Bool, true, false, not, ◌&&◌, ◌||◌, ◌++◌, [], ◌∷◌, List, Option, none, some, Bytes, text,
  bytes_eq, ◌==◌, if◌then◌else◌, Result, ok, err, length, has_prefix, trim_suffix, contains,
}
use cube_advisor_agent.Toolplane.Sandbox.{Args}
use cube_advisor_agent.Broker.{
  Request, Served, Answer, method_get, refuse, serve, read_capped, cut_reason, notice_if,
}

abbrev pub prom_denied : List Bytes
prom_denied =
    text "/api/v1/admin/"
    ∷ text "/api/v1/write"
    ∷ text "/api/v1/otlp/"
    ∷ text "/api/v1/status/config"
    ∷ text "/-/"
    ∷ []

unfoldable pub is_denied : List Bytes → Bytes → Bool
is_denied [] p = false
is_denied (d ∷ ds) p = has_prefix d p || p == trim_suffix (text "/") d || is_denied ds p

-- What http.NewRequestWithContext makes of the text of a URL: the URL as net/url parses it, or none
-- where it returns an error. The client sends the path with the escapes that the text has.
pub record PromUrl : Type 0 where
  pub host : Bytes
  pub path : Bytes
  pub query : Bytes

-- How the handler ends. A panic ends the request's goroutine, with nothing recorded or answered.
pub data Handled : Type 0 where
  returned : Served PromUrl → Handled
  panicked : Handled

abbrev tool : Bytes
tool = text "broker:prom"

abbrev prom_args : Request → Args
prom_args r = (text "path", r.path) ∷ (text "query", r.raw_query) ∷ []

-- The text of the URL that is asked for; net/http has decoded the request's path.
abbrev pub prom_url : Bytes → Request → Bytes
prom_url base r = base ++ (r.path ++ (b'?' ∷ []) ++ r.raw_query)

-- Client.Do gives an error's text, or the answer; it panics on the nil request of a text that
-- NewRequestWithContext, whose error is dropped, refused.
module _ (base : Bytes) (new_request : Bytes → Option PromUrl)
    (client : PromUrl → Result Bytes Answer) where
  exchange : Request → Option PromUrl → Handled
  exchange r none = panicked
  exchange r (some asked) = elim (client asked) [
    | err why ↦ returned (refuse r tool (prom_args r) (asked ∷ []) 502 (text "prometheus: " ++ why))
    | ok a ↦
        let (body, truncated) = read_capped a.body in
        returned (
          serve r tool (prom_args r) (asked ∷ []) (cut_reason truncated) a.code
            (body ++ notice_if truncated) (length body))
  ]

  forward : Request → Handled
  unfolding exchange
  forward r = exchange r (new_request (prom_url base r))

  unfoldable pub prom : Request → Handled
  unfolding forward is_denied
  prom r =
      if not (r.method == method_get)
      then returned (refuse r tool (prom_args r) [] 405 (text "only GET is forwarded"))
      else if not (has_prefix (text "/api/v1/") r.path) || contains (text "..") r.path
      then returned (refuse r tool (prom_args r) [] 403 (text "only /api/v1/ paths are forwarded"))
      else if is_denied prom_denied r.path
      then returned
          (refuse r tool (prom_args r) [] 403 (r.path ++ text " writes or exposes configuration"))
      else forward r
