-- ===== src/Credential/Admin.antt =====
-- internal/openstack/admin.go: the token that Admin holds, and the endpoints that came with it.
pub mod Catalogs
pub mod Holder
use cube_advisor_agent.Base.{
  ℕ, ◌+◌, ◌*◌, Bool, true, false, not, ◌&&◌, ◌||◌, ◌++◌, [], ◌∷◌, List, Option, none, some, Bytes,
  text, bytes_eq, nat_eq, ◌==◌, if◌then◌else◌, Result, ok, err, ltb, trim_suffix,
}
use cube_advisor_agent.Base.Io.{Io, ◌>>=◌, ◌>>◌, return, lift}
use cube_advisor_agent.Os.{OsError}
use cube_advisor_agent.Credential.{Openrc, OpenrcError, read_openrc}

pub record CatalogEndpoint : Type 0 where
  pub interface_kind : Bytes
  pub url : Bytes

pub record CatalogService : Type 0 where
  pub service_type : Bytes
  pub endpoints : List CatalogEndpoint

-- tokenResponse
pub record TokenResponse : Type 0 where
  pub expires_at : ℕ
  pub services : List CatalogService

-- A map from service types to endpoints.
abbrev pub Catalog : Type 0
Catalog = List (Bytes × Bytes)

unfoldable pub lookup : Bytes → Catalog → Option Bytes
lookup service [] = none
lookup service ((k, url) ∷ cat) = if k == service then some url else lookup service cat

-- The zero value where a key is missing.
abbrev pub or_zero : Option Bytes → Bytes
or_zero none = []
or_zero (some url) = url

unfoldable pub add_endpoint : Bytes → CatalogEndpoint → Catalog → Catalog
unfolding lookup
add_endpoint service e cat =
    if e.interface_kind == text "internal"
      || (e.interface_kind == text "public" && or_zero (lookup service cat) == [])
    then (service, e.url) ∷ cat
    else cat

unfoldable pub add_endpoints : Bytes → List CatalogEndpoint → Catalog → Catalog
unfolding add_endpoint
add_endpoints service [] cat = cat
add_endpoints service (e ∷ es) cat = add_endpoints service es (add_endpoint service e cat)

unfoldable pub add_services : List CatalogService → Catalog → Catalog
unfolding add_endpoints
add_services [] cat = cat
add_services (s ∷ ss) cat = add_services ss (add_endpoints s.service_type s.endpoints cat)

-- The fields of Admin that change; the time is in seconds, and `client` the path of the CA that the
-- client trusts, none before there is a client.
pub record Admin : Type 0 where
  pub token : Bytes
  pub expires : ℕ
  pub catalog : Catalog
  pub client : Option Bytes

abbrev pub new_admin : Admin
new_admin = record { token = []; expires = 0; catalog = []; client = none }

pub record TokenRequest : Type 0 where
  pub url : Bytes
  pub credential : Openrc

-- `decoded` is the body as encoding/json reads its first 4 MiB, none where it cannot.
pub record TokenAnswer : Type 0 where
  pub code : ℕ
  pub subject_token : Bytes
  pub decoded : Option TokenResponse

pub data AdminError : Type 0 where
  no_such_service no_usable_token : AdminError
  bad_openrc : OpenrcError → AdminError
  ca_unreadable : OsError → AdminError
  ca_empty : Bytes → AdminError
  bad_request : Bytes → AdminError
  keystone_unreachable : Bytes → AdminError
  credential_refused : ℕ → AdminError

-- What Admin uses of the node and of Keystone: the clock, the openrc file and the CA's file, which may
-- change from call to call, and a request for a token.
pub record Keystone : Type 1 where
  pub World : Type 0
  pub now : World → ℕ
  pub read_file : World → Bytes → Result OsError Bytes
  pub usable_roots : Bytes → Bool
  pub request_error : Bytes → Option Bytes
  pub send : World → TokenRequest → World × Result Bytes TokenAnswer

abbrev pub renew_margin : ℕ
renew_margin = 5 * 60

unfoldable pub invalidate : Admin → Admin
invalidate a = record a { token = [] }

module _ (k : Keystone) (path : Bytes) where
  abbrev pub State : Type 0
  State = Admin × k.World

  abbrev pub with_ca : Bytes → State → State × Result AdminError (Unit {0})
  with_ca ca (a, w) = ((record a { client = some ca }, w), ok tt)

  abbrev pub trusting : Bytes → State → Result OsError Bytes → State × Result AdminError (Unit {0})
  trusting ca s (err e) = (s, err (ca_unreadable e))
  trusting ca s (ok pem) = if k.usable_roots pem then with_ca ca s else (s, err (ca_empty ca))

  abbrev pub is_client_of : Option Bytes → Bytes → Bool
  is_client_of none ca = false
  is_client_of (some c) ca = c == ca

  unfoldable pub set_ca : Bytes → State → State × Result AdminError (Unit {0})
  set_ca ca (a, w) =
      if is_client_of a.client ca
      then ((a, w), ok tt)
      else if not (ca == [])
      then trusting ca (a, w) (k.read_file w ca)
      else with_ca ca (a, w)

  -- HTTP
  unfoldable pub http : Admin → Admin
  http a = elim a.client [ none ↦ record a { client = some [] } | some c ↦ a ]

  abbrev pub granted : State → Bytes → TokenResponse → State × Result AdminError (Bytes × Catalog)
  granted (a, w) token r =
      let cat = add_services r.services [] in
      ((record a { token = token; expires = r.expires_at; catalog = cat }, w), ok (token, cat))

  abbrev pub usable : State → TokenAnswer → State × Result AdminError (Bytes × Catalog)
  usable s answer =
      if answer.subject_token == [] then (s, err no_usable_token) else elim answer.decoded [
        | none ↦ (s, err no_usable_token)
        | some r ↦ granted s answer.subject_token r
      ]

  abbrev pub answered :
      Admin → k.World × Result Bytes TokenAnswer → State × Result AdminError (Bytes × Catalog)
  answered a (w, err why) = ((a, w), err (keystone_unreachable why))
  answered a (w, ok answer) =
      if not (answer.code == 201) && not (answer.code == 200)
      then ((a, w), err (credential_refused answer.code))
      else usable (a, w) answer

  abbrev pub request_of : Openrc → TokenRequest
  request_of o = record {
    url = trim_suffix (text "/") o.auth_url ++ text "/auth/tokens";
    credential = o;
  }

  unfoldable pub post : Openrc → Io State AdminError (Bytes × Catalog)
  unfolding http add_services
  post o (a, w) = elim (k.request_error (request_of o).url) [
    | some why ↦ ((a, w), err (bad_request why))
    | none ↦ answered (http a) (k.send w (request_of o))
  ]

  abbrev pub openrc_now : State → Result AdminError Openrc
  openrc_now (a, w) = elim (read_openrc (k.read_file w path)) [
    | err e ↦ err (bad_openrc e)
    | ok o ↦ ok o
  ]

  unfoldable pub authenticate : Io State AdminError (Bytes × Catalog)
  unfolding set_ca post
  authenticate s = (do o ← lift (openrc_now s); set_ca o.ca_cert; post o) s

  -- token != "" && now < expires - margin
  unfoldable pub is_fresh : State → Bool
  is_fresh (a, w) = not (a.token == []) && ltb (k.now w + renew_margin) a.expires

  abbrev pub found_in : Bytes → Bytes × Catalog → Io State AdminError (Bytes × Bytes)
  found_in service (token, cat) s = elim (lookup service cat) [
    | none ↦ (s, err no_such_service)
    | some url ↦ (s, ok (url, token))
  ]

  unfoldable pub endpoint : Bytes → Io State AdminError (Bytes × Bytes)
  unfolding is_fresh authenticate lookup
  endpoint service s =
      if is_fresh s
      then found_in service (s.0.token, s.0.catalog) s
      else (authenticate >>= found_in service) s
