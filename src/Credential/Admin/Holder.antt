-- ===== src/Credential/Admin/Holder.antt =====
-- internal/openstack/admin.go as its clients see it: a holder of at most one grant, which a login that
-- fails leaves as it is.
pub mod Logins
pub mod Refinement
use mathlib.Core.Path.{subst}
use cube_advisor_agent.Base.{
  ℕ, ◌+◌, ◌≡◌, ◌≢◌, ◌⊎◌, inl, inr, refl, sym, ap, ◌∙◌, arith, Bool, true, false, not, ◌&&◌, ◌||◌,
  [], ◌∷◌, List, Option, none, some, Bytes, text, bytes_eq, bytes_beq, bytes_beq_iff, nat_eq, ◌==◌,
  if◌then◌else◌, Result, ok, err, ltb, Bool-cases, Result-cases, Option-cases,
}
use cube_advisor_agent.Base.Io.{continue_with}
use cube_advisor_agent.Os.{OsError}
use cube_advisor_agent.Credential.{Openrc}
use cube_advisor_agent.Credential.Admin.{
  Catalog, lookup, add_services, Admin, TokenAnswer, TokenResponse, AdminError, no_such_service,
  no_usable_token, bad_request, keystone_unreachable, credential_refused, ca_unreadable, ca_empty,
  Keystone, renew_margin, invalidate, State, set_ca, is_client_of, http, request_of, post,
  openrc_now, authenticate, is_fresh, found_in, endpoint, answered, usable, granted, trusting,
  with_ca,
}

pub record Grant : Type 0 where
  pub token : Bytes
  pub expires : ℕ
  pub catalog : Catalog

-- The grant that is held, if any, and the CA of the client.
pub record Holder : Type 0 where
  pub grant : Option Grant
  pub client : Option Bytes

module _ (k : Keystone) (path : Bytes) where
  -- What a login leaves: the client's CA and the world, and a token with its answer.
  abbrev pub Login : Type 0
  Login = (Option Bytes × k.World) × Result AdminError (Bytes × TokenResponse)

  abbrev pub usable_answer : TokenAnswer → Result AdminError (Bytes × TokenResponse)
  usable_answer answer =
      if answer.subject_token == [] then err no_usable_token else elim answer.decoded [
        | none ↦ err no_usable_token
        | some r ↦ ok (answer.subject_token, r)
      ]

  abbrev pub on_answer :
      k.World × Result Bytes TokenAnswer → k.World × Result AdminError (Bytes × TokenResponse)
  on_answer (w, err why) = (w, err (keystone_unreachable why))
  on_answer (w, ok answer) =
      if answer.code == 201 || answer.code == 200
      then (w, usable_answer answer)
      else (w, err (credential_refused answer.code))

  abbrev pub client_of : Option Bytes → Option Bytes
  client_of c = some (elim c [ none ↦ [] | some ca ↦ ca ])

  -- The request for a token, from a client of a CA.
  abbrev pub ask : Openrc → Option Bytes → k.World → Login
  ask o c w = elim (k.request_error (request_of k path o).url) [
    | some why ↦ ((c, w), err (bad_request why))
    | none ↦ let (w', r) = on_answer (k.send w (request_of k path o)) in ((client_of c, w'), r)
  ]

  abbrev pub trusts : Bytes → Option Bytes → k.World → Result AdminError (Option Bytes)
  trusts ca c w =
      if is_client_of k path c ca
      then ok c
      else if ca == []
      then ok (some ca)
      else elim (k.read_file w ca) [
        | err e ↦ err (ca_unreadable e)
        | ok pem ↦ if k.usable_roots pem then ok (some ca) else err (ca_empty ca)
      ]

  abbrev pub new_for : Option Bytes → Admin
  new_for c = record { token = []; expires = 0; catalog = []; client = c }

  -- A login with the openrc file as it is now, on behalf of a client.
  unfoldable pub login : Option Bytes → k.World → Login
  login c w = elim (openrc_now k path (new_for c, w)) [
    | err e ↦ ((c, w), err e)
    | ok o ↦ elim (trusts o.ca_cert c w) [ err e ↦ ((c, w), err e) | ok c' ↦ ask o c' w ]
  ]

  -- What a client sees of Admin.
  unfoldable pub view : Admin → Holder
  view a = record {
    grant =
        if a.token == []
        then none
        else some (record { token = a.token; expires = a.expires; catalog = a.catalog });
    client = a.client;
  }

  abbrev pub fresh_grant : Option Grant → k.World → Option Grant
  fresh_grant none w = none
  fresh_grant (some g) w = if ltb (k.now w + renew_margin) g.expires then some g else none

  abbrev pub served : Bytes → Bytes → Catalog → Result AdminError (Bytes × Bytes)
  served service token cat = elim (lookup service cat) [
    | none ↦ err no_such_service
    | some url ↦ ok (url, token)
  ]

  abbrev pub Seen : Type 0
  Seen = (Holder × k.World) × Result AdminError (Bytes × Bytes)

  abbrev pub kept : Holder → Bytes → Login → Seen
  kept h service ((c, w), err e) = ((record h { client = c }, w), err e)
  kept h service ((c, w), ok (token, r)) =
      let cat = add_services r.services [] in
      (
        (
          record {
            grant = some (record { token = token; expires = r.expires_at; catalog = cat });
            client = c;
          },
          w,
        ),
        served service token cat,
      )

  -- A grant that is fresh is used; otherwise a login is asked for, and kept if it is granted.
  unfoldable pub obtain : Bytes → Holder × k.World → Seen
  unfolding login
  obtain service (h, w) = elim (fresh_grant h.grant w) [
    | some g ↦ ((h, w), served service g.token g.catalog)
    | none ↦ kept h service (login h.client w)
  ]

  unfoldable pub drop_grant : Holder → Holder
  drop_grant h = record h { grant = none }

  -- What happens to Admin: a call of Endpoint, a call of Invalidate, or a change of the world.
  pub data Event : Type 0 where
    ask_for : Bytes → Event
    dropped : Event
    elapsed : (k.World → k.World) → Event

  -- What the calls of Endpoint return, one after the other.
  unfoldable pub run : List Event → State k path → List (Result AdminError (Bytes × Bytes))
  unfolding endpoint invalidate
  run [] s = []
  run (ask_for service ∷ more) s = let (s', r) = endpoint k path service s in r ∷ run more s'
  run (dropped ∷ more) (a, w) = run more (invalidate a, w)
  run (elapsed change ∷ more) (a, w) = run more (a, change w)

  unfoldable pub run_holder :
      List Event → Holder × k.World → List (Result AdminError (Bytes × Bytes))
  unfolding obtain drop_grant
  run_holder [] s = []
  run_holder (ask_for service ∷ more) s = let (s', r) = obtain service s in r ∷ run_holder more s'
  run_holder (dropped ∷ more) (h, w) = run_holder more (drop_grant h, w)
  run_holder (elapsed change ∷ more) (h, w) = run_holder more (h, change w)
