-- ===== src/Credential/Admin/Holder/Logins.antt =====
-- Authenticating is a login whose outcome Admin stores.
use cube_advisor_agent.Base.{
  ◌≡◌, ◌⊎◌, inl, inr, refl, sym, ap, ◌∙◌, false, ◌||◌, [], Option, some, Bytes, bytes_eq, nat_eq,
  ◌==◌, Result, ok, err, Bool-cases, Result-cases, Option-cases,
}
use cube_advisor_agent.Credential.{Openrc}
use cube_advisor_agent.Credential.Admin.{
  Catalog, add_services, Admin, TokenAnswer, TokenResponse, AdminError, ca_unreadable, ca_empty,
  Keystone, State, set_ca, is_client_of, http, request_of, post, openrc_now, authenticate, answered,
  usable,
}
use cube_advisor_agent.Credential.Admin.Holder.{
  Login, usable_answer, on_answer, client_of, ask, trusts, new_for, login,
}

module _ (k : Keystone) (path : Bytes) where
  abbrev pub store : Admin → Login k path → State k path × Result AdminError (Bytes × Catalog)
  store a ((c, w), err e) = ((record a { client = c }, w), err e)
  store a ((c, w), ok (token, r)) =
      let cat = add_services r.services [] in
      (
        (record { token = token; expires = r.expires_at; catalog = cat; client = c }, w),
        ok (token, cat),
      )

  usable-store :
      (a : Admin) (w : k.World) (answer : TokenAnswer)
      → usable k path (a, w) answer ≡ store a ((a.client, w), usable_answer k path answer)
  usable-store a w answer = elim (Bool-cases (answer.subject_token == [])) [
    | inl e ↦ rw e refl
    | inr e ↦ elim (Option-cases answer.decoded) [
      | inl bad ↦ rw (e, bad) refl
      | inr (r, good) ↦ rw (e, good) refl
    ]
  ]

  answered-store :
      (a : Admin) (got : k.World × Result Bytes TokenAnswer)
      → answered k path a got
        ≡ store a ((a.client, (on_answer k path got).0), (on_answer k path got).1)
  answered-store a (w, err why) = refl
  answered-store a (w, ok answer) = elim (Bool-cases (answer.code == 201)) [
    | inl e ↦ rw e (usable-store a w answer)
    | inr e ↦ elim (Bool-cases (answer.code == 200)) [
      | inl f ↦ rw (e, f) (usable-store a w answer)
      | inr f ↦ rw (e, f) refl
    ]
  ]

  store-client :
      (a : Admin) (c : Option Bytes) (l : Login k path)
      → store (record a { client = c }) l ≡ store a l
  store-client a c ((d, w), err e) = refl
  store-client a c ((d, w), ok (token, r)) = refl

  http-client : (a : Admin) → http k path a ≡ record a { client = client_of k path a.client }
  unfolding http
  http-client a = elim (Option-cases a.client) [
    | inl fresh ↦ rw (fresh, http) refl
    | inr (ca, held) ↦ rw (held, http) (ap (λ (c : Option Bytes). record a { client = c }) held)
  ]

  post-ask :
      (o : Openrc) (a : Admin) (w : k.World)
      → post k path o (a, w) ≡ store a (ask k path o a.client w)
  unfolding post
  post-ask o a w = elim (Option-cases (k.request_error (request_of k path o).url)) [
    | inr (why, e) ↦ rw (e, post, ask) refl
    | inl fine ↦
        let got = k.send w (request_of k path o) in
        let c = client_of k path a.client in
        let left : Login k path = ((c, (on_answer k path got).0), (on_answer k path got).1) in
        let posted : post k path o (a, w) ≡ answered k path (http k path a) got =
          rw (fine, post) refl in
        let asked : ask k path o a.client w ≡ left = rw (fine, ask) refl in
        posted
        ∙ ap (λ (x : Admin). answered k path x got) (http-client a)
        ∙ answered-store (record a { client = c }) got
        ∙ store-client a c left
        ∙ ap (store a) (sym asked)
  ]

  -- The trust in a CA, and what it does to Admin.
  set_ca-trusts :
      (ca : Bytes) (a : Admin) (w : k.World)
      → ((c : Option Bytes) × ((trusts k path ca a.client w ≡ ok c)
            × (set_ca k path ca (a, w) ≡ ((record a { client = c }, w), ok tt))))
        ⊎ ((e : AdminError) × ((trusts k path ca a.client w ≡ err e)
              × (set_ca k path ca (a, w) ≡ ((a, w), err e))))
  unfolding set_ca
  set_ca-trusts ca a w = elim (Bool-cases (is_client_of k path a.client ca)) [
    | inl held ↦ inl (a.client, (rw held refl, rw (held, set_ca) refl))
    | inr other ↦ elim (Bool-cases (ca == [])) [
      | inl none_named ↦
          inl (some ca, (rw (other, none_named) refl, rw (other, none_named, set_ca) refl))
      | inr named ↦ elim (Result-cases (k.read_file w ca)) [
        | inr (e, bad) ↦
            inr
              (ca_unreadable e, (rw (other, named, bad) refl, rw (other, named, bad, set_ca) refl))
        | inl (pem, read) ↦ elim (Bool-cases (k.usable_roots pem)) [
          | inl good ↦ inl (
            some ca,
            (rw (other, named, read, good) refl, rw (other, named, read, good, set_ca) refl),
          )
          | inr bad ↦ inr (
            ca_empty ca,
            (rw (other, named, read, bad) refl, rw (other, named, read, bad, set_ca) refl),
          )
        ]
      ]
    ]
  ]

  -- Whatever was held before, the outcome of a login is stored.
  pub authenticate-login :
      (a : Admin) (w : k.World) → authenticate k path (a, w) ≡ store a (login k path a.client w)
  unfolding authenticate login
  authenticate-login a w = elim (Result-cases (openrc_now k path (a, w))) [
    | inr (e, bad) ↦ rw (bad, login) refl
    | inl (o, read) ↦ elim (set_ca-trusts o.ca_cert a w) [
      | inl (c, (trusted, set)) ↦
          rw (read, set, login, trusted)
            (post-ask o (record a { client = c }) w ∙ store-client a c (ask k path o c w))
      | inr (e, (distrusted, unset)) ↦ rw (read, unset, login, distrusted) refl
    ]
  ]

  -- A token that a login gives is not empty.
  abbrev pub Granted : Result AdminError (Bytes × TokenResponse) → Type 0
  Granted (err e) = Unit
  Granted (ok (token, r)) = (token == []) ≡ false

  usable_answer-Granted : (answer : TokenAnswer) → Granted (usable_answer k path answer)
  usable_answer-Granted answer = elim (Bool-cases (answer.subject_token == [])) [
    | inl e ↦ rw (e, usable_answer) tt
    | inr e ↦ elim (Option-cases answer.decoded) [
      | inl bad ↦ rw (e, bad, usable_answer) tt
      | inr (r, good) ↦ rw (e, good, usable_answer) e
    ]
  ]

  on_answer-Granted : (got : k.World × Result Bytes TokenAnswer) → Granted (on_answer k path got).1
  on_answer-Granted (w, err why) = tt
  on_answer-Granted (w, ok answer) = elim (Bool-cases (answer.code == 201 || answer.code == 200)) [
    | inl e ↦ rw e (usable_answer-Granted answer)
    | inr e ↦ rw e tt
  ]

  ask-Granted : (o : Openrc) (c : Option Bytes) (w : k.World) → Granted (ask k path o c w).1
  ask-Granted o c w = elim (Option-cases (k.request_error (request_of k path o).url)) [
    | inr (why, e) ↦ rw (e, ask) tt
    | inl fine ↦ rw (fine, ask) (on_answer-Granted (k.send w (request_of k path o)))
  ]

  pub login-Granted : (c : Option Bytes) (w : k.World) → Granted (login k path c w).1
  unfolding login
  login-Granted c w = elim (Result-cases (openrc_now k path (new_for k path c, w))) [
    | inr (e, bad) ↦ rw (bad, login) tt
    | inl (o, read) ↦ elim (Result-cases (trusts k path o.ca_cert c w)) [
      | inr (e, bad) ↦ rw (read, bad, login) tt
      | inl (d, good) ↦ rw (read, good, login) (ask-Granted o d w)
    ]
  ]
