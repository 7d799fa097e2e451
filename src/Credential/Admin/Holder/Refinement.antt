-- ===== src/Credential/Admin/Holder/Refinement.antt =====
-- Admin does for its clients what a holder of at most one grant does.
use cube_advisor_agent.Base.{
  ◌≡◌, inl, inr, refl, sym, ap, ◌∙◌, false, [], ◌∷◌, List, none, some, Bytes, bytes_eq, bytes_beq,
  ◌==◌, if◌then◌else◌, Result, ok, err, Bool-cases, Option-cases,
}
use cube_advisor_agent.Base.Io.{continue_with}
use cube_advisor_agent.Credential.Admin.{
  Catalog, lookup, add_services, Admin, AdminError, Keystone, invalidate, State, authenticate,
  is_fresh, found_in, endpoint,
}
use cube_advisor_agent.Credential.Admin.Holder.{
  Holder, Login, login, view, fresh_grant, served, Seen, kept, obtain, drop_grant, Event, ask_for,
  dropped, elapsed, run, run_holder,
}
use cube_advisor_agent.Credential.Admin.Holder.Logins.{
  store, Granted, authenticate-login, login-Granted,
}

module _ (k : Keystone) (path : Bytes) where
  abbrev viewed : State k path × Result AdminError (Bytes × Bytes) → Seen k path
  viewed ((a, w), r) = ((view k path a, w), r)

  found_in-served :
      (service token : Bytes) (cat : Catalog) (s : State k path)
      → found_in k path service (token, cat) s ≡ (s, served k path service token cat)
  found_in-served service token cat s = elim (Option-cases (lookup service cat)) [
    | inl nothing ↦ rw (nothing, found_in, served) refl
    | inr (url, found) ↦ rw (found, found_in, served) refl
  ]

  view-held :
      (a : Admin)
      → (a.token == []) ≡ false
      → view k path a ≡ record {
        grant = some (record { token = a.token; expires = a.expires; catalog = a.catalog });
        client = a.client;
      }
  unfolding view
  view-held a h = rw (h, view) refl

  stored-kept :
      (service : Bytes) (a : Admin) (l : Login k path)
      → Granted k path l.1
      → viewed (continue_with (store k path a l) (found_in k path service))
        ≡ kept k path (view k path a) service l
  unfolding view
  stored-kept service a ((c, w), err e) h = refl
  stored-kept service a ((c, w), ok (token, r)) h =
      let cat = add_services r.services [] in
      let now : Admin = record {
        token = token;
        expires = r.expires_at;
        catalog = cat;
        client = c;
      } in
      ap viewed (found_in-served service token cat (now, w))
      ∙ ap (λ (x : Holder). ((x, w), served k path service token cat)) (view-held now h)

  logged_in :
      (service : Bytes) (a : Admin) (w : k.World)
      → viewed (continue_with (authenticate k path (a, w)) (found_in k path service))
        ≡ kept k path (view k path a) service (login k path a.client w)
  logged_in service a w =
      ap
        (λ (x : State k path × Result AdminError (Bytes × Catalog)).
          viewed (continue_with x (found_in k path service)))
        (authenticate-login k path a w)
      ∙ stored-kept service a (login k path a.client w) (login-Granted k path a.client w)

  -- The grant is fresh for a client exactly if Admin takes its token for usable.
  fresh-view :
      (a : Admin) (w : k.World)
      → fresh_grant k path (view k path a).grant w ≡ (
          if is_fresh k path (a, w)
          then some (record { token = a.token; expires = a.expires; catalog = a.catalog })
          else none)
  unfolding view is_fresh
  fresh-view a w = elim (Bool-cases (a.token == [])) [
    | inl empty ↦ rw (empty, view, is_fresh) refl
    | inr held ↦ rw (held, view, is_fresh) refl
  ]

  -- One call of Endpoint, seen by a client.
  endpoint-obtain :
      (service : Bytes) (a : Admin) (w : k.World)
      → viewed (endpoint k path service (a, w)) ≡ obtain k path service (view k path a, w)
  unfolding endpoint obtain view
  endpoint-obtain service a w = elim (Bool-cases (is_fresh k path (a, w))) [
    | inl fresh ↦
        let here : endpoint k path service (a, w)
            ≡ found_in k path service (a.token, a.catalog) (a, w) =
          rw (fresh, endpoint) refl in
        let there : obtain k path service (view k path a, w)
            ≡ ((view k path a, w), served k path service a.token a.catalog) =
          rw (obtain, fresh-view a w, fresh) refl in
        ap viewed (here ∙ found_in-served service a.token a.catalog (a, w)) ∙ sym there
    | inr stale ↦
        let here : endpoint k path service (a, w)
            ≡ continue_with (authenticate k path (a, w)) (found_in k path service) =
          rw (stale, endpoint) refl in
        let there : obtain k path service (view k path a, w)
            ≡ kept k path (view k path a) service (login k path (view k path a).client w) =
          rw (obtain, fresh-view a w, stale) refl in
        ap viewed here ∙ logged_in service a w ∙ sym there
  ]

  invalidate-drop_grant :
      (a : Admin) → view k path (invalidate a) ≡ drop_grant k path (view k path a)
  unfolding view invalidate drop_grant bytes_beq
  invalidate-drop_grant a = refl

  -- For every sequence of calls and changes of the world, Admin returns what a holder of at most one
  -- grant returns, that uses its grant while it is more than five minutes from its end, logs in anew
  -- otherwise, and keeps what it has when a login fails.
  pub run-run_holder :
      (events : List (Event k path)) (a : Admin) (w : k.World)
      → run k path events (a, w) ≡ run_holder k path events (view k path a, w)
  unfolding run run_holder
  run-run_holder [] a w = refl
  run-run_holder (ask_for service ∷ more) a w =
      let got = endpoint k path service (a, w) in
      ap (λ (l : List (Result AdminError (Bytes × Bytes))). got.1 ∷ l)
        (run-run_holder more got.0.0 got.0.1)
      ∙ ap (λ (x : Seen k path). x.1 ∷ run_holder k path more x.0) (endpoint-obtain service a w)
  run-run_holder (dropped ∷ more) a w =
      run-run_holder more (invalidate a) w
      ∙ ap (λ (h : Holder). run_holder k path more (h, w)) (invalidate-drop_grant a)
  run-run_holder (elapsed change ∷ more) a w = run-run_holder more a (change w)
