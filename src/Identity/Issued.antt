-- ===== src/Identity/Issued.antt =====
-- What Enroll has seen of the service when it returns an identity.
use cube_advisor_agent.Base.{
  ◌≡◌, ◌≢◌, ◌⊎◌, inl, inr, refl, ◌++◌, ◌^◌, [], arith, Bytes, text, bytes_beq_iff, bytes_eq, nat_eq,
  ◌==◌, Result, ok, err, fail_if, take, bind-eq-ok, fail_if-eq-ok, ok_injective, Option-cases,
}
use mathlib.Core.Path.{subst}
use cube_advisor_agent.Identity.Failures.{
  IdentityError, no_token, no_cluster, no_node, no_certificate, generate_failed, unreadable_answer,
  encode_failed, service_unreachable,
}
use cube_advisor_agent.Identity.Store.{Pki, Identity, tls_config, or_wrap}
use cube_advisor_agent.Identity.Enrolment.{
  Outside, Enroller, EnrollResponse, HttpRequest, HttpAnswer, csr, fingerprint, check_status,
  enroll, asked, post, of_answer, max_enroll_answer, enroll_path,
}

or_wrap-eq-ok :
    {E F A : Type 0} (wrap : E → F) (r : Result E A) {a : A} → or_wrap wrap r ≡ ok a → r ≡ ok a
or_wrap-eq-ok wrap (ok b) h = cc
or_wrap-eq-ok wrap (err e) h = absurd (ground arith)

not_empty : (b : Bytes) (e : IdentityError) → fail_if (b == []) e ≡ ok tt → b ≢ []
not_empty b e h same = let f = fail_if-eq-ok (b == []) e h in ground (arith, bytes_beq_iff b [])

module _ (pki : Pki) (out : Outside pki) where
  -- The identity's certificate, CA and dials are those of a decoded answer.
  abbrev pub IsOf : EnrollResponse → Identity pki.Key → Type 0
  IsOf r id =
      (id.cert_pem ≡ r.certificate)
      × ((id.ca_pem ≡ r.ca)
          × ((id.action_level ≡ r.action_level)
              × ((id.consent ≡ r.consent) × (id.console_ca ≡ r.console_ca))))

  -- The service took the token, answered 200 or 201, and its answer, up to the bound, is what the
  -- identity was made of.
  abbrev pub Accepted : Bytes → Identity pki.Key → Type 0
  Accepted token id =
      (q : HttpRequest) × ((a : HttpAnswer) × ((r : EnrollResponse) × ((out.send q ≡ ok a)
            × ((q.authorization ≡ text "Bearer " ++ token)
                × (((a.code ≡ 200) ⊎ (a.code ≡ 201))
                    × ((out.decode (take (2 ^ 20) a.body) ≡ ok r) × IsOf r id))))))

  -- What an enrolment that succeeded gives.
  abbrev pub IsIssued : Result Bytes pki.Key → Bytes → Bytes → Bytes → Identity pki.Key → Type 0
  IsIssued made cluster node token id =
      ((token ≢ []) × ((cluster ≢ []) × (node ≢ [])))
      × ((made ≡ ok id.key)
          × (((id.cluster_id ≡ cluster) × (id.node_id ≡ node))
              × ((id.cert_pem ≢ [])
                  × ((tls_config pki id ≡ ok tt)
                      × (Accepted token id
                          × ((fp : Bytes) × (fingerprint pki out id.key ≡ ok fp)))))))

  csr-names :
      (k : pki.Key) (cluster node request : Bytes)
      → csr pki out k cluster node ≡ ok request
      → (cluster ≢ []) × (node ≢ [])
  unfolding csr
  csr-names k cluster node request h =
      let (_, c, h1) = bind-eq-ok (fail_if (cluster == []) no_cluster) _ h in
      let (_, n, h2) = bind-eq-ok (fail_if (node == []) no_node) _ h1 in
      (not_empty cluster no_cluster c, not_empty node no_node n)

  check_status-success :
      (a : HttpAnswer) → check_status pki out a ≡ ok tt → (a.code ≡ 200) ⊎ (a.code ≡ 201)
  unfolding check_status
  check_status-success a h = ground arith

  abbrev sent : Enroller → Bytes → Bytes → HttpRequest
  sent e token body = record {
    url = e.base_url ++ enroll_path;
    authorization = text "Bearer " ++ token;
    body = body;
  }

  post-sent :
      (e : Enroller) (token body : Bytes) (a : HttpAnswer)
      → post pki out e token body ≡ ok a
      → (q : HttpRequest) × ((out.send q ≡ ok a) × (q.authorization ≡ text "Bearer " ++ token))
  post-sent e token body a h = elim (Option-cases (out.request_error (e.base_url ++ enroll_path))) [
    | inl fine ↦
        let posted : or_wrap service_unreachable (out.send (sent e token body)) ≡ ok a =
          ground arith in
        (sent e token body, (or_wrap-eq-ok service_unreachable _ posted, refl))
    | inr (why, bad) ↦ absurd (ground arith)
  ]

  pub enroll-IsIssued :
      (e : Enroller) (made : Result Bytes pki.Key) (cluster node token : Bytes)
      (id : Identity pki.Key)
      → enroll pki out e made cluster node token ≡ ok id
      → IsIssued made cluster node token id
  unfolding enroll
  enroll-IsIssued e made cluster node token id h =
      let (_, given, h1) = bind-eq-ok (fail_if (token == []) no_token) _ h in
      let (k, key, h2) = bind-eq-ok (or_wrap generate_failed made) _ h1 in
      let (request, signed, h3) = bind-eq-ok (csr pki out k cluster node) _ h2 in
      let (fp, printed, h4) = bind-eq-ok (fingerprint pki out k) _ h3 in
      let (body, _, h5) =
        bind-eq-ok (or_wrap encode_failed (out.encode (asked pki out e cluster request fp))) _ h4 in
      let (answer, sent, h6) = bind-eq-ok (post pki out e token body) _ h5 in
      let (_, fine, h7) = bind-eq-ok (check_status pki out answer) _ h6 in
      let (a, read, h8) =
        bind-eq-ok (or_wrap unreadable_answer (out.decode (take max_enroll_answer answer.body))) _
          h7 in
      let (_, some_cert, h9) = bind-eq-ok (fail_if (a.certificate == []) no_certificate) _ h8 in
      let (_, matching, last) =
        bind-eq-ok (tls_config pki (of_answer pki out k cluster node a)) _ h9 in
      let same : of_answer pki out k cluster node a ≡ id = ok_injective last in
      let (q, (got, named)) = post-sent e token body answer sent in
      let shown : IsIssued made cluster node token (of_answer pki out k cluster node a) = (
        (not_empty token no_token given, csr-names k cluster node request signed),
        (
          or_wrap-eq-ok generate_failed made key,
          (
            (refl, refl),
            (
              not_empty a.certificate no_certificate some_cert,
              (
                matching,
                (
                  (
                    q,
                    (
                      answer,
                      (
                        a,
                        (
                          got,
                          (
                            named,
                            (
                              check_status-success answer fine,
                              (
                                or_wrap-eq-ok unreadable_answer _ read,
                                (refl, (refl, (refl, (refl, refl)))),
                              ),
                            ),
                          ),
                        ),
                      ),
                    ),
                  ),
                  (fp, printed),
                ),
              ),
            ),
          ),
        ),
      ) in
      subst (λ (x : Identity pki.Key). IsIssued made cluster node token x) same shown
