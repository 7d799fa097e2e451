-- ===== src/Identity/Enrolment.antt =====
-- internal/identity/enroll.go, and CSR and Fingerprint of identity.go. The new key, the certificate
-- request that is signed with it, and the HTTP client are parameters.
use cube_advisor_agent.Base.{
  ℕ, ◌*◌, ◌^◌, ◌++◌, [], take, Option, none, some, Bytes, text, bytes_eq, nat_eq, ◌==◌,
  if◌then◌else◌, Result, ok, err, ◌>>=◌, ◌>>◌, fail_if, trim_space, ◌||◌,
}
use cube_advisor_agent.Os.{Os}
use cube_advisor_agent.Proto.{version}
use cube_advisor_agent.Identity.Failures.{
  IdentityError, no_token, no_cluster, no_node, generate_failed, create_csr_failed,
  marshal_public_failed, encode_failed, request_failed, service_unreachable, token_rejected,
  enrollment_failed, unreadable_answer, no_certificate, already_enrolled,
}
use cube_advisor_agent.Identity.Store.{Pki, Identity, exists, tls_config, or_wrap}
use cube_advisor_agent.Identity.Writes.{save}

-- enrollproto.Request
pub record EnrollRequest : Type 0 where
  pub cluster_id : Bytes
  pub csr : Bytes
  pub fingerprint : Bytes
  pub agent_version : Bytes
  pub protocol_version : ℕ

-- enrollproto.Response
pub record EnrollResponse : Type 0 where
  pub certificate : Bytes
  pub ca : Bytes
  pub action_level : Bytes
  pub consent : Bytes
  pub console_ca : Bytes

-- enrollproto.Path
abbrev pub enroll_path : Bytes
enroll_path = text "/api/v1/enroll"

pub record HttpRequest : Type 0 where
  pub url : Bytes
  pub authorization : Bytes
  pub body : Bytes

pub record HttpAnswer : Type 0 where
  pub code : ℕ
  pub status : Bytes
  pub body : Bytes

-- What enrolment takes from the packages for keys, for JSON and for HTTP; `request_error` is the error
-- of http.NewRequestWithContext, if any.
pub record Outside (pki : Pki) : Type 0 where
  pub create_request : pki.Key → Bytes → Bytes → Result Bytes Bytes
  pub marshal_public : pki.Key → Result Bytes Bytes
  pub sha256 : Bytes → Bytes
  pub base64 : Bytes → Bytes
  pub encode : EnrollRequest → Result Bytes Bytes
  pub decode : Bytes → Result Bytes EnrollResponse
  pub request_error : Bytes → Option Bytes
  pub send : HttpRequest → Result Bytes HttpAnswer

abbrev pub max_message : ℕ
max_message = 2 * 2 ^ 10

abbrev pub max_enroll_answer : ℕ
max_enroll_answer = 2 ^ 20

pub record Enroller : Type 0 where
  pub base_url : Bytes
  pub agent_version : Bytes

module _ (pki : Pki) (out : Outside pki) where
  unfoldable pub csr : pki.Key → Bytes → Bytes → Result IdentityError Bytes
  csr k cluster node = do
    fail_if (cluster == []) no_cluster
    fail_if (node == []) no_node
    der ← or_wrap create_csr_failed (out.create_request k cluster node)
    ok (pki.pem_encode (text "CERTIFICATE REQUEST") der)

  unfoldable pub fingerprint : pki.Key → Result IdentityError Bytes
  fingerprint k = do
    spki ← or_wrap marshal_public_failed (out.marshal_public k)
    ok (text "SHA256:" ++ out.base64 (out.sha256 spki))

  -- The switch over the status, and what it does with the body.
  unfoldable pub check_status : HttpAnswer → Result IdentityError (Unit {0})
  check_status a =
      if a.code == 200 || a.code == 201
      then ok tt
      else if a.code == 401 || a.code == 403
      then err token_rejected
      else err (enrollment_failed a.status (trim_space (take max_message a.body)))

  abbrev pub of_answer : pki.Key → Bytes → Bytes → EnrollResponse → Identity pki.Key
  of_answer k cluster node a = record {
    cluster_id = cluster;
    node_id = node;
    action_level = a.action_level;
    consent = a.consent;
    console_ca = a.console_ca;
    key = k;
    cert_pem = a.certificate;
    ca_pem = a.ca;
  }

  abbrev pub post : Enroller → Bytes → Bytes → Result IdentityError HttpAnswer
  post e token body = elim (out.request_error (e.base_url ++ enroll_path)) [
    | some why ↦ err (request_failed why)
    | none ↦ or_wrap service_unreachable (
        out.send (record {
          url = e.base_url ++ enroll_path;
          authorization = text "Bearer " ++ token;
          body = body;
        }))
  ]

  abbrev pub asked : Enroller → Bytes → Bytes → Bytes → EnrollRequest
  asked e cluster request fp = record {
    cluster_id = cluster;
    csr = request;
    fingerprint = fp;
    agent_version = e.agent_version;
    protocol_version = version;
  }

  -- `made` is what NewKey gives.
  unfoldable pub enroll :
      Enroller
      → Result Bytes pki.Key
      → Bytes
      → Bytes
      → Bytes
      → Result IdentityError (Identity pki.Key)
  unfolding csr fingerprint check_status tls_config
  enroll e made cluster node token = do
    fail_if (token == []) no_token
    k ← or_wrap generate_failed made
    request ← csr k cluster node
    fp ← fingerprint k
    body ← or_wrap encode_failed (out.encode (asked e cluster request fp))
    answer ← post e token body
    check_status answer
    a ← or_wrap unreadable_answer (out.decode (take max_enroll_answer answer.body))
    fail_if (a.certificate == []) no_certificate
    let id = of_answer k cluster node a
    tls_config pki id
    ok id

  module _ (os : Os) where
    abbrev pub saved :
        Bytes
        → os.State
        → Result IdentityError (Identity pki.Key)
        → os.State × Result IdentityError (Identity pki.Key)
    saved dir s (err e) = (s, err e)
    saved dir s (ok id) = let (t, r) = save os pki dir id s in (t, r >>= λ _. ok id)

    unfoldable pub enroll_and_save :
        Enroller
        → Result Bytes pki.Key
        → os.State
        → Bytes
        → Bytes
        → Bytes
        → Bytes
        → os.State × Result IdentityError (Identity pki.Key)
    unfolding exists enroll save
    enroll_and_save e made s dir cluster node token =
        if exists os s dir
        then (s, err (already_enrolled dir))
        else saved dir s (enroll e made cluster node token)
