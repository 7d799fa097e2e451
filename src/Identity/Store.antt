-- ===== src/Identity/Store.antt =====
-- internal/identity/identity.go: the files that hold a node's identity. Packages crypto/x509,
-- crypto/tls and encoding/pem are parameters.
use cube_advisor_agent.Base.{
  ℕ, ◌≡◌, Bool, not, ◌++◌, [], ◌∷◌, List, length, Option, none, some, Bytes, text, bytes_eq, nat_eq,
  ◌==◌, if◌then◌else◌, Result, ok, err, bit_and, ◌>>=◌, ◌>>◌, fail_if, trim_space, is_ok, ◌&&◌,
}
use cube_advisor_agent.Os.{Os, OsError, FilePath, is_not_exist}
use cube_advisor_agent.Identity.Failures.{
  IdentityError, read_key, read_certificate, read_server, no_key, loose_mode, key_not_pem,
  certificate_not_pem, unusable_ca, certificate_unparsed, wrong_units, marshal_key_failed,
  parse_key_failed, mismatched,
}

-- What x509.ParseCertificate finds in a certificate's subject.
pub record Subject : Type 0 where
  pub common_name : Bytes
  pub units : List Bytes

pub record Pki : Type 1 where
  pub Key : Type 0
  pub marshal_key : Key → Result Bytes Bytes
  pub parse_key : Bytes → Result Bytes Key
  -- pem.EncodeToMemory of a block with a type, and the bytes of the first block that pem.Decode finds
  pub pem_encode : Bytes → Bytes → Bytes
  pub pem_decode : Bytes → Option Bytes
  pub parse_certificate : Bytes → Result Bytes Subject
  -- tls.X509KeyPair of a certificate and a key
  pub key_pair : Bytes → Bytes → Result Bytes (Unit {0})
  -- whether AppendCertsFromPEM took a certificate
  pub usable_roots : Bytes → Bool

-- What is read back is what was written.
pub record IsFaithful (pki : Pki) : Type 0 where
  pub decode_encoded : (kind b : Bytes) → pki.pem_decode (pki.pem_encode kind b) ≡ some b
  pub parse_marshalled :
      (k : pki.Key) (b : Bytes) → pki.marshal_key k ≡ ok b → pki.parse_key b ≡ ok k

pub record Identity (Key : Type 0) : Type 0 where
  pub cluster_id : Bytes
  pub node_id : Bytes
  pub action_level : Bytes
  pub consent : Bytes
  pub console_ca : Bytes
  pub key : Key
  pub cert_pem : Bytes
  pub ca_pem : Bytes

abbrev pub key_path : Bytes → FilePath
key_path dir = record { dir = dir; name = text "agent.key" }

abbrev pub crt_path : Bytes → FilePath
crt_path dir = record { dir = dir; name = text "agent.crt" }

abbrev pub ca_path : Bytes → FilePath
ca_path dir = record { dir = dir; name = text "enrollment-ca.crt" }

abbrev pub server_path : Bytes → FilePath
server_path dir = record { dir = dir; name = text "server" }

-- filepath.Join
abbrev pub joined : FilePath → Bytes
joined p = p.dir ++ b'/' ∷ p.name

abbrev pub key_file_mode : ℕ
key_file_mode = 0o600

-- perm &^ keyFileMode of the nine permission bits: those that are not the owner's read and write.
abbrev pub loose_bits : ℕ
loose_bits = 0o177

abbrev pub or_wrap : {E F A : Type 0} → (E → F) → Result E A → Result F A
or_wrap wrap (ok a) = ok a
or_wrap wrap (err e) = err (wrap e)

-- The bytes of a file that may be absent; a read that fails gives none.
abbrev pub optional_bytes : Result OsError Bytes → Bytes
optional_bytes (ok b) = b
optional_bytes (err e) = []

module _ (pki : Pki) where
  unfoldable pub key_pem : pki.Key → Result IdentityError Bytes
  key_pem k = elim (pki.marshal_key k) [
    | err why ↦ err (marshal_key_failed why)
    | ok der ↦ ok (pki.pem_encode (text "EC PRIVATE KEY") der)
  ]

  -- A certificate's node and cluster.
  abbrev named_by : Subject → Result IdentityError (Bytes × Bytes)
  named_by s = elim s.units [
    | [] ↦ err (wrong_units s.common_name 0)
    | unit ∷ units ↦ elim units [
      | [] ↦ ok (s.common_name, unit)
      | more ∷ rest ↦ err (wrong_units s.common_name (length (unit ∷ more ∷ rest)))
    ]
  ]

  unfoldable pub subject : Bytes → Result IdentityError (Bytes × Bytes)
  subject cert = elim (pki.pem_decode cert) [
    | none ↦ err certificate_not_pem
    | some der ↦ elim (pki.parse_certificate der) [
      | err why ↦ err (certificate_unparsed why)
      | ok s ↦ named_by s
    ]
  ]

  -- The checks of TLSConfig, whose result is a configuration of package crypto/tls.
  unfoldable pub tls_config : Identity pki.Key → Result IdentityError (Unit {0})
  unfolding key_pem
  tls_config id = elim (key_pem id.key) [
    | err e ↦ err e
    | ok pem ↦ elim (pki.key_pair id.cert_pem pem) [
      | err why ↦ err (mismatched why)
      | ok _ ↦
          if not (id.ca_pem == []) && not (pki.usable_roots id.ca_pem)
          then err unusable_ca
          else ok tt
    ]
  ]

  abbrev pub of_files : pki.Key → Bytes → Bytes → Bytes × Bytes → Identity pki.Key
  of_files k cert ca names = record {
    cluster_id = names.1;
    node_id = names.0;
    action_level = [];
    consent = [];
    console_ca = [];
    key = k;
    cert_pem = cert;
    ca_pem = ca;
  }

  abbrev pub block_in : Bytes → Bytes → Result IdentityError Bytes
  block_in dir pem = elim (pki.pem_decode pem) [
    | none ↦ err (key_not_pem (joined (key_path dir)))
    | some der ↦ ok der
  ]

module _ (os : Os) where
  unfoldable pub exists : os.State → Bytes → Bool
  exists s dir = is_ok (os.stat s (key_path dir)) && is_ok (os.stat s (crt_path dir))

  abbrev address_of : Result OsError Bytes → Result IdentityError Bytes
  address_of (ok b) = ok (trim_space b)
  address_of (err e) = if is_not_exist e then ok [] else err (read_server e)

  unfoldable pub load_server : os.State → Bytes → Result IdentityError Bytes
  load_server s dir = address_of (os.read_file s (server_path dir))

module _ (os : Os) (pki : Pki) where
  unfoldable pub load : os.State → Bytes → Result IdentityError (Identity pki.Key)
  unfolding subject
  load s dir = do
    perm ← or_wrap (no_key (joined (key_path dir))) (os.stat s (key_path dir))
    fail_if (not (bit_and perm loose_bits == 0)) (loose_mode (joined (key_path dir)) perm)
    pem ← or_wrap read_key (os.read_file s (key_path dir))
    der ← block_in pki dir pem
    k ← or_wrap parse_key_failed (pki.parse_key der)
    cert ← or_wrap read_certificate (os.read_file s (crt_path dir))
    let ca = optional_bytes (os.read_file s (ca_path dir))
    names ← subject pki cert
    ok (of_files pki k cert ca names)
