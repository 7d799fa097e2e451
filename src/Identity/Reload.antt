-- ===== src/Identity/Reload.antt =====
-- What Load reads of the files that Save has written.
use cube_advisor_agent.Base.{
  ℕ, ◌≡◌, ◌≢◌, ◌⊎◌, inl, inr, refl, sym, ap, ◌∙◌, false, [], arith, Bytes, text, bytes_beq,
  bytes_beq_iff, bytes_eq, nat_eq, ◌==◌, ok, err, some, bit_and, Bool-cases, bind_ok, Result-cases,
}
use cube_advisor_agent.Base.Io.{lift-eq-ok, wrapped-eq-ok, call-eq-ok}
use cube_advisor_agent.Os.{Os, FilePath, not_exist, IsLawful}
use cube_advisor_agent.Identity.Failures.{
  create_dir, write_key, write_certificate, write_ca, read_key, parse_key_failed, read_certificate,
}
use cube_advisor_agent.Identity.Store.{
  Pki, IsFaithful, Identity, key_path, crt_path, ca_path, key_pem, subject, of_files, load,
  key_file_mode, loose_bits, optional_bytes, or_wrap, block_in,
}
use cube_advisor_agent.Identity.Writes.{put_ca, save}

-- Files with different names.
pub other_name : (p q : FilePath) → bytes_beq p.name q.name ≡ false → p ≢ q
other_name p q h e =
    let same = (bytes_beq_iff p.name q.name).1 (ap (λ (x : FilePath). x.name) e) in
    absurd (ground (arith, same))

module _ (pki : Pki) (faithful : IsFaithful pki) where
  -- What stands in the file of a key.
  key_pem-decode :
      (k : pki.Key) (pem : Bytes)
      → key_pem pki k ≡ ok pem
      → (der : Bytes) × ((pki.pem_decode pem ≡ some der) × (pki.parse_key der ≡ ok k))
  unfolding key_pem
  key_pem-decode k pem h = elim (Result-cases (pki.marshal_key k)) [
    | inl (der, e) ↦
        let same : pki.pem_encode (text "EC PRIVATE KEY") der ≡ pem = ground (arith) in
        (
          der,
          (
            ap pki.pem_decode (sym same) ∙ faithful.decode_encoded _ der,
            faithful.parse_marshalled k der e,
          ),
        )
    | inr (why, e) ↦ absurd (ground arith)
  ]

module _ (os : Os) (lawful : IsLawful os) where
  -- The file of `q` is the same in both states.
  abbrev pub Keeps : os.State → os.State → FilePath → Type 0
  Keeps s t q = (os.read_file t q ≡ os.read_file s q) × (os.stat t q ≡ os.stat s q)

  pub Keeps-trans : (s t u : os.State) (q : FilePath) → Keeps s t q → Keeps t u q → Keeps s u q
  Keeps-trans s t u q (a, b) (c, d) = (c ∙ a, d ∙ b)

  put_ca-Keeps :
      (s t : os.State) (dir ca : Bytes) (q : FilePath)
      → put_ca os dir ca s ≡ (t, ok tt)
      → ca_path dir ≢ q
      → Keeps s t q
  put_ca-Keeps s t dir ca q h ne = elim (Bool-cases (ca == [])) [
    | inl e ↦
        let same : t ≡ s = ground arith in
        (ap (λ (x : os.State). os.read_file x q) same, ap (λ (x : os.State). os.stat x q) same)
    | inr e ↦
        lawful.keep_written s t (ca_path dir) q ca 0o644
          (wrapped-eq-ok write_ca (os.write_file s (ca_path dir) ca 0o644) (ground arith)) ne
  ]

  -- The bytes of the CA's file, where an empty CA leaves a file that was not there.
  put_ca-read :
      (s t : os.State) (dir ca : Bytes)
      → put_ca os dir ca s ≡ (t, ok tt)
      → (ca ≢ []) ⊎ (os.read_file s (ca_path dir) ≡ err not_exist)
      → optional_bytes (os.read_file t (ca_path dir)) ≡ ca
  put_ca-read s t dir ca h fresh = elim (Bool-cases (ca == [])) [
    | inl e ↦
        let same : t ≡ s = ground arith in
        let empty : ca ≡ [] = (bytes_beq_iff ca []).0 e in
        elim fresh [
          | inl some_ca ↦ absurd (some_ca empty)
          | inr absent ↦ rw (same, absent, empty) refl
        ]
    | inr e ↦ ap optional_bytes (
        lawful.read_written s t (ca_path dir) ca 0o644
          (wrapped-eq-ok write_ca (os.write_file s (ca_path dir) ca 0o644) (ground arith)))
  ]

  module _ (pki : Pki) (faithful : IsFaithful pki) where
    -- The states between the calls of a Save that succeeded.
    abbrev Steps : os.State → os.State → Bytes → Identity pki.Key → Bytes → Type 0
    Steps s t dir id pem =
        (a : os.State) × ((b : os.State) × ((c : os.State) × ((os.mkdir_all s dir 0o700
                ≡ (a, ok tt))
              × ((os.write_file a (key_path dir) pem key_file_mode ≡ (b, ok tt))
                  × ((os.write_file b (crt_path dir) id.cert_pem 0o644 ≡ (c, ok tt))
                      × (put_ca os dir id.ca_pem c ≡ (t, ok tt)))))))

    save-Steps :
        (s t : os.State) (dir : Bytes) (id : Identity pki.Key)
        → save os pki dir id s ≡ (t, ok tt)
        → (pem : Bytes) × ((key_pem pki id.key ≡ ok pem) × Steps s t dir id pem)
    unfolding save
    save-Steps s t dir id h =
        let (a, (_, (made, h1))) = call-eq-ok create_dir (os.mkdir_all s dir 0o700) _ h in
        let (pem, (coded, h2)) = lift-eq-ok (key_pem pki id.key) a _ h1 in
        let (b, (_, (key, h3))) =
          call-eq-ok write_key (os.write_file a (key_path dir) pem key_file_mode) _ h2 in
        let (c, (_, (crt, h4))) =
          call-eq-ok write_certificate (os.write_file b (crt_path dir) id.cert_pem 0o644) _ h3 in
        (pem, (coded, (a, (b, (c, (made, (key, (crt, h4))))))))

    key-ne-crt : (dir : Bytes) → key_path dir ≢ crt_path dir
    unfolding text bytes_beq
    key-ne-crt dir = other_name (key_path dir) (crt_path dir) refl

    key-ne-ca : (dir : Bytes) → key_path dir ≢ ca_path dir
    unfolding text bytes_beq
    key-ne-ca dir = other_name (key_path dir) (ca_path dir) refl

    crt-ne-ca : (dir : Bytes) → crt_path dir ≢ ca_path dir
    unfolding text bytes_beq
    crt-ne-ca dir = other_name (crt_path dir) (ca_path dir) refl

    -- What Load finds: a key with tight permissions, the certificate, and the CA.
    abbrev Found : os.State → Bytes → Identity pki.Key → Bytes → Type 0
    Found t dir id pem =
        ((n : ℕ) × ((os.stat t (key_path dir) ≡ ok n) × (bit_and n loose_bits ≡ 0)))
        × ((os.read_file t (key_path dir) ≡ ok pem)
            × ((os.read_file t (crt_path dir) ≡ ok id.cert_pem)
                × (optional_bytes (os.read_file t (ca_path dir)) ≡ id.ca_pem)))

    Steps-Found :
        (s t : os.State) (dir : Bytes) (id : Identity pki.Key) (pem : Bytes)
        → Steps s t dir id pem
        → os.stat s (key_path dir) ≡ err not_exist
        → (id.ca_pem ≢ []) ⊎ (os.read_file s (ca_path dir) ≡ err not_exist)
        → Found t dir id pem
    Steps-Found s t dir id pem (a, (b, (c, (made, (key, (crt, ca)))))) fresh no_ca =
        let (n, (mode, tight)) =
          lawful.stat_created a b (key_path dir) pem key_file_mode loose_bits key
            ((lawful.keep_made s a (key_path dir) 0o700 made).1 ∙ fresh) (omega arith) refl in
        let ca_ne = λ (e : ca_path dir ≡ key_path dir). key-ne-ca dir (sym e) in
        let ca_ne' = λ (e : ca_path dir ≡ crt_path dir). crt-ne-ca dir (sym e) in
        let crt_ne = λ (e : crt_path dir ≡ key_path dir). key-ne-crt dir (sym e) in
        let (kept_key, kept_mode) =
          Keeps-trans b c t (key_path dir)
            (lawful.keep_written b c (crt_path dir) (key_path dir) id.cert_pem 0o644 crt crt_ne)
            (put_ca-Keeps c t dir id.ca_pem (key_path dir) ca ca_ne) in
        let (kept_crt, _) = put_ca-Keeps c t dir id.ca_pem (crt_path dir) ca ca_ne' in
        let (kept_ca, _) =
          Keeps-trans s a c (ca_path dir) (lawful.keep_made s a (ca_path dir) 0o700 made) (
            Keeps-trans a b c (ca_path dir)
              (lawful.keep_written a b (key_path dir) (ca_path dir) pem key_file_mode key
                (key-ne-ca dir))
              (lawful.keep_written b c (crt_path dir) (ca_path dir) id.cert_pem 0o644 crt
                (crt-ne-ca dir))) in
        let absent : (id.ca_pem ≢ []) ⊎ (os.read_file c (ca_path dir) ≡ err not_exist) =
          elim no_ca [ inl some_ca ↦ inl some_ca | inr none_yet ↦ inr (kept_ca ∙ none_yet) ] in
        (
          (n, (kept_mode ∙ mode, tight)),
          (
            kept_key ∙ lawful.read_written a b (key_path dir) pem key_file_mode key,
            (
              kept_crt ∙ lawful.read_written b c (crt_path dir) id.cert_pem 0o644 crt,
              put_ca-read c t dir id.ca_pem ca absent,
            ),
          ),
        )

    pub Found-load :
        (t : os.State) (dir : Bytes) (id : Identity pki.Key) (pem node cluster : Bytes)
        → Found t dir id pem
        → key_pem pki id.key ≡ ok pem
        → subject pki id.cert_pem ≡ ok (node, cluster)
        → load os pki t dir ≡ ok (of_files pki id.key id.cert_pem id.ca_pem (node, cluster))
    unfolding load
    Found-load t dir id pem node cluster ((n, (mode, tight)), (key, (crt, ca))) coded named =
        let (der, (block, parsed)) = key_pem-decode pki faithful id.key pem coded in
        let found : block_in pki dir pem ≡ ok der = rw (block, block_in) refl in
        rw (mode, tight)
          (bind_ok _ (ap (or_wrap read_key) key)
            ∙ bind_ok _ found
            ∙ bind_ok _ (ap (or_wrap parse_key_failed) parsed)
            ∙ bind_ok _ (ap (or_wrap read_certificate) crt)
            ∙ bind_ok _ named
            ∙ ap (λ (x : Bytes). ok (of_files pki id.key id.cert_pem x (node, cluster))) ca)

    -- An identity that Save wrote into a directory without one is the identity that Load reads: the
    -- same key, which only its owner can read, certificate and CA, with the node and the cluster that
    -- the certificate names. The certificate names exactly one cluster; a CA's file is not left over
    -- where the identity has no CA.
    pub load-save :
        (s t : os.State) (dir : Bytes) (id : Identity pki.Key) (node cluster : Bytes)
        → save os pki dir id s ≡ (t, ok tt)
        → os.stat s (key_path dir) ≡ err not_exist
        → (id.ca_pem ≢ []) ⊎ (os.read_file s (ca_path dir) ≡ err not_exist)
        → subject pki id.cert_pem ≡ ok (node, cluster)
        → load os pki t dir ≡ ok (of_files pki id.key id.cert_pem id.ca_pem (node, cluster))
    load-save s t dir id node cluster h fresh no_ca named =
        let (pem, (coded, steps)) = save-Steps s t dir id h in
        Found-load t dir id pem node cluster (Steps-Found s t dir id pem steps fresh no_ca) coded
          named
