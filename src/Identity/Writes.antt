-- ===== src/Identity/Writes.antt =====
-- internal/identity/identity.go: Save, SaveServer and Remove.
use cube_advisor_agent.Base.{
  ℕ, [], ◌∷◌, List, Bytes, bytes_eq, ◌==◌, if◌then◌else◌, Result, ok, err,
}
use cube_advisor_agent.Base.Io.{Io, ◌>>=◌, ◌>>◌, return, lift, wrapped}
use cube_advisor_agent.Os.{Os, OsError, FilePath, Done, is_not_exist}
use cube_advisor_agent.Identity.Failures.{
  IdentityError, create_dir, write_key, write_certificate, write_ca, write_server, empty_address,
  removing,
}
use cube_advisor_agent.Identity.Store.{
  Pki, Identity, key_pem, key_path, crt_path, ca_path, server_path, key_file_mode,
}

abbrev pub identity_files : Bytes → List Bytes
identity_files dir =
    (key_path dir).name ∷ (crt_path dir).name ∷ (ca_path dir).name ∷ (server_path dir).name ∷ []

module _ (os : Os) where
  abbrev pub Call : Type 0 → Type 0
  Call A = Io os.State IdentityError A

  abbrev pub make_dir : Bytes → Call (Unit {0})
  make_dir dir s = wrapped create_dir (os.mkdir_all s dir 0o700)

  abbrev pub put_file : (OsError → IdentityError) → FilePath → Bytes → ℕ → Call (Unit {0})
  put_file wrap p b m s = wrapped wrap (os.write_file s p b m)

  unfoldable pub save_server : Bytes → Bytes → Call (Unit {0})
  save_server dir addr =
      if addr == []
      then lift (err empty_address)
      else do make_dir dir; put_file write_server (server_path dir) addr 0o644

  abbrev pub tolerated : Bytes → os.State × Done → os.State × Result IdentityError (Unit {0})
  tolerated name (t, ok _) = (t, ok tt)
  tolerated name (t, err e) = if is_not_exist e then (t, ok tt) else (t, err (removing name e))

  unfoldable pub remove_all : Bytes → List Bytes → Call (Unit {0})
  remove_all dir [] = return tt
  remove_all dir (n ∷ names) = do
    λ s. tolerated n (os.remove s (record { dir = dir; name = n }))
    remove_all dir names

  unfoldable pub remove : Bytes → Call (Unit {0})
  unfolding remove_all
  remove dir = remove_all dir (identity_files dir)

  abbrev pub put_ca : Bytes → Bytes → Call (Unit {0})
  put_ca dir ca = if ca == [] then return tt else put_file write_ca (ca_path dir) ca 0o644

  module _ (pki : Pki) where
    unfoldable pub save : Bytes → Identity pki.Key → Call (Unit {0})
    unfolding key_pem
    save dir id = do
      make_dir dir
      pem ← lift (key_pem pki id.key)
      put_file write_key (key_path dir) pem key_file_mode
      put_file write_certificate (crt_path dir) id.cert_pem 0o644
      put_ca dir id.ca_pem
