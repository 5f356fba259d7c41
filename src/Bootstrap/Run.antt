-- ===== src/Bootstrap/Run.antt =====
-- internal/bootstrap/bootstrap.go: Run, with the answer AlreadyBootstrapped.
use trust_mate.Common.{
  String, Bool, true, false, Option, none, some, List, [], ◌∷◌, ◌++◌, if◌then◌else◌,
}
use trust_mate.Store.Records.{root, admin, AuditEntry, Error}
use trust_mate.Store.Certificates
use trust_mate.Store.ClientRoles
use trust_mate.Store.Audit
use trust_mate.Pki.Types.{Certificate, Issuer}
use trust_mate.Exec.{Exec, ◌>>=◌, ◌>>◌, pure, now}
use trust_mate.Keystore.Store.{KeyStore}
use trust_mate.Config.Types.{Config}
use trust_mate.Bootstrap.Generate.{
  persist_default_profiles, generate_root, generate_intermediate, generate_admin_leaf,
  generate_server_tls_leaf, generate_tsa_leaf,
}
use trust_mate.Bootstrap.Output.{write_bootstrap_output}

-- an entry about the issuance of a certificate
unfoldable pub issued_now : Certificate → String → Exec Error AuditEntry
issued_now cert detail = do
  at ← now
  pure (record {
    id = 0;
    timestamp = at;
    actor = "bootstrap";
    action = "issue";
    target = cert.serial;
    detail = detail;
  })

unfoldable pub append_all : List AuditEntry → Exec Error (Unit {0})
append_all [] = pure tt
append_all (e ∷ es) = do Audit.append e; append_all es

-- `if cfg.Modules.TSA`: the certificate and its entry
unfoldable pub tsa_part :
    Config → KeyStore → Issuer → Exec Error (Option Certificate × List AuditEntry)
tsa_part cfg ks inter =
    if cfg.modules.tsa
    then (do
      tsa_issuer ← generate_tsa_leaf cfg ks inter
      e ← issued_now tsa_issuer.cert "TSA signing certificate"
      pure (some tsa_issuer.cert, e ∷ []))
    else pure (none, [])

-- what follows once the two CAs and the admin's certificate are there
unfoldable pub finish : Config → KeyStore → (root_ca inter admin_leaf : Issuer) → Exec Error Bool
finish cfg ks root_ca inter admin_leaf = do
  at ← now
  ClientRoles.assign
      (record { cert_serial = admin_leaf.cert.serial; role = admin; created_at = at })
  server ← generate_server_tls_leaf cfg ks inter
  e1 ← issued_now root_ca.cert "root CA"
  e2 ← issued_now inter.cert "intermediate CA"
  e3 ← issued_now admin_leaf.cert "admin access certificate"
  e4 ← issued_now server.cert "server TLS certificate"
  (tsa_cert, more) ← tsa_part cfg ks inter
  write_bootstrap_output cfg.bootstrap.output_dir root_ca.cert inter.cert admin_leaf tsa_cert
  append_all ((e1 ∷ e2 ∷ e3 ∷ e4 ∷ []) ++ more)
  pure false

-- what follows once the root CA is there
unfoldable pub after_root : Config → KeyStore → Issuer → Exec Error Bool
after_root cfg ks root_ca = do
  inter ← generate_intermediate cfg ks root_ca
  admin_leaf ← generate_admin_leaf cfg inter
  finish cfg ks root_ca inter admin_leaf

unfoldable pub first_run : Config → KeyStore → Exec Error Bool
first_run cfg ks = do
  persist_default_profiles
  root_ca ← generate_root cfg ks
  after_root cfg ks root_ca

abbrev pub is_empty : {A : Type 0} → List A → Bool
is_empty [] = true
is_empty (x ∷ xs) = false

unfoldable pub run : Config → KeyStore → Exec Error Bool
run cfg ks = do
  roots ← Certificates.find_by_kind root
  if is_empty roots then first_run cfg ks else pure true
