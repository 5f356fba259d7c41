-- ===== src/Startup/Service.antt =====
-- cmd/trustmated/main.go: what main does between the opening of the datastore and the keystore and the
-- listening. A failure exits the process. WithExclusiveLock of SQLite calls its function.
use trust_mate.Common.{true, none, some, if◌then◌else◌}
use trust_mate.Store.Records.{Error}
use trust_mate.Pki.Types.{Issuer}
use trust_mate.Exec.{Exec, ◌>>=◌, ◌>>◌, pure, modify}
use trust_mate.Keystore.Store.{KeyStore}
use trust_mate.Config.Types.{Config, tsa_common_name}
use trust_mate.Profiles.Loading.{new_registry}
use trust_mate.Bootstrap.Run.{run}
use trust_mate.Bootstrap.Loading.{
  TlsConfig, load_server_tls_config, load_intermediate_issuer, load_root_issuer, load_tsa_issuer,
}
use trust_mate.Api.Deps.{Deps}

unfoldable pub run_bootstrap : Config → KeyStore → Exec Error (Unit {0})
run_bootstrap cfg ks = do _ ← run cfg ks; pure tt

-- `if mods.EnableTSA`: a responder that has handed out no time yet
unfoldable pub start_tsa : Config → KeyStore → Exec Error (Unit {0})
start_tsa cfg ks =
    if cfg.modules.tsa
    then (do
      issuer ← load_tsa_issuer ks
      modify (λ w. record w { tsa = record { issuer = issuer; last_gen_time = 0 } }))
    else pure tt

unfoldable pub start_registry : Config → Exec Error (Unit {0})
start_registry cfg = do
  reg ← new_registry cfg.profiles_dir
  modify (λ w. record w { registry = some reg })

-- NewCRLBuilder of the two issuers: no list is cached
unfoldable pub start_builders : Exec Error (Unit {0})
start_builders = modify (λ w. record w {
  crl = record { cached = none; expires = 0 };
  root_crl = record { cached = none; expires = 0 };
})

-- api.Deps
unfoldable pub deps_of : Config → KeyStore → (inter root_ca : Issuer) → Deps
deps_of cfg ks inter root_ca = record {
  intermediate_issuer = inter;
  public_base_url = cfg.server.public_base_url;
  enable_revocation = cfg.modules.revocation;
  enable_tsa = cfg.modules.tsa;
  enable_acme = cfg.modules.acme;
  metrics = true;
  crl_builder = true;
  root_issuer = root_ca;
  key_store = ks;
  tsa_common_name = tsa_common_name cfg;
  tsa_validity = cfg.bootstrap.tsa_validity;
}

-- the TLS configuration and the dependencies that the server runs with
unfoldable pub start_service : Config → KeyStore → Exec Error (TlsConfig × Deps)
start_service cfg ks = do
  run_bootstrap cfg ks
  tls ← load_server_tls_config ks
  inter ← load_intermediate_issuer ks
  root_ca ← load_root_issuer ks
  start_tsa cfg ks
  start_registry cfg
  start_builders
  pure (tls, deps_of cfg ks inter root_ca)
