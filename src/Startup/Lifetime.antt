-- ===== src/Startup/Lifetime.antt =====
-- Starts of the service and requests, one after another, on one datastore.
use mathlib.Core.Path.{subst}
use trust_mate.Common.{◌+◌, ◌≡◌, sym, refl, true, false, String}
use trust_mate.Store.Records.{Bytes, CertKind, CertificateRecord}
use trust_mate.Store.Extends.{Extends, Extends-preorder}
use trust_mate.Store.Evolution.{Grows, store_grows}
use trust_mate.World.{World}
use trust_mate.Exec.{ok}
use trust_mate.Exec.Evolves.{Evolves-bind, Evolves-if, Evolves-modify, Evolves-pure, Evolves-same}
use trust_mate.Keystore.Store.{KeyStore}
use trust_mate.Config.Types.{Config}
use trust_mate.Profiles.Loading.{new_registry}
use trust_mate.Bootstrap.Run.{run}
use trust_mate.Bootstrap.Growth.{first_run-Grows}
use trust_mate.Bootstrap.Loading.{
  latest_of_kind, der_from_pem, pool_entry, load_server_tls_config, issuer_from,
  load_intermediate_issuer, load_root_issuer, load_tsa_issuer,
}
use trust_mate.Bootstrap.Once.{HasRoot, HasRoot-Extends, run-skips, run-HasRoot}
use trust_mate.Api.Deps.{Deps}
use trust_mate.Api.Router.{Run}
use trust_mate.Api.Runs.{Run-Extends}
use trust_mate.Api.Growth.Profiles.{load-Grows}
use trust_mate.Startup.Service.{
  run_bootstrap, start_tsa, start_registry, start_builders, start_service,
}

run-Grows : (cfg : Config) (ks : KeyStore) → Grows (run cfg ks)
unfolding run
run-Grows cfg ks = search (store_grows, first_run-Grows) depth 7

run_bootstrap-Grows : (cfg : Config) (ks : KeyStore) → Grows (run_bootstrap cfg ks)
unfolding run_bootstrap
run_bootstrap-Grows cfg ks = search (store_grows, run-Grows) depth 5

latest_of_kind-Grows : (kind : CertKind) → Grows (latest_of_kind kind)
unfolding latest_of_kind
latest_of_kind-Grows kind = search store_grows depth 6

der_from_pem-Grows : (pem : Bytes) → Grows (der_from_pem pem)
unfolding der_from_pem
der_from_pem-Grows pem = search store_grows depth 6

pool_entry-Grows : (pem : Bytes) → Grows (pool_entry pem)
unfolding pool_entry
pool_entry-Grows pem = search store_grows depth 9

get-Grows : (ks : KeyStore) (ref : String) → Grows (ks.get ref)
get-Grows ks ref = Evolves-same _ (ks.get_same ref)

issuer_from-Grows :
    (ks : KeyStore) (rec : CertificateRecord) (ref : String) → Grows (issuer_from ks rec ref)
unfolding issuer_from
issuer_from-Grows ks rec ref = search (store_grows, der_from_pem-Grows, get-Grows) depth 12

ruleset loading_grows = (
  store_grows, latest_of_kind-Grows, der_from_pem-Grows, pool_entry-Grows, get-Grows,
  issuer_from-Grows,
)

load_server_tls_config-Grows : (ks : KeyStore) → Grows (load_server_tls_config ks)
unfolding load_server_tls_config
load_server_tls_config-Grows ks = search loading_grows depth 20

load_intermediate_issuer-Grows : (ks : KeyStore) → Grows (load_intermediate_issuer ks)
unfolding load_intermediate_issuer
load_intermediate_issuer-Grows ks = search loading_grows depth 7

load_root_issuer-Grows : (ks : KeyStore) → Grows (load_root_issuer ks)
unfolding load_root_issuer
load_root_issuer-Grows ks = search loading_grows depth 7

load_tsa_issuer-Grows : (ks : KeyStore) → Grows (load_tsa_issuer ks)
unfolding load_tsa_issuer
load_tsa_issuer-Grows ks = search loading_grows depth 7

start_tsa-Grows : (cfg : Config) (ks : KeyStore) → Grows (start_tsa cfg ks)
unfolding start_tsa
start_tsa-Grows cfg ks =
    Evolves-if _ _ _
      (Evolves-bind _ _ (load_tsa_issuer-Grows ks) (λ issuer. Evolves-modify _ (λ w. refl)))
      (Evolves-pure _)

start_registry-Grows : (cfg : Config) → Grows (start_registry cfg)
unfolding start_registry new_registry
start_registry-Grows cfg = Evolves-bind _ _ (load-Grows _) (λ reg. Evolves-modify _ (λ w. refl))

start_builders-Grows : Grows start_builders
unfolding start_builders
start_builders-Grows = Evolves-modify _ (λ w. refl)

-- A start of the service, the first or a later one, and whatever of it fails, leaves a datastore that
-- extends the one that it found.
pub start_service-Grows : (cfg : Config) (ks : KeyStore) → Grows (start_service cfg ks)
unfolding start_service
start_service-Grows cfg ks =
    search
      (
        store_grows, run_bootstrap-Grows, load_server_tls_config-Grows,
        load_intermediate_issuer-Grows, load_root_issuer-Grows, start_tsa-Grows,
        start_registry-Grows, start_builders-Grows,
      )
      depth 20

-- the datastore's life: runs of requests, and starts of the service, each of which finds the tables as the
-- last process left them
pub data Lifetime : World → World → Type 0 where
  over : (w v : World) → v.db ≡ w.db → Lifetime w v
  requested : (deps : Deps) (w u v : World) → Run deps w u → Lifetime u v → Lifetime w v
  restarted :
      (cfg : Config) (ks : KeyStore) (w u v : World)
      → u.db ≡ w.db
      → Lifetime (start_service cfg ks u).1 v
      → Lifetime w v

-- Through any number of starts, with whatever configurations and keystores, also where they fail, and of
-- requests between them, the datastore extends the one at the beginning.
pub Lifetime-Extends : (w v : World) → Lifetime w v → Extends w.db v.db
Lifetime-Extends w v (over _ _ same) =
    subst (λ d. Extends w.db d) (sym same) (Extends-preorder.same w.db)
Lifetime-Extends w v (requested deps _ u _ run more) =
    Extends-preorder.then_also w.db u.db v.db (Run-Extends deps w u run) (Lifetime-Extends u v more)
Lifetime-Extends w v (restarted cfg ks _ u _ same more) =
    subst (λ d. Extends d v.db) same
      (Extends-preorder.then_also u.db _ v.db ((start_service-Grows cfg ks).at u)
        (Lifetime-Extends _ v more))

-- After a first run that succeeded, and after any starts of the service and requests on the datastore that
-- it left, a further Run, with whatever configuration and keystore, answers that the service is
-- bootstrapped already and changes nothing, where the datastore answers. This holds also where the first run
-- was without the time-stamp authority and the later configuration has it.
pub run_once :
    (cfg again : Config) (ks ks' : KeyStore) (w u v : World)
    → (run cfg ks w).0 ≡ ok false
    → u.db ≡ (run cfg ks w).1.db
    → Lifetime u v
    → v.env.fault v.tick ≡ false
    → run again ks' v ≡ (ok true, record v { tick = v.tick + 1 })
run_once cfg again ks ks' w u v h same life works =
    let there : HasRoot u.db = subst HasRoot (sym same) (run-HasRoot cfg ks w h) in
    run-skips again ks' v (HasRoot-Extends u.db v.db (Lifetime-Extends u v life) there) works
