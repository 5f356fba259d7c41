-- ===== src/Api/Deps.antt =====
-- internal/api/deps.go: what the handlers are configured with. The store, the registry, the caches and
-- the counters are part of the world.
use trust_mate.Common.{ℕ, String, Bool, none, ◌++◌, ◌∷◌, [], if◌then◌else◌}
use trust_mate.Pki.Types.{Issuer}
use trust_mate.Keystore.Store.{KeyStore}
use trust_mate.World.{Sample}
use trust_mate.Exec.{Exec, modify}

pub record Deps : Type 0 where
  pub intermediate_issuer : Issuer
  pub public_base_url : String
  -- ModuleConfig
  pub enable_revocation : Bool
  pub enable_tsa : Bool
  pub enable_acme : Bool
  -- whether the pointers Metrics and CRLBuilder are set
  pub metrics : Bool
  pub crl_builder : Bool
  -- the issuer of RootCRLBuilder; CRLBuilder and RootCRLBuilder are set where CRLs are served
  pub root_issuer : Issuer
  -- what handleRotateTSA mints an identity with
  pub key_store : KeyStore
  pub tsa_common_name : String
  pub tsa_validity : ℕ

-- `if deps.Metrics != nil { … Inc() }`
unfoldable pub count : {E : Type 0} → Deps → Sample → Exec E (Unit {0})
count deps s = modify (λ w. if deps.metrics then record w { metrics = w.metrics ++ s ∷ [] } else w)

-- `if deps.CRLBuilder != nil { deps.CRLBuilder.Invalidate() }`
unfoldable pub invalidate_crl : {E : Type 0} → Deps → Exec E (Unit {0})
invalidate_crl deps =
    modify (λ w. if deps.crl_builder then record w { crl = record w.crl { cached = none } } else w)
