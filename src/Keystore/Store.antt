-- ===== src/Keystore/Store.antt =====
-- KeyStore of internal/keystore/keystore.go: what the backends offer, with what the clients rely on.
use trust_mate.Common.{ℕ, String, Bool}
use trust_mate.Store.Records.{Error}
use trust_mate.Profiles.Types.{Algorithm}
use trust_mate.Exec.{Exec}
use trust_mate.Exec.Evolves.{Evolves, SameDb}

pub record KeyStore : Type 0 where
  pub exists : String → Exec Error Bool
  pub generate : String → Algorithm → Exec Error ℕ
  pub get : String → Exec Error ℕ
  -- no operation touches the datastore
  pub exists_same : (ref : String) → Evolves SameDb (exists ref)
  pub generate_same : (ref : String) (alg : Algorithm) → Evolves SameDb (generate ref alg)
  pub get_same : (ref : String) → Evolves SameDb (get ref)
