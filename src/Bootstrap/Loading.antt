-- ===== src/Bootstrap/Loading.antt =====
-- internal/bootstrap/server_tls.go
use mathlib.Core.List.{reverse, head?}
use trust_mate.Common.{ℕ, String, Option, List, [], ◌∷◌}
use trust_mate.Store.Records.{Bytes, CertKind, root, intermediate, CertificateRecord, Error}
use trust_mate.Store.Certificates
use trust_mate.Profiles.Types.{server_tls, tsa}
use trust_mate.Pki.Types.{Issuer}
use trust_mate.Pki.Leaf.{or_error}
use trust_mate.Exec.{Exec, ◌>>=◌, pure, lift, gets}
use trust_mate.Keystore.Store.{KeyStore}
use trust_mate.Bootstrap.Generate.{ref_root, ref_intermediate, ref_server_tls}

-- the tls.Config: the certificate chain, its key, and the texts of the pool of client CAs
pub record TlsConfig : Type 0 where
  pub certificate : List Bytes
  pub private_key : ℕ
  pub client_cas : List Bytes

-- recs[len(recs)-1]
unfoldable pub last_of : {A : Type 0} → List A → Option A
last_of xs = head? (reverse xs)

-- the latest certificate of a kind, which must be there
unfoldable pub latest_of_kind : CertKind → Exec Error CertificateRecord
latest_of_kind kind = do recs ← Certificates.find_by_kind kind; lift (or_error (last_of recs))

unfoldable pub der_from_pem : Bytes → Exec Error Bytes
der_from_pem pem = do lib ← gets (λ w. w.env.lib); lift (or_error (lib.pem_decode pem))

-- AppendCertsFromPEM, where it fails on a text that holds no certificate
unfoldable pub pool_entry : Bytes → Exec Error Bytes
pool_entry pem = do
  lib ← gets (λ w. w.env.lib)
  der ← lift (or_error (lib.pem_decode pem))
  _ ← lift (or_error (lib.parse_certificate der))
  pure pem

unfoldable pub load_server_tls_config : KeyStore → Exec Error TlsConfig
load_server_tls_config ks = do
  leaf_rec ← Certificates.get_latest_by_profile server_tls.name
  inter_rec ← latest_of_kind intermediate
  root_rec ← latest_of_kind root
  leaf_der ← der_from_pem leaf_rec.pem
  inter_der ← der_from_pem inter_rec.pem
  signer ← ks.get ref_server_tls
  inter_ca ← pool_entry inter_rec.pem
  root_ca ← pool_entry root_rec.pem
  pure (record {
    certificate = leaf_der ∷ inter_der ∷ [];
    private_key = signer;
    client_cas = inter_ca ∷ root_ca ∷ [];
  })

-- a certificate's row and the ref of its key, made an issuer
unfoldable pub issuer_from : KeyStore → CertificateRecord → String → Exec Error Issuer
issuer_from ks rec ref = do
  der ← der_from_pem rec.pem
  lib ← gets (λ w. w.env.lib)
  cert ← lift (or_error (lib.parse_certificate der))
  signer ← ks.get ref
  pure (record { cert = cert; signer = signer })

unfoldable pub load_intermediate_issuer : KeyStore → Exec Error Issuer
load_intermediate_issuer ks = do
  rec ← latest_of_kind intermediate
  issuer_from ks rec ref_intermediate

unfoldable pub load_root_issuer : KeyStore → Exec Error Issuer
load_root_issuer ks = do rec ← latest_of_kind root; issuer_from ks rec ref_root

unfoldable pub load_tsa_issuer : KeyStore → Exec Error Issuer
load_tsa_issuer ks = do
  rec ← Certificates.get_latest_by_profile tsa.name
  issuer_from ks rec rec.key_ref
