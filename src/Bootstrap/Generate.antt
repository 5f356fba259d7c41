-- ===== src/Bootstrap/Generate.antt =====
-- internal/bootstrap/bootstrap.go: the identities of the first run.
use Prim.Native.String
use trust_mate.Common.{ℕ, ◌+◌, String, true, false, none, [], if◌then◌else◌}
use trust_mate.Store.Records.{CertKind, root, intermediate, leaf, Error}
use trust_mate.Store.Certificates
use trust_mate.Store.Profiles
use trust_mate.Profiles.Types.{Profile, ecdsa_p256, default, server_tls, tsa, with_issuer_urls}
use trust_mate.Pki.Types.{PublicKey, unsupported, Name, Certificate, Issuer}
use trust_mate.Pki.Library.{Library}
use trust_mate.Pki.Leaf.{CertRequest, or_error, issue_leaf}
use trust_mate.Pki.Ca.{self_signed_ca, issue_ca}
use trust_mate.Exec.{Exec, ◌>>=◌, ◌>>◌, pure, lift, gets, now}
use trust_mate.Keystore.Store.{KeyStore}
use trust_mate.Keystore.Files.{new_key}
use trust_mate.Tsa.Identity.{IdentityParams, issue_identity}
use trust_mate.Config.Types.{
  Config, root_common_name, intermediate_common_name, admin_common_name, server_common_name,
  tsa_common_name,
}

abbrev pub ref_root : String
ref_root = "root"

abbrev pub ref_intermediate : String
ref_intermediate = "intermediate"

abbrev pub ref_server_tls : String
ref_server_tls = "server-tls"

abbrev pub ref_tsa : String
ref_tsa = "tsa"

-- one round of the loop over the default profiles
unfoldable pub persist_profile : Profile → Exec Error (Unit {0})
persist_profile p = do
  lib ← gets (λ w. w.env.lib)
  contents ← lift (or_error (lib.marshal_profile p))
  at ← now
  Profiles.upsert
      (record { name = p.name; version = p.version; contents = contents; created_at = at })

unfoldable pub persist_default_profiles : Exec Error (Unit {0})
persist_default_profiles = do
  persist_profile default
  persist_profile server_tls
  persist_profile tsa

unfoldable pub create_cert_record :
    Certificate → CertKind → (profile_name issuer_serial key_ref : String) → Exec Error (Unit {0})
create_cert_record cert kind profile_name issuer_serial key_ref = do
  lib ← gets (λ w. w.env.lib)
  at ← now
  Certificates.create (record {
    serial = cert.serial;
    kind = kind;
    profile_name = profile_name;
    subject = cert.subject.text;
    issuer_serial = issuer_serial;
    not_before = cert.not_before;
    not_after = cert.not_after;
    pem = lib.encode_cert_pem cert.raw;
    key_ref = key_ref;
    created_at = at;
    revoked_at = none;
    revocation_reason = "";
  })

-- pkix.Name{CommonName: …}
abbrev pub common_name : Library → String → Name
common_name lib cn = record { common_name = cn; text = lib.name_string cn }

-- KeyUsageCertSign | KeyUsageCRLSign
abbrev pub ca_key_usage : ℕ
ca_key_usage = 96

-- the zero CertRequest with the fields that both CAs set
abbrev pub ca_request : Name → PublicKey → ℕ → ℕ → CertRequest
ca_request subject key not_before not_after = record {
  subject = subject;
  public_key = key;
  not_before = not_before;
  not_after = not_after;
  is_ca = true;
  path_len_zero = false;
  key_usage = ca_key_usage;
  ext_key_usage = [];
  critical_ext_key_usage = false;
  dns_names = [];
  aia_issuer_url = "";
  ocsp_url = "";
  crl_url = "";
}

unfoldable pub generate_root : Config → KeyStore → Exec Error Issuer
generate_root cfg ks = do
  signer ← ks.generate ref_root ecdsa_p256
  lib ← gets (λ w. w.env.lib)
  at ← now
  cert ←
      self_signed_ca
        (ca_request (common_name lib (root_common_name cfg)) unsupported at
          (at + cfg.bootstrap.root_validity))
        signer
  create_cert_record cert root "" "" ref_root
  pure (record { cert = cert; signer = signer })

-- the request for the intermediate CA, whose CRL is the root's
unfoldable pub intermediate_request : Config → Name → PublicKey → ℕ → ℕ → CertRequest
intermediate_request cfg subject key not_before not_after =
    let base = cfg.server.public_base_url in
    record (ca_request subject key not_before not_after) {
      path_len_zero = true;
      aia_issuer_url = String.◌++◌ base "/v1/ca/root.pem";
      crl_url = if cfg.modules.revocation then String.◌++◌ base "/v1/crl/root.crl" else "";
      ocsp_url = if cfg.modules.revocation then String.◌++◌ base "/v1/ocsp" else "";
    }

unfoldable pub generate_intermediate : Config → KeyStore → Issuer → Exec Error Issuer
generate_intermediate cfg ks root_ca = do
  signer ← ks.generate ref_intermediate ecdsa_p256
  lib ← gets (λ w. w.env.lib)
  from ← now
  until ← now
  cert ←
      issue_ca
        (intermediate_request cfg (common_name lib (intermediate_common_name cfg))
          (lib.public_of signer) from (until + cfg.bootstrap.intermediate_validity))
        root_ca
  create_cert_record cert intermediate "" root_ca.cert.serial ref_intermediate
  pure (record { cert = cert; signer = signer })

-- the certificate and its key, which no keystore holds
unfoldable pub generate_admin_leaf : Config → Issuer → Exec Error Issuer
generate_admin_leaf cfg inter = do
  key ← new_key ecdsa_p256
  lib ← gets (λ w. w.env.lib)
  let profile = with_issuer_urls default cfg.server.public_base_url cfg.modules.revocation
  at ← now
  cert ←
      issue_leaf profile (common_name lib (admin_common_name cfg)) (lib.public_of key) inter at
        (at + cfg.bootstrap.admin_validity) []
  create_cert_record cert leaf profile.name inter.cert.serial ""
  pure (record { cert = cert; signer = key })

unfoldable pub generate_server_tls_leaf : Config → KeyStore → Issuer → Exec Error Issuer
generate_server_tls_leaf cfg ks inter = do
  signer ← ks.generate ref_server_tls ecdsa_p256
  lib ← gets (λ w. w.env.lib)
  let profile = with_issuer_urls server_tls cfg.server.public_base_url cfg.modules.revocation
  at ← now
  cert ←
      issue_leaf profile (common_name lib (server_common_name cfg)) (lib.public_of signer) inter at
        (at + cfg.bootstrap.server_validity) cfg.server.tls_sans
  create_cert_record cert leaf profile.name inter.cert.serial ref_server_tls
  pure (record { cert = cert; signer = signer })

unfoldable pub generate_tsa_leaf : Config → KeyStore → Issuer → Exec Error Issuer
generate_tsa_leaf cfg ks inter = do
  let params : IdentityParams = record {
    common_name = tsa_common_name cfg;
    validity = cfg.bootstrap.tsa_validity;
    public_base_url = cfg.server.public_base_url;
    revocation_enabled = cfg.modules.revocation;
  }
  (issuer, rec) ← issue_identity ref_tsa params ks inter
  pure issuer
