-- ===== src/Tsa/Identity.antt =====
-- internal/tsa/issue.go
use trust_mate.Common.{ℕ, ◌+◌, String, Bool, none, []}
use trust_mate.Store.Records.{Time, leaf, CertificateRecord, Error}
use trust_mate.Store.Certificates
use trust_mate.Profiles.Types.{ecdsa_p256, tsa, Profile, with_issuer_urls}
use trust_mate.Pki.Types.{Name, Certificate, Issuer}
use trust_mate.Pki.Library.{Library}
use trust_mate.Pki.Leaf.{issue_leaf}
use trust_mate.Exec.{Exec, ◌>>=◌, ◌>>◌, pure, gets, now}
use trust_mate.Keystore.Store.{KeyStore}

pub record IdentityParams : Type 0 where
  pub common_name : String
  pub validity : ℕ
  pub public_base_url : String
  pub revocation_enabled : Bool

unfoldable pub identity_profile : IdentityParams → Profile
identity_profile params = with_issuer_urls tsa params.public_base_url params.revocation_enabled

unfoldable pub identity_record :
    Library → String → Profile → Issuer → Certificate → Time → CertificateRecord
identity_record lib ref profile inter cert at = record {
  serial = cert.serial;
  kind = leaf;
  profile_name = profile.name;
  subject = cert.subject.text;
  issuer_serial = inter.cert.serial;
  not_before = cert.not_before;
  not_after = cert.not_after;
  pem = lib.encode_cert_pem cert.raw;
  key_ref = ref;
  created_at = at;
  revoked_at = none;
  revocation_reason = "";
}

unfoldable pub issue_identity :
    String → IdentityParams → KeyStore → Issuer → Exec Error (Issuer × CertificateRecord)
issue_identity ref params ks inter = do
  signer ← ks.generate ref ecdsa_p256
  lib ← gets (λ w. w.env.lib)
  let profile = identity_profile params
  at ← now
  let subject : Name = record {
    common_name = params.common_name;
    text = lib.name_string params.common_name;
  }
  cert ← issue_leaf profile subject (lib.public_of signer) inter at (at + params.validity) []
  let rec = identity_record lib ref profile inter cert at
  Certificates.create rec
  pure (record { cert = cert; signer = signer }, rec)
