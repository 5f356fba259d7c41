-- ===== src/Pki/Ca.antt =====
-- internal/pki/ca.go
use trust_mate.Common.{ℕ}
use trust_mate.Store.Records.{Error}
use trust_mate.Pki.Types.{Certificate, Issuer}
use trust_mate.Pki.Leaf.{CertRequest, or_error, build_template, subject_key_id}
use trust_mate.Exec.{Exec, ◌>>=◌, lift, gets}

unfoldable pub self_signed_ca : CertRequest → (signer : ℕ) → Exec Error Certificate
self_signed_ca asked signer = do
  lib ← gets (λ w. w.env.lib)
  let req : CertRequest = record asked { public_key = lib.public_of signer }
  tmpl ← build_template req
  ski ← subject_key_id req.public_key
  der ← lift (
      or_error (
        lib.create_self_signed (record tmpl { subject_key_id = ski; authority_key_id = ski }) signer
          req.public_key))
  lift (or_error (lib.parse_certificate der))

unfoldable pub issue_ca : CertRequest → Issuer → Exec Error Certificate
issue_ca req issuer = do
  tmpl ← build_template req
  ski ← subject_key_id req.public_key
  lib ← gets (λ w. w.env.lib)
  der ← lift (
      or_error (
        lib.create_certificate
          (record tmpl { subject_key_id = ski; authority_key_id = issuer.cert.subject_key_id })
          issuer req.public_key))
  lift (or_error (lib.parse_certificate der))
