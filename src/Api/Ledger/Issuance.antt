-- ===== src/Api/Ledger/Issuance.antt =====
-- Issuance: what the success of issueLeafCertificate and of the role assignment after it means.
use trust_mate.Common.{◌≡◌, inl, inr, String, none, List, [], ◌∷◌, ◌++◌, arith, ◌+◌}
use trust_mate.Store.Records.{Time, CertificateRecord, Db}
use trust_mate.Store.Table.{by_key}
use trust_mate.Store.Certificates
use trust_mate.Store.Certificates.{serial_of}
use trust_mate.Store.Audit
use trust_mate.Store.Inserting.{create-ok, append-ok}
use trust_mate.Profiles.Types.{Profile}
use trust_mate.Pki.Types.{Name, PublicKey, Certificate}
use trust_mate.Pki.Leaf.{issue_leaf}
use trust_mate.Pki.Reads.{issue_leaf-Evolves}
use trust_mate.World.{World}
use trust_mate.Exec.{ok, ◌>>=◌}
use trust_mate.Exec.Evolves.{SameDb, SameDb-preorder}
use trust_mate.Exec.Inversion.{Result-cases}
use trust_mate.Api.Deps.{Deps}
use trust_mate.Api.Issuing.{entry, leaf_record, issue_leaf_certificate}

-- the ledger and the audit log before and after an issuance that returned `rec`
pub record IsRecorded (deps : Deps) (profile : Profile) (now : Time) (actor action detail : String)
    (before after : Db) (rec : CertificateRecord) : Type 0 where
  pub cert : Certificate
  pub pem : String
  pub returned : rec ≡ leaf_record deps profile cert pem now
  pub new : by_key serial_of rec.serial before.certificates ≡ none
  pub row : after.certificates ≡ before.certificates ++ Certificates.stored rec ∷ []
  pub audited :
      after.audit_log
      ≡ before.audit_log
        ++ Audit.stored (entry now actor action rec.serial detail) before.audit_log ∷ []

-- Where issueLeafCertificate succeeds, whatever the library functions return, the ledger has the
-- record that is returned, under a serial that it did not have, and the audit log has the entry about
-- it: each table has one row more, at its end.
pub issue_leaf_certificate-ok :
    (deps : Deps) (profile : Profile) (subject : Name) (key : PublicKey) (dns : List String)
    (now : Time) (actor action detail : String) (w : World) (rec : CertificateRecord)
    → (issue_leaf_certificate deps profile subject key dns now actor action detail w).0 ≡ ok rec
    → IsRecorded deps profile now actor action detail w.db
        (issue_leaf_certificate deps profile subject key dns now actor action detail w).1.db
        rec
unfolding issue_leaf_certificate ◌>>=◌
issue_leaf_certificate-ok deps profile subject key dns now actor action detail w rec h =
    let made =
      issue_leaf profile subject key deps.intermediate_issuer now (now + profile.validity) dns w in
    let same =
      (issue_leaf-Evolves {R = SameDb} profile subject key deps.intermediate_issuer now
          (now + profile.validity) dns).at
        w in
    elim (Result-cases made.0) [
      | inr (e, p) ↦ absurd (ground (arith, h, p))
      | inl (cert, p) ↦
          (let v = made.1 in
            let pem = v.env.lib.encode_cert_pem cert.raw in
            let r = leaf_record deps profile cert pem now in
            elim (Result-cases (Certificates.create r v).0) [
              | inr (e, q) ↦ absurd (ground (arith, h, p, q))
              | inl (_, q) ↦
                  (let x = (Certificates.create r v).1 in
                    let (fresh, inserted) = create-ok r v q in
                    let a = entry now actor action r.serial detail in
                    elim (Result-cases (Audit.append a x).0) [
                      | inr (e, t) ↦ absurd (ground (arith, h, p, q, t))
                      | inl (_, t) ↦ record {
                        cert = cert;
                        pem = pem;
                        returned = ground (arith, h, p, q, t);
                        new = ground (arith, h, p, q, t, same, fresh);
                        row = ground (arith, h, p, q, t, same, inserted, append-ok a x t);
                        audited = ground (arith, h, p, q, t, same, inserted, append-ok a x t);
                      }
                    ])
            ])
    ]
