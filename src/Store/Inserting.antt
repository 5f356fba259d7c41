-- ===== src/Store/Inserting.antt =====
-- What the success of Create of a certificate and of Append of an audit entry means for the tables.
use trust_mate.Common.{
  ◌≡◌, inl, inr, none, [], ◌∷◌, ◌++◌, arith, Bool-cases, Option-cases, if_absent,
}
use trust_mate.Store.Records.{CertificateRecord, AuditEntry}
use trust_mate.Store.Table.{by_key}
use trust_mate.Store.Certificates
use trust_mate.Store.Certificates.{serial_of}
use trust_mate.Store.Audit
use trust_mate.World.{World}
use trust_mate.Exec.{ok, statement}

-- Where Create succeeds, the serial was new, and the ledger has one row more, at its end.
pub create-ok :
    (rec : CertificateRecord) (w : World)
    → (Certificates.create rec w).0 ≡ ok tt
    → (by_key serial_of rec.serial w.db.certificates ≡ none)
      × ((Certificates.create rec w).1.db
          ≡ record w.db { certificates = w.db.certificates ++ Certificates.stored rec ∷ [] })
unfolding Certificates.create Certificates.insert statement if_absent
create-ok rec w h = elim (Bool-cases (w.env.fault w.tick)) [
  | inl e ↦ absurd (ground (arith, h, e))
  | inr e ↦ (elim (Option-cases (by_key serial_of rec.serial w.db.certificates)) [
    | inr (r, f) ↦ absurd (ground (arith, h, e, f))
    | inl f ↦ (elim (Bool-cases (Certificates.issuer_exists rec w.db.certificates)) [
      | inl g ↦ (f, ground (arith, e, f, g))
      | inr g ↦ absurd (ground (arith, h, e, f, g))
    ])
  ])
]

-- Where Append succeeds, the log has one entry more, at its end.
pub append-ok :
    (e : AuditEntry) (w : World)
    → (Audit.append e w).0 ≡ ok tt
    → (Audit.append e w).1.db
      ≡ record w.db { audit_log = w.db.audit_log ++ Audit.stored e w.db.audit_log ∷ [] }
unfolding Audit.append Audit.insert statement
append-ok e w h = elim (Bool-cases (w.env.fault w.tick)) [
  | inl x ↦ absurd (ground (arith, h, x))
  | inr x ↦ ground (arith, x)
]
