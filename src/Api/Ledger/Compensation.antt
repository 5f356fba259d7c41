-- ===== src/Api/Ledger/Compensation.antt =====
-- Role assignment after an issuance (assignRoleOrRevoke of internal/api/certificates.go) where it fails.
use trust_mate.Common.{◌≡◌, ◌⊎◌, inl, inr, some, arith, Bool-cases, eq_refl}
use trust_mate.Store.Records.{Time, CertificateRecord, ClientRole, ClientRoleRecord, Error}
use trust_mate.Store.Table.{by_key}
use trust_mate.Store.Certificates.{serial_of, revoke}
use trust_mate.Store.ClientRoles
use trust_mate.Store.Audit
use trust_mate.Store.Extends.{IsKeyed}
use trust_mate.Store.Evolution.{assign_role-Grows}
use trust_mate.Store.Revoking.{revoked_as, revoke-ok}
use trust_mate.World.{World}
use trust_mate.Exec.{err, ◌>>=◌, attempt, try, statement}
use trust_mate.Exec.Inversion.{Result-cases}
use trust_mate.Api.Issuing.{compensate, assign_role_or_revoke}

abbrev pub assignment : CertificateRecord → ClientRole → Time → ClientRoleRecord
assignment rec role now = record { cert_serial = rec.serial; role = role; created_at = now }

-- With unique keys, where assignRoleOrRevoke fails, its error is that of the assignment, and the
-- certificate is in the ledger as revoked, for no specified reason, or the compensating
-- revocation failed too.
pub assign_role_or_revoke-err :
    (rec : CertificateRecord) (role : ClientRole) (now : Time) (w : World) (e : Error)
    → IsKeyed w.db
    → (assign_role_or_revoke rec role now w).0 ≡ err e
    → ((ClientRoles.assign (assignment rec role now) w).0 ≡ err e)
      × (((r : CertificateRecord) × (by_key serial_of rec.serial
                (assign_role_or_revoke rec role now w).1.db.certificates
              ≡ some (revoked_as "unspecified" now r)))
          ⊎ ((f : Error) × ((revoke rec.serial "unspecified" now
                  (ClientRoles.assign (assignment rec role now) w).1).0
                ≡ err f)))
unfolding assign_role_or_revoke compensate ◌>>=◌ attempt try statement Audit.append Audit.insert
assign_role_or_revoke-err rec role now w e u h =
    let a = ClientRoles.assign (assignment rec role now) w in
    let u' = ((assign_role-Grows (assignment rec role now)).at w).keyed u in
    elim (Result-cases a.0) [
      | inl (_, p) ↦ absurd (ground (arith, h, p))
      | inr (e', p) ↦ (elim (Result-cases (revoke rec.serial "unspecified" now a.1).0) [
        | inr (f, q) ↦ (ground (arith, h, p, q), inr (f, q))
        | inl (_, q) ↦
            (let (r, _, _, later) = revoke-ok rec.serial "unspecified" now a.1 u' q in
              let v = (revoke rec.serial "unspecified" now a.1).1 in
              elim (Bool-cases (v.env.fault v.tick)) [
                | inl x ↦ (
                  ground (arith, h, p, q),
                  inl (r, ground (arith, h, p, q, x, later rec.serial, eq_refl rec.serial)),
                )
                | inr x ↦ (
                  ground (arith, h, p, q),
                  inl (r, ground (arith, h, p, q, x, later rec.serial, eq_refl rec.serial)),
                )
              ])
      ])
    ]
