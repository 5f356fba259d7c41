-- ===== src/Api/Ledger/Revocation.antt =====
-- Revocation by request: what the answer 200 means for the ledger, the audit log and the CRL cache.
use trust_mate.Common.{◌≡◌, inl, inr, String, true, false, none, some, arith, Bool-cases, eq_refl}
use trust_mate.Store.Records.{Time, CertificateRecord}
use trust_mate.Store.Table.{by_key}
use trust_mate.Store.Certificates.{serial_of, is_revoked, revoke}
use trust_mate.Store.Audit
use trust_mate.Store.Extends.{IsKeyed}
use trust_mate.Store.Revoking.{revoked_as, revoke-ok}
use trust_mate.World.{World}
use trust_mate.Exec.{ok, ◌>>=◌, attempt, statement, modify}
use trust_mate.Exec.Inversion.{Result-cases}
use trust_mate.Api.Http.{Response, json, revoked}
use trust_mate.Api.Deps.{Deps, count, invalidate_crl}
use trust_mate.Api.Certificates.{revoke_leaf, revoke_error}

-- With unique keys, a successful answer of the revoke route, from the call of Revoke on, means
-- that the certificate was in the ledger without a revocation, that it is there now with the
-- given reason and time, that no CRL is cached where there is a CRL builder, and that the answer
-- reports this serial, time and reason.
pub revoke_leaf-ok :
    (deps : Deps) (serial reason remote_addr : String) (at : Time) (w : World) (resp : Response)
    → IsKeyed w.db
    → (revoke_leaf deps serial reason at remote_addr w).0 ≡ ok resp
    → (r : CertificateRecord) × (by_key serial_of serial w.db.certificates ≡ some r)
      × (is_revoked r ≡ false)
      × (by_key serial_of serial (revoke_leaf deps serial reason at remote_addr w).1.db.certificates
          ≡ some (revoked_as reason at r))
      × (deps.crl_builder ≡ true
          → (revoke_leaf deps serial reason at remote_addr w).1.crl.cached ≡ none)
      × (resp ≡ json 200 (revoked serial at reason))
unfolding revoke_leaf ◌>>=◌ attempt statement count invalidate_crl modify revoke_error Audit.append
    Audit.insert
revoke_leaf-ok deps serial reason remote_addr at w resp u h =
    elim (Result-cases (revoke serial reason at w).0) [
      | inr (e, k) ↦ absurd (ground (arith, h, k))
      | inl (_, k) ↦
          let (r, f, standing, later) = revoke-ok serial reason at w u k in
          let v = (revoke serial reason at w).1 in
          elim (Bool-cases (v.env.fault v.tick)) [
            | inl x ↦ absurd (ground (arith, h, k, x))
            | inr x ↦ (
              r,
              f,
              standing,
              ground (arith, k, x, later serial, eq_refl serial),
              λ c. ground (arith, k, x, c),
              ground (arith, h, k, x),
            )
          ]
    ]
