-- ===== src/Store/Revoking.antt =====
-- Revocation in the ledger: what Revoke answers and writes.
use trust_mate.Common.{
  eq_iff, ◌+◌, ◌≡◌, refl, String, Bool, false, Option, none, some, arith, ◌&&◌, ◌==◌, not,
  if◌then◌else◌, Option-cases, inl, inr,
}
use trust_mate.Store.Records.{Time, CertificateRecord, Error, not_found, already_revoked}
use trust_mate.Store.Table.{by_key, key-by_key, by_key-update, count-by_key}
use trust_mate.Store.Extends.{IsKeyed}
use trust_mate.World.{World}
use trust_mate.Exec.{Result, ok, err, ◌>>=◌, query}
use trust_mate.Store.Certificates.{serial_of, is_revoked, get_by_serial, mark_revoked, revoke}
use trust_mate.Store.Timestamp.{column}
use trust_mate.Store.SingleUse.{IsHealthy}

-- what Revoke promises, as a function of the row that the serial finds
abbrev pub revoke_result : Option CertificateRecord → Result Error (Unit {0})
revoke_result none = err not_found
revoke_result (some r) = if is_revoked r then err already_revoked else ok tt

-- the row with the revocation that Revoke writes, times to the second
abbrev pub revoked_as : String → Time → CertificateRecord → CertificateRecord
revoked_as reason at r = record r { revoked_at = some (column at); revocation_reason = reason }

-- With unique keys and a healthy datastore, Revoke answers ErrNotFound for an unknown serial,
-- ErrAlreadyRevoked for a revoked certificate, and else succeeds.
pub revoke-eq-revoke_result :
    (serial reason : String) (at : Time) (w : World)
    → IsKeyed w.db
    → IsHealthy w
    → (revoke serial reason at w).0 ≡ revoke_result (by_key serial_of serial w.db.certificates)
unfolding revoke get_by_serial ◌>>=◌ query mark_revoked
revoke-eq-revoke_result serial reason at w u h =
    let rows = w.db.certificates in
    let hits = count-by_key serial_of (λ r. not (is_revoked r)) serial rows u.certificates in
    ground (arith, h w.tick, h (w.tick + 1), hits)

-- With unique keys, where Revoke succeeds, whatever the environment, the ledger had the
-- certificate without a revocation, has it with the given reason and time, and every other
-- certificate is as it was.
pub revoke-ok :
    (serial reason : String) (at : Time) (w : World)
    → IsKeyed w.db
    → (revoke serial reason at w).0 ≡ ok tt
    → (r : CertificateRecord) × (by_key serial_of serial w.db.certificates ≡ some r)
      × (is_revoked r ≡ false)
      × ((k : String)
          → by_key serial_of k (revoke serial reason at w).1.db.certificates ≡ (
              if serial == k
              then some (revoked_as reason at r)
              else by_key serial_of k w.db.certificates))
unfolding revoke get_by_serial ◌>>=◌ query mark_revoked
revoke-ok serial reason at w u h =
    let rows = w.db.certificates in
    let p : CertificateRecord → Bool = λ r. r.serial == serial && not (is_revoked r) in
    let hits = count-by_key serial_of (λ r. not (is_revoked r)) serial rows u.certificates in
    let later =
      λ (k : String). by_key-update serial_of (revoked_as reason at) (λ r. refl) p k rows in
    elim (Option-cases (by_key serial_of serial rows)) [
      | inl e ↦ absurd (ground (arith, hits, e))
      | inr (r, e) ↦ (
        r,
        e,
        ground (arith, hits, e),
        λ k. elim (Option-cases (by_key serial_of k rows)) [
          | inl f ↦ ground (arith, hits, e, f, later k, eq_iff serial k)
          | inr (x, f) ↦ ground (
            arith,
            hits,
            e,
            f,
            later k,
            key-by_key serial_of k rows x f,
            eq_iff serial k,
            eq_iff k serial,
          )
        ],
      )
    ]
