-- ===== src/Store/Certificates.antt =====
-- internal/store/sqlite/certificates.go
use mathlib.Core.List.{reverse, head?}
use trust_mate.Common.{
  ℕ, String, Bool, true, false, Option, none, some, List, [], ◌∷◌, ◌++◌, ◌&&◌, not, ◌==◌, select,
  order_by, if◌then◌else◌, if_absent, nat_eq,
}
use trust_mate.Store.Records.{
  Time, CertKind, root, intermediate, leaf, CertificateRecord, Error, not_found, already_revoked,
  other, Db,
}
use trust_mate.Store.Table.{by_key, update_where, count_where}
use trust_mate.Store.Timestamp.{column}
use trust_mate.Exec.{Result, ok, err, Exec, ◌>>=◌, pure, raise, statement, query}

abbrev pub serial_of : CertificateRecord → String
serial_of r = r.serial

-- the row that Create writes: no revocation columns, times to the second
abbrev pub stored : CertificateRecord → CertificateRecord
stored rec = record rec {
  not_before = column rec.not_before;
  not_after = column rec.not_after;
  created_at = column rec.created_at;
  revoked_at = none;
  revocation_reason = "";
}

-- REFERENCES certificates(serial), NULL for the empty text
pub issuer_exists : CertificateRecord → List CertificateRecord → Bool
issuer_exists rec rows =
    if rec.issuer_serial == ""
    then true
    else if_absent (by_key serial_of rec.issuer_serial (rows ++ stored rec ∷ [])) false true

-- the INSERT, with the primary key and the foreign key
unfoldable pub insert : CertificateRecord → Db → Result Error (Unit {0}) × Db
unfolding issuer_exists
insert rec db =
    if_absent (by_key serial_of rec.serial db.certificates)
      (if issuer_exists rec db.certificates
        then (ok tt, record db { certificates = db.certificates ++ stored rec ∷ [] })
        else (err other, db))
      (err other, db)

unfoldable pub create : CertificateRecord → Exec Error (Unit {0})
create rec = statement (insert rec)

-- scanCertificate: sql.ErrNoRows is ErrNotFound
abbrev pub scan : {A : Type 0} → Option A → Result Error A
scan none = err not_found
scan (some rec) = ok rec

unfoldable pub get_by_serial : String → Exec Error CertificateRecord
get_by_serial serial = query (λ db. scan (by_key serial_of serial db.certificates))

abbrev pub kind_eq : CertKind → CertKind → Bool
kind_eq root root = true
kind_eq intermediate intermediate = true
kind_eq leaf leaf = true
kind_eq _ _ = false

-- ORDER BY created_at ASC, rowid ASC
unfoldable pub of_kind : CertKind → List CertificateRecord → List CertificateRecord
of_kind kind rows = order_by (λ r. r.created_at) (select (λ r. kind_eq r.kind kind) rows)

unfoldable pub find_by_kind : CertKind → Exec Error (List CertificateRecord)
find_by_kind kind = query (λ db. ok (of_kind kind db.certificates))

-- ORDER BY created_at DESC, rowid DESC LIMIT 1
unfoldable pub latest_of_profile : String → List CertificateRecord → Option CertificateRecord
latest_of_profile name rows =
    head? (reverse (order_by (λ r. r.created_at) (select (λ r. r.profile_name == name) rows)))

unfoldable pub get_latest_by_profile : String → Exec Error CertificateRecord
get_latest_by_profile name = query (λ db. scan (latest_of_profile name db.certificates))

abbrev pub is_revoked : CertificateRecord → Bool
is_revoked r = elim r.revoked_at [ none ↦ false | some _ ↦ true ]

-- UPDATE … SET revoked_at, revocation_reason WHERE serial = ? AND revoked_at IS NULL, with the number
-- of rows that it met
unfoldable pub mark_revoked : String → String → Time → Db → Result Error ℕ × Db
mark_revoked serial reason at db =
    let p : CertificateRecord → Bool = λ r. r.serial == serial && not (is_revoked r) in
    let set : CertificateRecord → CertificateRecord =
      λ r. record r { revoked_at = some (column at); revocation_reason = reason } in
    (
      ok (count_where p db.certificates),
      record db { certificates = update_where p set db.certificates },
    )

unfoldable pub revoke : String → String → Time → Exec Error (Unit {0})
revoke serial reason at = do
  rec ← get_by_serial serial
  if is_revoked rec then raise already_revoked else do
    n ← statement (mark_revoked serial reason at)
    if nat_eq n 0 then raise already_revoked else pure tt

-- WHERE revoked_at IS NOT NULL ORDER BY revoked_at ASC
unfoldable pub revoked_rows : List CertificateRecord → List CertificateRecord
revoked_rows rows =
    order_by (λ r. elim r.revoked_at [ none ↦ 0 | some t ↦ t ]) (select is_revoked rows)

unfoldable pub find_revoked : Exec Error (List CertificateRecord)
find_revoked = query (λ db. ok (revoked_rows db.certificates))
