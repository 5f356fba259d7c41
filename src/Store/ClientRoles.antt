-- ===== src/Store/ClientRoles.antt =====
-- internal/store/sqlite/clientroles.go
use trust_mate.Common.{String, Bool, List, [], ◌∷◌, ◌++◌, ◌==◌, order_by, if_absent}
use trust_mate.Store.Records.{ClientRoleRecord, Error, other, Db}
use trust_mate.Store.Table.{by_key, update_where}
use trust_mate.Store.Timestamp.{column}
use trust_mate.Store.Certificates.{serial_of, scan}
use trust_mate.Exec.{Result, ok, err, Exec, statement, query}

abbrev pub holder : ClientRoleRecord → String
holder r = r.cert_serial

abbrev pub stored : ClientRoleRecord → ClientRoleRecord
stored rec = record rec { created_at = column rec.created_at }

abbrev pub held_by : ClientRoleRecord → ClientRoleRecord → Bool
held_by rec r = r.cert_serial == rec.cert_serial

abbrev pub with_role : ClientRoleRecord → ClientRoleRecord → ClientRoleRecord
with_role rec r = record r { role = rec.role }

-- INSERT … ON CONFLICT (cert_serial) DO UPDATE SET role, with the foreign key to certificates
unfoldable pub upsert : ClientRoleRecord → Db → Result Error (Unit {0}) × Db
upsert rec db =
    if_absent (by_key serial_of rec.cert_serial db.certificates) (err other, db)
      (if_absent (by_key holder rec.cert_serial db.client_roles)
        (ok tt, record db { client_roles = db.client_roles ++ stored rec ∷ [] })
        (
          ok tt,
          record db { client_roles = update_where (held_by rec) (with_role rec) db.client_roles },
        ))

unfoldable pub assign : ClientRoleRecord → Exec Error (Unit {0})
assign rec = statement (upsert rec)

unfoldable pub get : String → Exec Error ClientRoleRecord
get serial = query (λ db. scan (by_key holder serial db.client_roles))

-- ORDER BY created_at ASC
unfoldable pub list : Exec Error (List ClientRoleRecord)
list = query (λ db. ok (order_by (λ r. r.created_at) db.client_roles))
