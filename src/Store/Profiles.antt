-- ===== src/Store/Profiles.antt =====
-- internal/store/sqlite/profiles.go
use mathlib.Core.List.{reverse, head?}
use trust_mate.Common.{
  String, Bool, Option, List, [], ◌∷◌, ◌++◌, ◌&&◌, ◌==◌, nat_eq, select, order_by, if_absent,
}
use trust_mate.Store.Records.{ProfileRecord, Error, Db}
use trust_mate.Store.Table.{first_where, update_where}
use trust_mate.Store.Timestamp.{column}
use trust_mate.Store.Certificates.{scan}
use trust_mate.Exec.{Result, ok, Exec, statement, query}

abbrev pub same_version : ProfileRecord → ProfileRecord → Bool
same_version rec r = r.name == rec.name && nat_eq r.version rec.version

-- INSERT … ON CONFLICT (name, version) DO UPDATE SET data, created_at
unfoldable pub write : ProfileRecord → Db → Result Error (Unit {0}) × Db
write rec db =
    let row : ProfileRecord = record rec { created_at = column rec.created_at } in
    let set : ProfileRecord → ProfileRecord =
      λ r. record r { contents = row.contents; created_at = row.created_at } in
    if_absent (first_where (same_version rec) db.profiles)
      (ok tt, record db { profiles = db.profiles ++ row ∷ [] })
      (ok tt, record db { profiles = update_where (same_version rec) set db.profiles })

unfoldable pub upsert : ProfileRecord → Exec Error (Unit {0})
upsert rec = statement (write rec)

-- WHERE name = ? ORDER BY version DESC LIMIT 1
unfoldable pub latest : String → List ProfileRecord → Option ProfileRecord
latest name rows = head? (reverse (order_by (λ r. r.version) (select (λ r. r.name == name) rows)))

unfoldable pub get : String → Exec Error ProfileRecord
get name = query (λ db. scan (latest name db.profiles))
