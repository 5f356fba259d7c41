-- ===== src/Store/Accounts.antt =====
-- acmeAccountRepository of internal/store/sqlite/acme.go
use trust_mate.Common.{ℕ, String, Bool, [], ◌∷◌, ◌++◌, ◌||◌, nat_eq, if_absent, if◌then◌else◌}
use trust_mate.Store.Records.{AccountRecord, Error, already_exists, other, Db}
use trust_mate.Store.Table.{by_key}
use trust_mate.Store.Timestamp.{column}
use trust_mate.Store.Certificates.{scan}
use trust_mate.Store.EabTokens.{key_of}
use trust_mate.Exec.{Result, ok, err, Exec, statement, query}

abbrev pub id_of : AccountRecord → String
id_of r = r.id

abbrev pub thumbprint_of : AccountRecord → String
thumbprint_of r = r.jwk_thumbprint

-- SQLite's extended result codes for the constraints of the table
abbrev constraint_primary_key : ℕ
constraint_primary_key = 1555

abbrev constraint_foreign_key : ℕ
constraint_foreign_key = 787

abbrev sqlite_constraint : ℕ
sqlite_constraint = 19

abbrev sqlite_constraint_unique : ℕ
sqlite_constraint_unique = 2067

abbrev is_unique_violation : ℕ → Bool
is_unique_violation code = nat_eq code sqlite_constraint || nat_eq code sqlite_constraint_unique

-- the error of Create for a result code
abbrev violation : ℕ → Error
violation code = if is_unique_violation code then already_exists else other

abbrev pub stored : AccountRecord → AccountRecord
stored rec = record rec { created_at = column rec.created_at }

unfoldable pub insert : AccountRecord → Db → Result Error (Unit {0}) × Db
insert rec db =
    if_absent (by_key id_of rec.id db.accounts)
      (if_absent (by_key thumbprint_of rec.jwk_thumbprint db.accounts)
        (if_absent (by_key key_of rec.eab_key_id db.eab_tokens)
          (err (violation constraint_foreign_key), db)
          (ok tt, record db { accounts = db.accounts ++ stored rec ∷ [] }))
        (err (violation sqlite_constraint_unique), db))
      (err (violation constraint_primary_key), db)

unfoldable pub create : AccountRecord → Exec Error (Unit {0})
create rec = statement (insert rec)

unfoldable pub get_by_thumbprint : String → Exec Error AccountRecord
get_by_thumbprint thumbprint = query (λ db. scan (by_key thumbprint_of thumbprint db.accounts))

unfoldable pub get_by_id : String → Exec Error AccountRecord
get_by_id id = query (λ db. scan (by_key id_of id db.accounts))
