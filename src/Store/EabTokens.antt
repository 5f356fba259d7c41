-- ===== src/Store/EabTokens.antt =====
-- acmeEABTokenRepository of internal/store/sqlite/acme.go
use trust_mate.Common.{
  ℕ, String, Bool, true, false, [], ◌∷◌, ◌++◌, ◌&&◌, not, ◌==◌, ltb, nat_eq, if_absent,
  if◌then◌else◌,
}
use trust_mate.Store.Records.{Time, EabTokenRecord, Error, already_consumed, not_found, other, Db}
use trust_mate.Store.Table.{by_key, update_where, count_where}
use trust_mate.Store.Timestamp.{column, format_rfc3339}
use trust_mate.Store.Certificates.{scan}
use trust_mate.Exec.{Result, ok, err, Exec, ◌>>=◌, pure, raise, statement, query}

abbrev pub key_of : EabTokenRecord → String
key_of r = r.key_id

abbrev pub stored : EabTokenRecord → EabTokenRecord
stored rec = record rec {
  created_at = column rec.created_at;
  expires_at = column rec.expires_at;
  consumed = false;
}

unfoldable pub insert : EabTokenRecord → Db → Result Error (Unit {0}) × Db
insert rec db =
    if_absent (by_key key_of rec.key_id db.eab_tokens)
      (ok tt, record db { eab_tokens = db.eab_tokens ++ stored rec ∷ [] }) (err other, db)

unfoldable pub create : EabTokenRecord → Exec Error (Unit {0})
create rec = statement (insert rec)

unfoldable pub get : String → Exec Error EabTokenRecord
get key_id = query (λ db. scan (by_key key_of key_id db.eab_tokens))

-- consumed = 0 AND expires_at > now, on the texts of the column
abbrev pub claimable : Time → EabTokenRecord → Bool
claimable now r = not r.consumed && ltb (format_rfc3339 now) (format_rfc3339 r.expires_at)

abbrev pub consume : EabTokenRecord → EabTokenRecord
consume r = record r { consumed = true }

-- the UPDATE, with the number of rows that it met
unfoldable pub claim : String → Time → Db → Result Error ℕ × Db
claim key_id now db =
    let p : EabTokenRecord → Bool = λ r. r.key_id == key_id && claimable now r in
    (
      ok (count_where p db.eab_tokens),
      record db { eab_tokens = update_where p consume db.eab_tokens },
    )

-- SELECT COUNT(1) … WHERE key_id = ?
unfoldable pub count_keys : String → Db → Result Error ℕ
count_keys key_id db = ok (count_where (λ r. r.key_id == key_id) db.eab_tokens)

unfoldable pub mark_consumed : String → Time → Exec Error (Unit {0})
mark_consumed key_id now = do
  n ← statement (claim key_id now)
  if ltb 0 n then pure tt else do
    exists ← query (count_keys key_id)
    if nat_eq exists 0 then raise not_found else raise already_consumed
