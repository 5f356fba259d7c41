-- ===== src/Store/Nonces.antt =====
-- acmeNonceRepository of internal/store/sqlite/acme.go
use trust_mate.Common.{ℕ, String, Bool, [], ◌∷◌, ◌++◌, ◌&&◌, ◌==◌, ltb, if_absent}
use trust_mate.Store.Records.{Time, NonceRow, Error, other, Db}
use trust_mate.Store.Table.{by_key, delete_where, count_where}
use trust_mate.Store.Timestamp.{column, format_rfc3339}
use trust_mate.Exec.{Result, ok, err, Exec, ◌>>=◌, ◌>>◌, pure, statement, random_text}

abbrev pub nonce_of : NonceRow → String
nonce_of r = r.nonce

-- store.ACMENonceBytes
abbrev nonce_bytes : ℕ
nonce_bytes = 24

unfoldable pub insert : String → Time → Db → Result Error (Unit {0}) × Db
insert nonce expires_at db =
    let row : NonceRow = record { nonce = nonce; expires_at = column expires_at } in
    if_absent (by_key nonce_of nonce db.nonces)
      (ok tt, record db { nonces = db.nonces ++ row ∷ [] }) (err other, db)

unfoldable pub issue : Time → Exec Error String
issue expires_at = do
  nonce ← random_text nonce_bytes
  statement (insert nonce expires_at)
  pure nonce

-- expires_at > now, on the texts of the column
abbrev pub is_live : Time → NonceRow → Bool
is_live now r = ltb (format_rfc3339 now) (format_rfc3339 r.expires_at)

-- the DELETE, with the number of rows that it met
unfoldable pub delete : String → Time → Db → Result Error ℕ × Db
delete nonce now db =
    let p : NonceRow → Bool = λ r. r.nonce == nonce && is_live now r in
    (ok (count_where p db.nonces), record db { nonces = delete_where p db.nonces })

unfoldable pub consume_if_valid : String → Time → Exec Error Bool
consume_if_valid nonce now = do n ← statement (delete nonce now); pure (ltb 0 n)
