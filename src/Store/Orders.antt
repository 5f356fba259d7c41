-- ===== src/Store/Orders.antt =====
-- acmeOrderRepository of internal/store/sqlite/acme.go
use trust_mate.Common.{
  ℕ, String, Bool, true, false, [], ◌∷◌, ◌++◌, ◌&&◌, ◌==◌, ltb, nat_eq, if_absent, ◌≡◌, arith,
  if◌then◌else◌,
}
use trust_mate.Store.Records.{
  OrderStatus, ready, processing, valid, OrderRecord, Error, not_found, other, Db,
}
use trust_mate.Store.Table.{by_key, update_where, count_where}
use trust_mate.Store.Timestamp.{column}
use trust_mate.Store.Certificates.{scan}
use trust_mate.Store.Accounts
use trust_mate.Exec.{Result, ok, err, Exec, ◌>>=◌, pure, raise, statement, query}

abbrev pub id_of : OrderRecord → String
id_of r = r.id

abbrev pub stored : OrderRecord → OrderRecord
stored rec = record rec { created_at = column rec.created_at }

unfoldable pub insert : OrderRecord → Db → Result Error (Unit {0}) × Db
insert rec db =
    if_absent (by_key id_of rec.id db.orders)
      (if_absent (by_key Accounts.id_of rec.account_id db.accounts) (err other, db)
        (ok tt, record db { orders = db.orders ++ stored rec ∷ [] }))
      (err other, db)

unfoldable pub create : OrderRecord → Exec Error (Unit {0})
create rec = statement (insert rec)

unfoldable pub get : String → Exec Error OrderRecord
get id = query (λ db. scan (by_key id_of id db.orders))

abbrev pub status_eq : OrderStatus → OrderStatus → Bool
status_eq ready ready = true
status_eq processing processing = true
status_eq valid valid = true
status_eq _ _ = false

pub status_eq_sound : (a b : OrderStatus) → status_eq a b ≡ true → a ≡ b
status_eq_sound ready b h = ground arith
status_eq_sound processing b h = ground arith
status_eq_sound valid b h = ground arith

abbrev pub set_status : OrderStatus → String → OrderRecord → OrderRecord
set_status to cert_serial r = record r { status = to; cert_serial = cert_serial }

-- UPDATE … SET status, cert_serial WHERE id = ? AND status = ?, with the number of rows that it met
unfoldable pub compare_and_swap :
    String → OrderStatus → OrderStatus → String → Db → Result Error ℕ × Db
compare_and_swap id from to cert_serial db =
    let p : OrderRecord → Bool = λ r. r.id == id && status_eq r.status from in
    (
      ok (count_where p db.orders),
      record db { orders = update_where p (set_status to cert_serial) db.orders },
    )

unfoldable pub count_ids : String → Db → Result Error ℕ
count_ids id db = ok (count_where (λ r. r.id == id) db.orders)

unfoldable pub update_status : String → OrderStatus → OrderStatus → String → Exec Error Bool
update_status id from to cert_serial = do
  n ← statement (compare_and_swap id from to cert_serial)
  if ltb 0 n
      then pure true
      else do exists ← query (count_ids id); if nat_eq exists 0 then raise not_found else pure false
