-- ===== src/Store/Claims.antt =====
-- The compare-and-swap on ACME orders: the answers of UpdateStatus.
use trust_mate.Common.{
  ◌<◌, ◌+◌, ◌≡◌, ◌≢◌, refl, String, Bool, true, Option, none, some, arith, ◌&&◌, ◌==◌, Option-cases,
  inl, inr, eq_refl,
}
use trust_mate.Store.Records.{OrderRecord, OrderStatus, Error, not_found}
use trust_mate.Store.Table.{
  by_key, key-by_key, by_key-update, count-by_key, update_where-none, count_where-none,
  count_where-some,
}
use trust_mate.Store.Orders.{
  id_of, status_eq, set_status, compare_and_swap, count_ids, update_status, status_eq_sound,
}
use trust_mate.Store.Extends.{rank, IsKeyed, Extends}
use trust_mate.Store.Evolution.{update_status-Grows}
use trust_mate.World.{World}
use trust_mate.Exec.{Result, ok, err, ◌>>=◌, query}
use trust_mate.Store.SingleUse.{IsHealthy}

-- what UpdateStatus promises, as a function of the row that the id finds
abbrev pub swap_result : OrderStatus → Option OrderRecord → Result Error Bool
swap_result from none = err not_found
swap_result from (some r) = ok (status_eq r.status from)

-- With unique keys and a healthy datastore, UpdateStatus answers true exactly if the order's
-- status is still the expected one, false if it is another, and ErrNotFound if there is no such
-- order.
pub update_status-eq-swap_result :
    (id : String) (from to : OrderStatus) (cert_serial : String) (w : World)
    → IsKeyed w.db
    → IsHealthy w
    → (update_status id from to cert_serial w).0 ≡ swap_result from (by_key id_of id w.db.orders)
unfolding update_status ◌>>=◌ query compare_and_swap count_ids
update_status-eq-swap_result id from to cert_serial w u h =
    let rows = w.db.orders in
    let p : OrderRecord → Bool = λ r. r.id == id && status_eq r.status from in
    let same = update_where-none p (set_status to cert_serial) rows in
    let hits = count-by_key id_of (λ r. status_eq r.status from) id rows u.orders in
    elim (Option-cases (by_key id_of id rows)) [
      | inl e ↦ ground (
        arith,
        h w.tick,
        h (w.tick + 1),
        hits,
        e,
        same,
        count_where-none (λ r. r.id == id) rows e,
      )
      | inr (r, e) ↦ ground (
        arith,
        h w.tick,
        h (w.tick + 1),
        hits,
        e,
        same,
        count_where-some (λ r. r.id == id) rows r e,
      )
    ]

-- With unique keys, an UpdateStatus that applied, whatever fails, met the order in the expected
-- status and leaves it in the new status with the given serial.
pub update_status-applied :
    (id : String) (from to : OrderStatus) (cert_serial : String) (w : World)
    → IsKeyed w.db
    → (update_status id from to cert_serial w).0 ≡ ok true
    → (r : OrderRecord) × (by_key id_of id w.db.orders ≡ some r)
      × (r.status ≡ from)
      × (by_key id_of id (update_status id from to cert_serial w).1.db.orders
          ≡ some (set_status to cert_serial r))
unfolding update_status ◌>>=◌ query compare_and_swap count_ids
update_status-applied id from to cert_serial w u h =
    let rows = w.db.orders in
    let p : OrderRecord → Bool = λ r. r.id == id && status_eq r.status from in
    let hits = count-by_key id_of (λ r. status_eq r.status from) id rows u.orders in
    let later = by_key-update id_of (set_status to cert_serial) (λ r. refl) p id rows in
    elim (Option-cases (by_key id_of id rows)) [
      | inl e ↦ absurd (ground (arith, hits, e))
      | inr (r, e) ↦ (
        r,
        e,
        ground (arith, hits, e, status_eq_sound r.status from),
        ground (arith, hits, e, later, key-by_key id_of id rows r e, eq_refl id),
      )
    ]

moved-update_status :
    (id : String) (from to : OrderStatus) (cert_serial : String) (w : World) (r : OrderRecord)
    → IsKeyed w.db
    → by_key id_of id w.db.orders ≡ some r
    → rank from < rank r.status
    → (update_status id from to cert_serial w).0 ≢ ok true
unfolding update_status ◌>>=◌ query compare_and_swap count_ids
moved-update_status id from to cert_serial w r u e c h = ground (
  arith,
  e,
  c,
  status_eq_sound r.status from,
  count-by_key id_of (λ x. status_eq x.status from) id w.db.orders u.orders,
)

-- With unique keys, if an UpdateStatus to a later status applies to an order, then no later
-- UpdateStatus from the same status applies to it, to whatever status, however the requests in
-- between have extended the datastore and whatever statements fail.
pub update_status_once :
    (id : String) (from to to' : OrderStatus) (cert_serial cert_serial' : String) (w v : World)
    → rank from < rank to
    → IsKeyed w.db
    → (update_status id from to cert_serial w).0 ≡ ok true
    → Extends (update_status id from to cert_serial w).1.db v.db
    → (update_status id from to' cert_serial' v).0 ≢ ok true
update_status_once id from to to' cert_serial cert_serial' w v up u h x =
    let (r, _, _, found) = update_status-applied id from to cert_serial w u h in
    let (s, found', kept) = x.orders id _ found in
    let u' = x.keyed (((update_status-Grows id from to cert_serial up).at w).keyed u) in
    moved-update_status id from to' cert_serial' v s u' found' (omega (arith, kept.forward))
