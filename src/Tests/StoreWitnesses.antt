-- ===== src/Tests/StoreWitnesses.antt =====
-- The theorems on the repositories at concrete tables.
use trust_mate.Common.{◌≡◌, ◌≢◌, refl, String, true, false, none, some, arith}
use trust_mate.Common.{if◌then◌else◌, ◌==◌, ◌&&◌}
use trust_mate.Store.Records
use trust_mate.Store.Revoking
use trust_mate.Store.Table
use trust_mate.Store.Records.{ready, processing, valid}
use trust_mate.Store.Table.{first_where, update_where, count_where, delete_where}
use trust_mate.Store.Certificates
use trust_mate.Store.Certificates.{revoke}
use trust_mate.Store.EabTokens
use trust_mate.Store.EabTokens.{mark_consumed}
use trust_mate.Store.Orders
use trust_mate.Store.Orders.{update_status}
use trust_mate.Store.Nonces
use trust_mate.Store.Nonces.{consume_if_valid}
use trust_mate.Store.Extends.{IsKeyed, Extends-preorder}
use trust_mate.Store.SingleUse.{IsHealthy, mark_consumed_once, mark_consumed-eq-claim_result}
use trust_mate.Store.Claims.{
  update_status_once, update_status-eq-swap_result, update_status-applied,
}
use trust_mate.Store.Revoking.{revoke-eq-revoke_result, revoke-ok}
use trust_mate.Store.Replay.{consume_if_valid_once, consume_if_valid-eq-nonce_result}
use trust_mate.Exec.{ok, err, ◌>>=◌, statement, query}
use trust_mate.Tests.Fixtures.{start, db, world}

pub db-IsKeyed : IsKeyed db
unfolding first_where
db-IsKeyed = record {
  certificates = (refl, (refl, tt));
  client_roles = (refl, (refl, tt));
  eab_tokens = (refl, tt);
  accounts = (refl, tt);
  thumbprints = (refl, tt);
  orders = (refl, tt);
  nonces = (refl, tt);
  profiles = tt;
  audit_log = tt;
}

pub world-IsHealthy : IsHealthy world
world-IsHealthy n = refl

claimed : (mark_consumed "key" start world).0 ≡ ok tt
unfolding mark_consumed ◌>>=◌ statement query EabTokens.claim EabTokens.count_keys count_where
    update_where
claimed = refl

mark_consumed_once_example :
    (mark_consumed "key" start (mark_consumed "key" start world).1).0 ≢ ok tt
mark_consumed_once_example =
    mark_consumed_once "key" start start world (mark_consumed "key" start world).1 db-IsKeyed
      claimed (Extends-preorder.same (mark_consumed "key" start world).1.db)

mark_consumed-eq-claim_result_example : (mark_consumed "key" start world).0 ≡ ok tt
unfolding first_where
mark_consumed-eq-claim_result_example =
    mark_consumed-eq-claim_result "key" start world db-IsKeyed world-IsHealthy

swapped : (update_status "order" ready processing "" world).0 ≡ ok true
unfolding update_status ◌>>=◌ statement query Orders.compare_and_swap Orders.count_ids count_where
    update_where
swapped = refl

update_status_once_example :
    (update_status "order" ready valid "9" (update_status "order" ready processing "" world).1).0
    ≢ ok true
update_status_once_example =
    update_status_once "order" ready processing valid "" "9" world
      (update_status "order" ready processing "" world).1 (omega arith) db-IsKeyed swapped
      (Extends-preorder.same (update_status "order" ready processing "" world).1.db)

update_status-eq-swap_result_example : (update_status "order" ready processing "" world).0 ≡ ok true
unfolding first_where
update_status-eq-swap_result_example =
    update_status-eq-swap_result "order" ready processing "" world db-IsKeyed world-IsHealthy

update_status-applied_example :
    (r : Records.OrderRecord) × (Table.by_key Orders.id_of "order" world.db.orders ≡ some r)
    × (r.status ≡ ready)
    × (Table.by_key Orders.id_of "order"
          (update_status "order" ready processing "" world).1.db.orders
        ≡ some (Orders.set_status processing "" r))
update_status-applied_example =
    update_status-applied "order" ready processing "" world db-IsKeyed swapped

revoked : (revoke "5" "keyCompromise" start world).0 ≡ ok tt
unfolding revoke Certificates.get_by_serial ◌>>=◌ statement query Certificates.mark_revoked
    first_where count_where update_where
revoked = refl

revoke-eq-revoke_result_example :
    (revoke "7" "keyCompromise" start world).0 ≡ err Records.already_revoked
unfolding first_where
revoke-eq-revoke_result_example =
    revoke-eq-revoke_result "7" "keyCompromise" start world db-IsKeyed world-IsHealthy

revoke-ok_example :
    (r : Records.CertificateRecord) × (Table.by_key Certificates.serial_of "5" world.db.certificates
      ≡ some r)
    × (Certificates.is_revoked r ≡ false)
    × ((k : String)
        → Table.by_key Certificates.serial_of k
            (revoke "5" "keyCompromise" start world).1.db.certificates
          ≡ (if "5" == k
              then some (Revoking.revoked_as "keyCompromise" start r)
              else Table.by_key Certificates.serial_of k world.db.certificates))
revoke-ok_example = revoke-ok "5" "keyCompromise" start world db-IsKeyed revoked

consumed : (consume_if_valid "nonce" start world).0 ≡ ok true
unfolding consume_if_valid ◌>>=◌ statement Nonces.delete count_where
consumed = refl

consume_if_valid-eq-nonce_result_example :
    ((consume_if_valid "nonce" start world).0 ≡ ok true)
    × ((k : String)
        → Table.by_key Nonces.nonce_of k (consume_if_valid "nonce" start world).1.db.nonces
          ≡ (if "nonce" == k && true then none else Table.by_key Nonces.nonce_of k world.db.nonces))
unfolding first_where
consume_if_valid-eq-nonce_result_example =
    consume_if_valid-eq-nonce_result "nonce" start world db-IsKeyed world-IsHealthy

consume_if_valid_once_example :
    (consume_if_valid "nonce" start (consume_if_valid "nonce" start world).1).0 ≢ ok true
consume_if_valid_once_example =
    consume_if_valid_once "nonce" start start world (consume_if_valid "nonce" start world).1
      db-IsKeyed consumed (Extends-preorder.same (consume_if_valid "nonce" start world).1.db)
      (λ gone. gone)
