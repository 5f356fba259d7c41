-- ===== src/Api/Growth/Orders.antt =====
-- The ACME order routes of internal/api/acme.go, and the relation `Extends`.
use trust_mate.Common.{String, Option, arith}
use trust_mate.Store.Records.{
  Octets, AccountRecord, OrderRecord, Error, not_found, ready, processing, valid,
}
use trust_mate.Store.Orders
use trust_mate.Store.Extends.{Extends-preorder}
use trust_mate.Store.Evolution.{Grows, update_status-Grows}
use trust_mate.Acme.Types.{Jws}
use trust_mate.Pki.Types.{CertificateRequest}
use trust_mate.Api.Deps.{Deps}
use trust_mate.Api.Growth.Enrollment.{acme_grows, acme_problem-Grows}
use trust_mate.Api.Acme.Orders.{
  handle_new_order, order_problem, get_order, handle_get_order, handle_get_authorization,
  finalize_csr, issue_for_order, finalize_ready, handle_finalize, handle_certificate,
}

-- POST /v1/acme/new-order leaves a datastore that extends the one it found, whatever the request and
-- whatever fails.
pub handle_new_order-Grows :
    (deps : Deps) (body : Option Octets) → Grows (handle_new_order deps body)
unfolding handle_new_order
handle_new_order-Grows deps body = search acme_grows depth 20

order_problem-Grows : {A : Type 0} (e : Error) → Grows (order_problem {A = A} e)
unfolding order_problem
order_problem-Grows not_found = acme_problem-Grows _ _
order_problem-Grows _ = acme_problem-Grows _ _

get_order_or_404-Grows : (id : String) → Grows (get_order id)
unfolding get_order
get_order_or_404-Grows id = search (acme_grows, order_problem-Grows)

pub handle_get_order-Grows : (deps : Deps) (id : String) → Grows (handle_get_order deps id)
unfolding handle_get_order
handle_get_order-Grows deps id = search (acme_grows, get_order_or_404-Grows)

pub handle_get_authorization-Grows : (id : String) → Grows (handle_get_authorization id)
unfolding handle_get_authorization
handle_get_authorization-Grows id = search (acme_grows, get_order_or_404-Grows)

pub finalize_csr-Grows : (jws : Jws) (o : OrderRecord) → Grows (finalize_csr jws o)
unfolding finalize_csr
finalize_csr-Grows jws o = search acme_grows depth 14

-- the two steps of an order's life
pub claim_order-Grows :
    (id cert_serial : String) → Grows (Orders.update_status id ready processing cert_serial)
claim_order-Grows id cert_serial = update_status-Grows id ready processing cert_serial (omega arith)

complete_order-Grows :
    (id cert_serial : String) → Grows (Orders.update_status id processing valid cert_serial)
complete_order-Grows id cert_serial =
    update_status-Grows id processing valid cert_serial (omega arith)

pub issue_for_order-Grows :
    (deps : Deps) (account : AccountRecord) (o : OrderRecord) (csr : CertificateRequest)
    → Grows (issue_for_order deps account o csr)
unfolding issue_for_order
issue_for_order-Grows deps account o csr = search (acme_grows, complete_order-Grows) depth 20

pub finalize_ready-Grows :
    (deps : Deps) (jws : Jws) (account : AccountRecord) (o : OrderRecord)
    → Grows (finalize_ready deps jws account o)
unfolding finalize_ready
finalize_ready-Grows deps jws account o =
    search (acme_grows, finalize_csr-Grows, claim_order-Grows, issue_for_order-Grows) depth 12

-- POST /v1/acme/order/{id}/finalize leaves a datastore that extends the one it found, whatever the
-- request and whatever fails.
pub handle_finalize-Grows :
    (deps : Deps) (id : String) (body : Option Octets) → Grows (handle_finalize deps id body)
unfolding handle_finalize
handle_finalize-Grows deps id body =
    search (acme_grows, get_order_or_404-Grows, finalize_ready-Grows) depth 18

pub handle_certificate-Grows : (deps : Deps) (id : String) → Grows (handle_certificate deps id)
unfolding handle_certificate
handle_certificate-Grows deps id = search (acme_grows, get_order_or_404-Grows) depth 12
