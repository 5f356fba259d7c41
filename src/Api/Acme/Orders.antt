-- ===== src/Api/Acme/Orders.antt =====
-- Orders: the handlers for new orders, order state, finalization and certificate download of
-- internal/api/acme.go.
use Prim.Native.String
use trust_mate.Common.{String, not, Option, none, some, List, [], ◌∷◌, ◌==◌, ◌&&◌, if◌then◌else◌}
use trust_mate.Store.Records.{
  Octets, AccountRecord, OrderRecord, ready, processing, valid, Error, not_found,
}
use trust_mate.Store.Orders
use trust_mate.Store.Orders.{status_eq}
use trust_mate.Store.Certificates
use trust_mate.Acme.Types.{Jws, Identifier}
use trust_mate.Profiles.Types.{Profile, default, with_issuer_urls}
use trust_mate.Pki.Types.{CertificateRequest}
use trust_mate.Pki.Leaf.{parse_csr}
use trust_mate.World.{acme_orders, certificates_issued}
use trust_mate.Exec.{Exec, ◌>>=◌, ◌>>◌, pure, gets, attempt, now, random_text}
use trust_mate.Api.Http.{Response, Body, Handler, json, order, authorization, pem_chain}
use trust_mate.Api.Deps.{Deps, count}
use trust_mate.Api.Issuing.{issue_leaf_certificate, assign_role_or_revoke}
use trust_mate.Api.Acme.Requests.{
  acme_url, respond, acme_problem, or_problem, verified_jws, resolve_account, account_problem,
}

-- acmeOrderResponse: the certificate's URL only once the order is valid
unfoldable pub order_response : Deps → OrderRecord → Body
order_response deps o = order o (
    if status_eq o.status valid
    then some (acme_url deps (String.◌++◌ "certificate/" o.id))
    else none)

-- exactly one identifier of the program's own type, with a value
unfoldable pub single_identifier : List Identifier → Option String
single_identifier [] = none
single_identifier (i ∷ []) =
    if i.type == "trustmate-client" && not (i.value == "") then some i.value else none
single_identifier (i ∷ j ∷ more) = none

unfoldable pub handle_new_order : Deps → Option Octets → Handler
handle_new_order deps body = do
  jws ← verified_jws deps body (acme_url deps "new-order")
  account ← attempt (resolve_account deps jws) account_problem
  lib ← gets (λ w. w.env.lib)
  payload ← or_problem 400 "malformed" (lib.unmarshal_new_order jws.payload)
  identifier ← or_problem 400 "malformed" (single_identifier payload.identifiers)
  id ← attempt (random_text 16) (λ _. acme_problem 500 "serverInternal")
  at ← now
  let new : OrderRecord = record {
    id = id;
    account_id = account.id;
    identifier = identifier;
    status = ready;
    cert_serial = "";
    created_at = at;
  }
  attempt (Orders.create new) (λ _. acme_problem 500 "serverInternal")
  count deps (acme_orders "created")
  respond 201 (order_response deps new) (some (acme_url deps (String.◌++◌ "order/" id)))

unfoldable pub order_problem : {A : Type 0} → Error → Exec Response A
order_problem not_found = acme_problem 404 "malformed"
order_problem _ = acme_problem 500 "serverInternal"

-- getOrderOr404
unfoldable pub get_order : String → Exec Response OrderRecord
unfolding order_problem
get_order id = attempt (Orders.get id) order_problem

unfoldable pub handle_get_order : Deps → String → Handler
handle_get_order deps id = do o ← get_order id; pure (json 200 (order_response deps o))

unfoldable pub handle_get_authorization : String → Handler
handle_get_authorization id = do o ← get_order id; pure (json 200 (authorization o.identifier))

-- the CSR of the payload, for the order's identifier
unfoldable pub finalize_csr : Jws → OrderRecord → Exec Response CertificateRequest
finalize_csr jws o = do
  lib ← gets (λ w. w.env.lib)
  payload ← or_problem 400 "malformed" (lib.unmarshal_finalize jws.payload)
  der ← or_problem 400 "badCSR" (lib.base64url_decode payload.csr)
  csr ← attempt (parse_csr (lib.text der)) (λ _. acme_problem 400 "badCSR")
  if csr.subject.common_name == o.identifier then pure csr else acme_problem 400 "badCSR"

-- what follows a claim that this request has won: the certificate, its role, and the order's record
unfoldable pub issue_for_order : Deps → AccountRecord → OrderRecord → CertificateRequest → Handler
issue_for_order deps account o csr = do
  let profile : Profile = with_issuer_urls default deps.public_base_url deps.enable_revocation
  at ← now
  rec ←
      attempt
        (issue_leaf_certificate deps profile csr.subject csr.public_key csr.dns_names at
          (String.◌++◌ "acme:" account.id) "acme-issue" o.id)
        (λ _. acme_problem 500 "serverInternal")
  attempt (assign_role_or_revoke rec account.role at) (λ _. acme_problem 500 "serverInternal")
  count deps (certificates_issued profile.name)
  attempt (Orders.update_status o.id processing valid rec.serial)
      (λ _. acme_problem 500 "serverInternal")
  count deps (acme_orders "finalized")
  let final : OrderRecord = record o { status = valid; cert_serial = rec.serial }
  respond 200 (order_response deps final) none

-- a ready order of this account: the CSR, the claim, the certificate
unfoldable pub finalize_ready : Deps → Jws → AccountRecord → OrderRecord → Handler
finalize_ready deps jws account o = do
  csr ← finalize_csr jws o
  claimed ←
      attempt (Orders.update_status o.id ready processing o.cert_serial)
        (λ _. acme_problem 500 "serverInternal")
  if claimed then issue_for_order deps account o csr else acme_problem 403 "orderNotReady"

unfoldable pub handle_finalize : Deps → String → Option Octets → Handler
handle_finalize deps id body = do
  jws ← verified_jws deps body (acme_url deps (String.◌++◌ "order/" (String.◌++◌ id "/finalize")))
  account ← attempt (resolve_account deps jws) account_problem
  o ← get_order id
  if not (o.account_id == account.id)
      then acme_problem 401 "unauthorized"
      else if status_eq o.status valid
      then respond 200 (order_response deps o) none
      else if not (status_eq o.status ready)
      then acme_problem 403 "orderNotReady"
      else finalize_ready deps jws account o

unfoldable pub handle_certificate : Deps → String → Handler
handle_certificate deps id = do
  o ← get_order id
  if not (status_eq o.status valid) then acme_problem 404 "malformed" else do
    cert ←
        attempt (Certificates.get_by_serial o.cert_serial) (λ _. acme_problem 500 "serverInternal")
    lib ← gets (λ w. w.env.lib)
    pure (
        json 200 (
          pem_chain (String.◌++◌ cert.pem (lib.encode_cert_pem deps.intermediate_issuer.cert.raw))))
