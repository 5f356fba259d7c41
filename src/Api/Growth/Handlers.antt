-- ===== src/Api/Growth/Handlers.antt =====
-- The certificate and client routes of internal/api, and the relation `Extends`.
use trust_mate.Common.{ℕ, String, Option, none, some, List, [], ◌∷◌}
use trust_mate.Store.Records.{
  Time, ClientRole, CertificateRecord, ClientRoleRecord, CertKind, Error,
}
use trust_mate.Store.Records
use trust_mate.Store.Extends.{Extends-preorder}
use trust_mate.Store.Evolution.{Grows, store_grows, get_certificate-Grows}
use trust_mate.Profiles.Types.{Profile}
use trust_mate.Pki.Types.{CertificateRequest}
use trust_mate.Exec.Evolves.{
  Evolves-pure, Evolves-raise, Evolves-bind, Evolves-attempt, Evolves-option, Evolves-if,
}
use trust_mate.Api.Http.{ProblemType}
use trust_mate.Api.Deps.{Deps}
use trust_mate.Api.Growth.{issuing_grows}
use trust_mate.Api.Certificates.{
  require, reason_of, revoke_error, revoke_leaf, lookup_error, preview_certificate,
  issue_certificate, IssueCall, RevokeCall, handle_issue_certificate, handle_get_certificate,
  handle_revoke_certificate,
}
use trust_mate.Api.Clients.{
  ClientRequest, parse_role, issue_client, handle_issue_client, list_clients, handle_list_clients,
  audit_limit, handle_list_audit, last_pem, handle_ca_pem,
}

require-Grows : {A : Type 0} (p : ProblemType) (o : Option A) → Grows (require p o)
unfolding require
require-Grows p none = Evolves-raise _
require-Grows p (some a) = Evolves-pure a

preview_certificate-Grows :
    (deps : Deps) (profile : Profile) (csr : CertificateRequest) (at : Time)
    → Grows (preview_certificate deps profile csr at)
unfolding preview_certificate
preview_certificate-Grows deps profile csr at = search issuing_grows depth 9

issue_certificate-Grows :
    (deps : Deps) (profile : Profile) (csr : CertificateRequest) (at : Time) (remote_addr : String)
    → Grows (issue_certificate deps profile csr at remote_addr)
unfolding issue_certificate
issue_certificate-Grows deps profile csr at remote_addr = search issuing_grows depth 9

-- POST /v1/certificates leaves a datastore that extends the one it found, whatever the request and
-- whatever fails.
pub handle_issue_certificate-Grows :
    (deps : Deps) (call : IssueCall) → Grows (handle_issue_certificate deps call)
unfolding handle_issue_certificate
handle_issue_certificate-Grows deps call =
    search (issuing_grows, require-Grows, preview_certificate-Grows, issue_certificate-Grows) depth
      16

lookup_error-Grows : {A : Type 0} (e : Error) → Grows (lookup_error {A = A} e)
unfolding lookup_error
lookup_error-Grows Records.not_found = Evolves-raise _
lookup_error-Grows _ = Evolves-raise _

pub handle_get_certificate-Grows : (serial : String) → Grows (handle_get_certificate serial)
unfolding handle_get_certificate
handle_get_certificate-Grows serial = search (store_grows, lookup_error-Grows) depth 7

reason_of-Grows : (o : Option (Option String)) → Grows (reason_of o)
unfolding reason_of
reason_of-Grows none = Evolves-pure _
reason_of-Grows (some none) = Evolves-raise _
reason_of-Grows (some (some r)) = Evolves-pure _

revoke_error-Grows : {A : Type 0} (e : Error) → Grows (revoke_error {A = A} e)
unfolding revoke_error
revoke_error-Grows Records.already_revoked = Evolves-raise _
revoke_error-Grows _ = Evolves-raise _

revoke_leaf-Grows :
    (deps : Deps) (serial reason : String) (at : Time) (remote_addr : String)
    → Grows (revoke_leaf deps serial reason at remote_addr)
unfolding revoke_leaf
revoke_leaf-Grows deps serial reason at remote_addr =
    search (issuing_grows, revoke_error-Grows) depth 12

-- POST /v1/certificates/{serial}/revoke leaves a datastore that extends the one it found, whatever the
-- request and whatever fails.
pub handle_revoke_certificate-Grows :
    (deps : Deps) (call : RevokeCall) → Grows (handle_revoke_certificate deps call)
unfolding handle_revoke_certificate
handle_revoke_certificate-Grows deps call =
    search (issuing_grows, reason_of-Grows, lookup_error-Grows, revoke_leaf-Grows) depth 12

issue_client-Grows :
    (deps : Deps) (csr : String) (role : ClientRole) (remote_addr : String)
    → Grows (issue_client deps csr role remote_addr)
unfolding issue_client
issue_client-Grows deps csr role remote_addr = search issuing_grows depth 14

-- POST /v1/clients leaves a datastore that extends the one it found, whatever the request and whatever
-- fails.
pub handle_issue_client-Grows :
    (deps : Deps) (body : Option ClientRequest) (remote_addr : String)
    → Grows (handle_issue_client deps body remote_addr)
unfolding handle_issue_client
handle_issue_client-Grows deps none remote_addr = Evolves-raise _
handle_issue_client-Grows deps (some req) remote_addr = Evolves-if _ _ _ (Evolves-raise _) (
    Evolves-option (parse_role req.role) _ _ (Evolves-raise _)
      (λ role. issue_client-Grows deps req.csr role remote_addr))

list_clients-Grows : (roles : List ClientRoleRecord) → Grows (list_clients roles)
unfolding list_clients
list_clients-Grows [] = Evolves-pure _
list_clients-Grows (r ∷ roles) =
    let rest = list_clients-Grows roles in
    Evolves-bind _ _ (Evolves-attempt _ _ (get_certificate-Grows _) (λ _. Evolves-raise _))
      (λ _. Evolves-bind _ _ rest (λ _. Evolves-pure _))

pub handle_list_clients-Grows : Grows handle_list_clients
unfolding handle_list_clients
handle_list_clients-Grows = search (store_grows, list_clients-Grows) depth 7

pub handle_list_audit-Grows : (limit : Option (Option ℕ)) → Grows (handle_list_audit limit)
unfolding handle_list_audit
handle_list_audit-Grows limit =
    Evolves-option (audit_limit limit) _ _ (Evolves-raise _) (λ n. search store_grows depth 7)

last_pem-Grows : (recs : List CertificateRecord) → Grows (last_pem recs)
unfolding last_pem
last_pem-Grows [] = Evolves-raise _
last_pem-Grows (r ∷ []) = Evolves-pure _
last_pem-Grows (r ∷ s ∷ more) = last_pem-Grows (s ∷ more)

pub handle_ca_pem-Grows : (kind : CertKind) → Grows (handle_ca_pem kind)
unfolding handle_ca_pem
handle_ca_pem-Grows kind = search (store_grows, last_pem-Grows) depth 7
