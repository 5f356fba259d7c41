-- ===== src/Api/Clients.antt =====
-- internal/api/clients.go, audit.go and ca.go
use trust_mate.Common.{
  ℕ, zero, suc, String, Option, none, some, List, [], ◌∷◌, ◌==◌, ltb, if◌then◌else◌,
}
use trust_mate.Store.Records.{
  CertKind, CertificateRecord, ClientRole, admin, manager, ClientRoleRecord,
}
use trust_mate.Store.Certificates
use trust_mate.Store.ClientRoles
use trust_mate.Store.Audit
use trust_mate.Profiles.Types.{default, with_issuer_urls}
use trust_mate.Pki.Leaf.{parse_csr}
use trust_mate.World.{certificates_issued}
use trust_mate.Exec.{Exec, ◌>>=◌, ◌>>◌, pure, attempt, now}
use trust_mate.Api.Http
use trust_mate.Api.Http.{
  ClientResponse, Response, Handler, json, write_problem, write_internal_error, client_issued,
  clients, audit_entries, pem_chain, malformed_json, missing_field, invalid_csr, invalid_role,
  invalid_parameter,
}
use trust_mate.Api.Deps.{Deps, count}
use trust_mate.Api.Issuing.{issue_leaf_certificate, assign_role_or_revoke}

-- string(role)
abbrev pub role_text : ClientRole → String
role_text admin = "admin"
role_text manager = "manager"

-- store.ClientRole(req.Role), checked against the two roles
unfoldable pub parse_role : String → Option ClientRole
parse_role s = if s == "admin" then some admin else if s == "manager" then some manager else none

pub record ClientRequest : Type 0 where
  pub csr : String
  pub role : String

unfoldable pub issue_client : Deps → String → ClientRole → String → Handler
issue_client deps csr_text role remote_addr = do
  csr ← attempt (parse_csr csr_text) (λ _. write_problem invalid_csr)
  at ← now
  let profile = with_issuer_urls default deps.public_base_url deps.enable_revocation
  rec ←
      attempt
        (issue_leaf_certificate deps profile csr.subject csr.public_key [] at remote_addr
          "client-issue" (role_text role))
        (λ _. write_internal_error)
  attempt (assign_role_or_revoke rec role at) (λ _. write_internal_error)
  count deps (certificates_issued profile.name)
  pure (json 201 (client_issued rec.serial role rec.pem))

unfoldable pub handle_issue_client : Deps → Option ClientRequest → String → Handler
handle_issue_client deps none remote_addr = write_problem malformed_json
handle_issue_client deps (some req) remote_addr =
    if req.csr == "" then write_problem missing_field else elim (parse_role req.role) [
      | none ↦ write_problem invalid_role
      | some role ↦ issue_client deps req.csr role remote_addr
    ]

-- the loop over the roles, which stops at the first certificate that is not found
unfoldable pub list_clients : List ClientRoleRecord → Exec Response (List ClientResponse)
list_clients [] = pure []
list_clients (role_rec ∷ roles) = do
  cert ← attempt (Certificates.get_by_serial role_rec.cert_serial) (λ _. write_internal_error)
  rest ← list_clients roles
  let row : ClientResponse = record {
    serial = cert.serial;
    role = role_rec.role;
    subject = cert.subject;
    not_after = cert.not_after;
    revoked_at = cert.revoked_at;
  }
  pure (row ∷ rest)

unfoldable pub handle_list_clients : Handler
unfolding list_clients
handle_list_clients = do
  roles ← attempt ClientRoles.list (λ _. write_internal_error)
  out ← list_clients roles
  pure (json 200 (clients out))

abbrev default_audit_limit : ℕ
default_audit_limit = 100

abbrev max_audit_limit : ℕ
max_audit_limit = 1000

-- the query parameter limit: absent, or what strconv.Atoi made of it (a number that is not positive is
-- none, as an error is)
unfoldable pub audit_limit : Option (Option ℕ) → Option ℕ
audit_limit none = some default_audit_limit
audit_limit (some none) = none
audit_limit (some (some zero)) = none
audit_limit (some (some (suc n))) =
    some (if ltb max_audit_limit (suc n) then max_audit_limit else suc n)

unfoldable pub handle_list_audit : Option (Option ℕ) → Handler
handle_list_audit limit = elim (audit_limit limit) [
  | none ↦ write_problem invalid_parameter
  | some n ↦ (do
    entries ← attempt (Audit.list n) (λ _. write_internal_error)
    pure (json 200 (audit_entries entries)))
]

-- the last of the certificates of a kind
unfoldable pub last_pem : List CertificateRecord → Handler
last_pem [] = write_problem Http.not_found
last_pem (rec ∷ []) = pure (json 200 (pem_chain rec.pem))
last_pem (rec ∷ more) = last_pem more

unfoldable pub handle_ca_pem : CertKind → Handler
unfolding last_pem
handle_ca_pem kind = do
  recs ← attempt (Certificates.find_by_kind kind) (λ _. write_internal_error)
  last_pem recs
