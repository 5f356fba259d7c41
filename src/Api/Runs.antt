-- ===== src/Api/Runs.antt =====
-- Runs of the service: requests one after another.
use trust_mate.Common.{◌≡◌, inl, inr, ◌∙◌, ap, String, Bool, Option, some, none, true, arith}
use trust_mate.Store.Records.{CertificateRecord, ClientRole, Error, not_found}
use trust_mate.Store.Table.{by_key}
use trust_mate.Store.Certificates.{serial_of, is_revoked}
use trust_mate.Store.Extends.{Extends, Extends-preorder}
use trust_mate.Store.Evolution.{Grows, store_grows}
use trust_mate.World.{World}
use trust_mate.Exec.{err}
use trust_mate.Exec.Evolves.{Evolves-if, Evolves-raise}
use trust_mate.Api.Http.{Handler, json, problem, ProblemType}
use trust_mate.Api.Deps.{Deps}
use trust_mate.Api.Auth.{require_role, peer_serial, role_error}
use trust_mate.Api.Authorization.{Refusals, require_role_safe}
use trust_mate.Api.Router.{Request, module_route, route, serve, Run, done, served}
use trust_mate.Api.Router
use trust_mate.Api.Growth.Handlers.{
  handle_issue_certificate-Grows, handle_get_certificate-Grows, handle_revoke_certificate-Grows,
  handle_issue_client-Grows, handle_list_clients-Grows, handle_list_audit-Grows,
  handle_ca_pem-Grows,
}
use trust_mate.Api.Growth.Enrollment.{
  handle_new_nonce-Grows, handle_new_account-Grows, handle_issue_eab_token-Grows,
}
use trust_mate.Api.Growth.Profiles.{handle_list_profiles-Grows, handle_reload_profiles-Grows}
use trust_mate.Api.Growth.Public.{
  handle_crl-Grows, handle_ocsp-Grows, handle_tsa-Grows, handle_rotate_tsa-Grows,
}
use trust_mate.Api.Growth.Orders.{
  handle_new_order-Grows, handle_get_order-Grows, handle_get_authorization-Grows,
  handle_finalize-Grows, handle_certificate-Grows,
}

peer_serial-Grows : (peer : Option String) → Grows (peer_serial peer)
unfolding peer_serial
peer_serial-Grows none = Evolves-raise _
peer_serial-Grows (some serial) = search store_grows

role_error-Grows : {A : Type 0} (e : Error) → Grows (role_error {A = A} e)
unfolding role_error
role_error-Grows not_found = Evolves-raise _
role_error-Grows _ = Evolves-raise _

require_role-Grows :
    (peer : Option String) (min : ClientRole) (next : Handler)
    → Grows next
    → Grows (require_role peer min next)
unfolding require_role
require_role-Grows peer min next k =
    search (store_grows, peer_serial-Grows, role_error-Grows) depth 12

module_route-Grows : (enabled : Bool) (h : Handler) → Grows h → Grows (module_route enabled h)
unfolding module_route
module_route-Grows enabled h k = Evolves-if _ _ _ k (Evolves-raise _)

ruleset route_grows = (
  require_role-Grows, module_route-Grows, handle_issue_certificate-Grows,
  handle_get_certificate-Grows, handle_revoke_certificate-Grows, handle_issue_client-Grows,
  handle_list_clients-Grows, handle_list_audit-Grows, handle_ca_pem-Grows, handle_new_nonce-Grows,
  handle_new_account-Grows, handle_issue_eab_token-Grows, handle_new_order-Grows,
  handle_get_order-Grows, handle_get_authorization-Grows, handle_finalize-Grows,
  handle_certificate-Grows, handle_list_profiles-Grows, handle_reload_profiles-Grows,
  handle_crl-Grows, handle_ocsp-Grows, handle_tsa-Grows, handle_rotate_tsa-Grows,
)

route-Grows : (deps : Deps) (peer : Option String) (r : Request) → Grows (route deps peer r)
unfolding route
route-Grows deps peer Router.root_pem = search route_grows
route-Grows deps peer Router.intermediate_pem = search route_grows
route-Grows deps peer (Router.issue_certificate call) = search route_grows
route-Grows deps peer (Router.get_certificate serial) = search route_grows
route-Grows deps peer (Router.revoke_certificate call) = search route_grows
route-Grows deps peer (Router.issue_client body remote_addr) = search route_grows
route-Grows deps peer Router.list_clients = search route_grows
route-Grows deps peer (Router.list_audit limit) = search route_grows
route-Grows deps peer Router.list_profiles = search route_grows
route-Grows deps peer (Router.reload_profiles remote_addr) = search route_grows
route-Grows deps peer (Router.crl name) = search route_grows
route-Grows deps peer (Router.ocsp r) = search route_grows
route-Grows deps peer (Router.timestamp r) = search route_grows
route-Grows deps peer (Router.rotate_tsa remote_addr) = search route_grows
route-Grows deps peer (Router.eab_token body remote_addr) = search route_grows
route-Grows deps peer Router.new_nonce = search route_grows
route-Grows deps peer (Router.new_account body remote_addr) = search route_grows
route-Grows deps peer (Router.new_order body) = search route_grows
route-Grows deps peer (Router.get_order id) = search route_grows
route-Grows deps peer (Router.finalize id body) = search route_grows
route-Grows deps peer (Router.get_authorization id) = search route_grows
route-Grows deps peer (Router.acme_certificate id) = search route_grows

serve-Extends :
    (deps : Deps) (peer : Option String) (r : Request) (w : World)
    → Extends w.db (serve deps peer r w).1.db
unfolding serve
serve-Extends deps peer r w = (route-Grows deps peer r).at w

-- Every run of the service, whatever is requested, by whom, and whatever fails, leaves a datastore that
-- extends the one it found: certificates stay, every column as it is but for one revocation, tokens stay consumed,
-- orders move forward, accounts stay as they are, the audit log keeps its beginning, and keys stay
-- unique.
pub Run-Extends : (deps : Deps) (w v : World) → Run deps w v → Extends w.db v.db
Run-Extends deps w _ (done _) = Extends-preorder.same w.db
Run-Extends deps w v (served peer r _ _ more) =
    Extends-preorder.then_also w.db _ v.db (serve-Extends deps peer r w) (Run-Extends deps _ v more)

-- A revoked certificate stays in the ledger as it was revoked, with its time and reason, through every
-- run of the service.
pub Run-revoked :
    (deps : Deps) (w v : World) (serial : String) (r : CertificateRecord)
    → Run deps w v
    → by_key serial_of serial w.db.certificates ≡ some r
    → is_revoked r ≡ true
    → by_key serial_of serial v.db.certificates ≡ some r
Run-revoked deps w v serial r run found gone =
    let (s, found', kept) = (Run-Extends deps w v run).certificates serial r found in
    found' ∙ ap some (kept.revoked gone)

-- Once a client certificate is revoked, no run of the service leads to a state in which requireRole
-- lets it through to a handler, for whatever role: it answers one of its problems instead, and leaves
-- the datastore as it was.
pub Run-locked_out :
    (deps : Deps) (w v : World) (serial : String) (r : CertificateRecord) (min : ClientRole)
    → Run deps w v
    → by_key serial_of serial w.db.certificates ≡ some r
    → is_revoked r ≡ true
    → (p : ProblemType) × Refusals p
      × ((next : Handler)
          → ((require_role (some serial) min next v).0 ≡ err (json p.status (problem p)))
            × ((require_role (some serial) min next v).1.db ≡ v.db))
Run-locked_out deps w v serial r min run found gone =
    let still = Run-revoked deps w v serial r run found gone in
    elim (require_role_safe (some serial) min v) [
      | inl a ↦ absurd (ground (arith, a.presented, a.issued, a.standing, still, gone))
      | inr refused ↦ refused
    ]
