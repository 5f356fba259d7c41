-- ===== src/Api/Router.antt =====
-- internal/api/router.go: the routes of the certificate, client, revocation, time-stamp and ACME API with the role that each
-- one demands. A request is what the multiplexer hands to a handler: its path values, its decoded body
-- and its caller.
use trust_mate.Common.{ℕ, String, Bool, Option, if◌then◌else◌}
use trust_mate.Store.Records.{Octets, root, intermediate, admin, manager}
use trust_mate.World.{World}
use trust_mate.Exec.{Result, ok, err, raise}
use trust_mate.Api.Http.{Response, Handler, json, empty}
use trust_mate.Api.Deps.{Deps}
use trust_mate.Api.Auth.{require_role}
use trust_mate.Api.Certificates.{
  IssueCall, RevokeCall, handle_issue_certificate, handle_get_certificate,
  handle_revoke_certificate,
}
use trust_mate.Api.Clients.{
  ClientRequest, handle_issue_client, handle_list_clients, handle_list_audit, handle_ca_pem,
}
use trust_mate.Api.Profiles.{handle_list_profiles, handle_reload_profiles}
use trust_mate.Api.Revocation.{BinaryRequest, handle_crl, handle_ocsp}
use trust_mate.Api.Tsa.{handle_tsa, handle_rotate_tsa}
use trust_mate.Api.Acme.Enrollment.{handle_new_nonce, handle_new_account, handle_issue_eab_token}
use trust_mate.Api.Acme.Orders.{
  handle_new_order, handle_get_order, handle_get_authorization, handle_finalize, handle_certificate,
}

pub data Request : Type 0 where
  root_pem intermediate_pem : Request
  issue_certificate : IssueCall → Request
  get_certificate : (serial : String) → Request
  revoke_certificate : RevokeCall → Request
  issue_client : Option ClientRequest → (remote_addr : String) → Request
  list_clients : Request
  list_audit : Option (Option ℕ) → Request
  list_profiles : Request
  reload_profiles : (remote_addr : String) → Request
  crl : (name : String) → Request
  ocsp : BinaryRequest → Request
  timestamp : BinaryRequest → Request
  rotate_tsa : (remote_addr : String) → Request
  eab_token : Option (Option String) → (remote_addr : String) → Request
  new_nonce : Request
  new_account : Option Octets → (remote_addr : String) → Request
  new_order : Option Octets → Request
  get_order : (id : String) → Request
  finalize : (id : String) → Option Octets → Request
  get_authorization : (id : String) → Request
  acme_certificate : (id : String) → Request

-- the multiplexer's answer where a module's routes are not registered
not_routed : Handler
not_routed = raise (json 404 empty)

-- the routes under `if deps.ModuleConfig.Enable…`
unfoldable pub module_route : Bool → Handler → Handler
unfolding not_routed
module_route enabled h = if enabled then h else not_routed

unfoldable pub route : Deps → Option String → Request → Handler
route deps peer root_pem = handle_ca_pem root
route deps peer intermediate_pem = handle_ca_pem intermediate
route deps peer (issue_certificate call) =
    require_role peer manager (handle_issue_certificate deps call)
route deps peer (get_certificate serial) = require_role peer manager (handle_get_certificate serial)
route deps peer (revoke_certificate call) =
    require_role peer manager (handle_revoke_certificate deps call)
route deps peer (issue_client body remote_addr) =
    require_role peer admin (handle_issue_client deps body remote_addr)
route deps peer list_clients = require_role peer admin handle_list_clients
route deps peer (list_audit limit) = require_role peer admin (handle_list_audit limit)
route deps peer list_profiles = require_role peer manager handle_list_profiles
route deps peer (reload_profiles remote_addr) =
    require_role peer admin (handle_reload_profiles remote_addr)
route deps peer (crl name) = module_route deps.enable_revocation (handle_crl deps name)
route deps peer (ocsp r) = module_route deps.enable_revocation (handle_ocsp deps r)
route deps peer (timestamp r) = module_route deps.enable_tsa (handle_tsa deps r)
route deps peer (rotate_tsa remote_addr) =
    module_route deps.enable_tsa (require_role peer admin (handle_rotate_tsa deps remote_addr))
route deps peer (eab_token body remote_addr) =
    module_route deps.enable_acme
      (require_role peer admin (handle_issue_eab_token body remote_addr))
route deps peer new_nonce = module_route deps.enable_acme handle_new_nonce
route deps peer (new_account body remote_addr) =
    module_route deps.enable_acme (handle_new_account deps body remote_addr)
route deps peer (new_order body) = module_route deps.enable_acme (handle_new_order deps body)
route deps peer (get_order id) = module_route deps.enable_acme (handle_get_order deps id)
route deps peer (finalize id body) = module_route deps.enable_acme (handle_finalize deps id body)
route deps peer (get_authorization id) = module_route deps.enable_acme (handle_get_authorization id)
route deps peer (acme_certificate id) = module_route deps.enable_acme (handle_certificate deps id)

abbrev pub answer : Result Response Response → Response
answer (ok r) = r
answer (err r) = r

-- one request, to its end
unfoldable pub serve : Deps → Option String → Request → World → Response × World
serve deps peer r w = let (x, w') = route deps peer r w in (answer x, w')

-- the requests that one service handles, one after another
pub data Run (deps : Deps) : World → World → Type 0 where
  done : (w : World) → Run deps w w
  served :
      (peer : Option String) (r : Request) (w v : World)
      → Run deps (serve deps peer r w).1 v
      → Run deps w v
