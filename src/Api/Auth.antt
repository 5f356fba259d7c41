-- ===== src/Api/Auth.antt =====
-- internal/api/auth.go
use trust_mate.Common.{String, Bool, true, false, not, Option, none, some, if◌then◌else◌}
use trust_mate.Store.Records.{ClientRole, admin, manager, Error, not_found}
use trust_mate.Store.Certificates.{is_revoked, get_by_serial}
use trust_mate.Store.ClientRoles
use trust_mate.Exec.{Exec, ◌>>=◌, pure, attempt}
use trust_mate.Api.Http.{
  Response, Handler, write_problem, write_internal_error, client_certificate_required,
  client_certificate_not_authorized, client_certificate_revoked, insufficient_role,
}

abbrev pub role_eq : ClientRole → ClientRole → Bool
role_eq admin admin = true
role_eq manager manager = true
role_eq _ _ = false

unfoldable pub role_satisfies : ClientRole → ClientRole → Bool
role_satisfies actual min = if role_eq actual admin then true else role_eq actual min

-- the serial of r.TLS.PeerCertificates[0], if there is one
unfoldable pub peer_serial : Option String → Exec Response String
peer_serial none = write_problem client_certificate_required
peer_serial (some serial) = pure serial

unfoldable pub role_error : {A : Type 0} → Error → Exec Response A
role_error not_found = write_problem client_certificate_not_authorized
role_error _ = write_internal_error

unfoldable pub require_role : Option String → ClientRole → Handler → Handler
unfolding peer_serial role_error
require_role peer min next = do
  serial ← peer_serial peer
  role_rec ← attempt (ClientRoles.get serial) role_error
  cert_rec ← attempt (get_by_serial serial) (λ _. write_internal_error)
  if is_revoked cert_rec
      then write_problem client_certificate_revoked
      else if not (role_satisfies role_rec.role min)
      then write_problem insufficient_role
      else next
