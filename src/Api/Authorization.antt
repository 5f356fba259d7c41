-- ===== src/Api/Authorization.antt =====
-- The role check of internal/api/auth.go: who passes and what the others are answered.
use trust_mate.Common.{
  ◌+◌, ◌≡◌, refl, ◌⊎◌, inl, inr, String, true, false, Option, none, some, arith, Option-cases,
  Bool-cases,
}
use trust_mate.Store.Records.{ClientRole, admin, ClientRoleRecord, CertificateRecord, Db}
use trust_mate.Store.Table.{by_key}
use trust_mate.Store.Certificates.{serial_of, is_revoked, get_by_serial}
use trust_mate.Store.ClientRoles
use trust_mate.Store.ClientRoles.{holder}
use trust_mate.Store.SingleUse.{IsHealthy}
use trust_mate.World.{World}
use trust_mate.Exec.{err, ◌>>=◌, attempt, query}
use trust_mate.Api.Http.{
  Handler, ProblemType, problem, json, client_certificate_required,
  client_certificate_not_authorized, client_certificate_revoked, insufficient_role, internal_error,
}
use trust_mate.Api.Auth.{role_satisfies, require_role}

-- The caller presented a certificate of the ledger that is not revoked and holds a role which is the
-- required one or admin.
pub record IsAuthorized (peer : Option String) (min : ClientRole) (d : Db) : Type 0 where
  pub serial : String
  pub presented : peer ≡ some serial
  pub role : ClientRoleRecord
  pub assigned : by_key holder serial d.client_roles ≡ some role
  pub certificate : CertificateRecord
  pub issued : by_key serial_of serial d.certificates ≡ some certificate
  pub standing : is_revoked certificate ≡ false
  pub satisfied : (role.role ≡ admin) ⊎ (role.role ≡ min)

abbrev pub Refusals : ProblemType → Type 0
Refusals p =
    (p ≡ client_certificate_required)
    ⊎ (p ≡ client_certificate_not_authorized)
    ⊎ (p ≡ client_certificate_revoked)
    ⊎ (p ≡ insufficient_role)
    ⊎ (p ≡ internal_error)

role_satisfies_sound :
    (actual min : ClientRole) → role_satisfies actual min ≡ true → (actual ≡ admin) ⊎ (actual ≡ min)
unfolding role_satisfies
role_satisfies_sound actual min h = ground arith

-- Whatever the request, the datastore and its failures: the caller is authorized, or requireRole
-- answers one of its problems, which holds whatever handler stands behind it, and leaves the
-- datastore as it was.
pub require_role_safe :
    (peer : Option String) (min : ClientRole) (w : World)
    → IsAuthorized peer min w.db
      ⊎ ((p : ProblemType) × Refusals p
          × ((next : Handler)
              → ((require_role peer min next w).0 ≡ err (json p.status (problem p)))
                × ((require_role peer min next w).1.db ≡ w.db)))
unfolding require_role ◌>>=◌ attempt ClientRoles.get get_by_serial query
require_role_safe none min w = inr (client_certificate_required, inl refl, λ next. (refl, refl))
require_role_safe (some serial) min w = elim (Bool-cases (w.env.fault w.tick)) [
  | inl e ↦ inr (internal_error, ground arith, λ next. ground (arith, e))
  | inr e ↦ (elim (Option-cases (by_key holder serial w.db.client_roles)) [
    | inl f ↦ inr (client_certificate_not_authorized, ground arith, λ next. ground (arith, e, f))
    | inr (role, f) ↦ (elim (Bool-cases (w.env.fault (w.tick + 1))) [
      | inl g ↦ inr (internal_error, ground arith, λ next. ground (arith, e, f, g))
      | inr g ↦ (elim (Option-cases (by_key serial_of serial w.db.certificates)) [
        | inl i ↦ inr (internal_error, ground arith, λ next. ground (arith, e, f, g, i))
        | inr (cert, i) ↦ (elim (Bool-cases (is_revoked cert)) [
          | inl j ↦
              inr (client_certificate_revoked, ground arith, λ next. ground (arith, e, f, g, i, j))
          | inr j ↦ (elim (Bool-cases (role_satisfies role.role min)) [
            | inl k ↦ inl (record {
              serial = serial;
              presented = refl;
              role = role;
              assigned = f;
              certificate = cert;
              issued = i;
              standing = j;
              satisfied = role_satisfies_sound role.role min k;
            })
            | inr k ↦
                inr (insufficient_role, ground arith, λ next. ground (arith, e, f, g, i, j, k))
          ])
        ])
      ])
    ])
  ])
]

-- An authorized caller's request is handled, where the datastore answers: requireRole takes two
-- statements and changes nothing.
pub require_role-IsAuthorized :
    (peer : Option String) (min : ClientRole) (next : Handler) (w : World)
    → IsHealthy w
    → IsAuthorized peer min w.db
    → require_role peer min next w ≡ next (record w { tick = w.tick + 1 + 1 })
unfolding require_role ◌>>=◌ attempt ClientRoles.get get_by_serial query role_satisfies
require_role-IsAuthorized none min next w h a = absurd (ground (arith, a.presented))
require_role-IsAuthorized (some serial) min next w h a =
    ground
      (arith, h w.tick, h (w.tick + 1), a.presented, a.assigned, a.issued, a.standing, a.satisfied)
