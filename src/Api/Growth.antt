-- ===== src/Api/Growth.antt =====
-- The helpers of the handlers of internal/api, and the relation `Extends`.
pub mod Handlers
pub mod Enrollment
pub mod Orders
pub mod Public
pub mod Profiles
use trust_mate.Common.{String, List, arith}
use trust_mate.Store.Records.{Time, CertificateRecord, ClientRole, Error}
use trust_mate.Store.Certificates
use trust_mate.Store.Extends.{Extends-preorder}
use trust_mate.Store.Evolution.{Grows, revoke-Grows, store_grows}
use trust_mate.Profiles.Types.{Profile}
use trust_mate.Pki.Types.{Name, PublicKey, Issuer}
use trust_mate.Pki.Reads.{leaf_template-Evolves, issue_leaf-Evolves, parse_csr-Evolves}
use trust_mate.World.{World, Sample}
use trust_mate.Exec.{Exec}
use trust_mate.Exec.Evolves.{
  Evolves-modify, Evolves-bind, Evolves-try, Evolves-raise, Evolves-option, evolves_rules,
}
use trust_mate.Api.Http.{Response}
use trust_mate.Api.Deps.{Deps, count, invalidate_crl}
use trust_mate.Api.Issuing.{
  lookup_profile, leaf_record, issue_leaf_certificate, compensate, assign_role_or_revoke,
}

pub count-Grows : {E : Type 0} (deps : Deps) (s : Sample) → Grows (count {E = E} deps s)
unfolding count
count-Grows deps s = Evolves-modify _ (λ w. ground arith)

pub invalidate_crl-Grows : {E : Type 0} (deps : Deps) → Grows (invalidate_crl {E = E} deps)
unfolding invalidate_crl
invalidate_crl-Grows deps = Evolves-modify _ (λ w. ground arith)

pub lookup_profile-Grows : {E : Type 0} (name : String) → Grows (lookup_profile {E = E} name)
unfolding lookup_profile
lookup_profile-Grows name = search evolves_rules

pub issue_leaf_certificate-Grows :
    (deps : Deps) (profile : Profile) (subject : Name) (key : PublicKey) (dns : List String)
    (now : Time) (actor action detail : String)
    → Grows (issue_leaf_certificate deps profile subject key dns now actor action detail)
unfolding issue_leaf_certificate
issue_leaf_certificate-Grows deps profile subject key dns now actor action detail =
    search (store_grows, issue_leaf-Evolves) depth 12

compensate-Grows : (rec : CertificateRecord) (now : Time) (e : Error) → Grows (compensate rec now e)
unfolding compensate
compensate-Grows rec now e =
    Evolves-bind _ _ (Evolves-try _ (revoke-Grows _ _ _))
      (λ done. Evolves-option done _ _ (Evolves-raise e) (λ _. search store_grows depth 7))

pub assign_role_or_revoke-Grows :
    (rec : CertificateRecord) (role : ClientRole) (now : Time)
    → Grows (assign_role_or_revoke rec role now)
unfolding assign_role_or_revoke
assign_role_or_revoke-Grows rec role now = search (store_grows, compensate-Grows) depth 7

pub ruleset issuing_grows = (
  store_grows, leaf_template-Evolves, parse_csr-Evolves, count-Grows, invalidate_crl-Grows,
  lookup_profile-Grows, issue_leaf_certificate-Grows, assign_role_or_revoke-Grows,
)
