-- ===== src/Revocation/Reading.antt =====
-- CRL, OCSP and the datastore.
use trust_mate.Common.{◌≡◌, refl, String, List}
use trust_mate.Store.Records.{Time, Octets}
use trust_mate.Store.Certificates.{get_by_serial, find_revoked}
use trust_mate.Pki.Types.{Issuer, OcspRequest}
use trust_mate.World.{World, CrlCache}
use trust_mate.Exec.{modify}
use trust_mate.Exec.Evolves.{
  Evolves, Evolves-modify, Evolves-option, Evolves-pure, Evolves-query, Evolves-bind, Evolves-gets,
  Evolves-now, Evolves-attempt, SameDb, SameDb-preorder, evolves_rules, Evolves-raise,
}
use trust_mate.Revocation.Crl.{
  CrlBuilder, set_cache, regenerate, crl, Authority, root_ca, intermediate_ca,
}
use trust_mate.Revocation.Ocsp.{
  malformed_request, failed, match_issuer, lookup, respond_for, respond,
}

find_revoked-same : Evolves SameDb find_revoked
unfolding find_revoked
find_revoked-same = Evolves-query _

set_cache-db : (a : Authority) (c : CrlCache) (w : World) → w.db ≡ (set_cache a c w).db
set_cache-db root_ca c w = refl
set_cache-db intermediate_ca c w = refl

set_cache-same :
    {E : Type 0} (a : Authority) (c : CrlCache) → Evolves SameDb (modify {E = E} (set_cache a c))
set_cache-same a c = Evolves-modify _ (set_cache-db a c)

regenerate-same : (b : CrlBuilder) (at : Time) → Evolves SameDb (regenerate b at)
unfolding regenerate
regenerate-same b at = search (evolves_rules, find_revoked-same, set_cache-same) depth 14

pub crl-same : (b : CrlBuilder) → Evolves SameDb (crl b)
unfolding crl
crl-same b = Evolves-bind _ _ Evolves-now (λ at.
    Evolves-bind _ _ (Evolves-gets _)
      (λ held. Evolves-option held _ _ (regenerate-same b at) Evolves-pure))

get_by_serial-same : (serial : String) → Evolves SameDb (get_by_serial serial)
unfolding get_by_serial
get_by_serial-same serial = Evolves-query _

lookup-same : (serial : String) → Evolves SameDb (lookup serial)
unfolding lookup
lookup-same serial = record { at = (get_by_serial-same serial).at }

respond_for-same : (req : OcspRequest) (issuer : Issuer) → Evolves SameDb (respond_for req issuer)
unfolding respond_for
respond_for-same req issuer = search (evolves_rules, lookup-same) depth 12

pub respond-same : (issuers : List Issuer) (raw : Octets) → Evolves SameDb (respond issuers raw)
unfolding respond
respond-same issuers raw = Evolves-bind _ _ (Evolves-gets _) (λ lib.
    Evolves-option (lib.parse_ocsp_request raw) _ _ (Evolves-raise malformed_request) (λ req.
      Evolves-option (match_issuer lib req issuers) _ _ (Evolves-pure lib.ocsp_unauthorized)
        (λ i. Evolves-attempt _ _ (respond_for-same req i) (λ _. Evolves-raise failed))))
