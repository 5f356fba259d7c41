-- ===== src/Revocation/Crl.antt =====
-- internal/revocation/crl.go. A CRLBuilder is its issuer and the place of its cached copy in the world.
use trust_mate.Common.{
  ℕ, ◌+◌, ◌*◌, ◌/◌, String, Option, none, some, List, [], ◌∷◌, ◌==◌, not, ltb, if◌then◌else◌,
}
use trust_mate.Store.Records.{Time, Bytes, CertificateRecord, Error}
use trust_mate.Store.Certificates.{find_revoked}
use trust_mate.Pki.Types.{Issuer, RevokedEntry, RevocationList}
use trust_mate.Pki.Leaf.{or_error}
use trust_mate.World.{World, CrlCache}
use trust_mate.Exec.{Exec, ◌>>=◌, ◌>>◌, pure, lift, gets, modify, now}

abbrev pub second : ℕ
second = 1000000000

-- CRLValidity
abbrev pub crl_validity : ℕ
crl_validity = 24 * 3600 * second

-- reasonCodes, 0 for a text that is not in the map
unfoldable pub reason_code : String → ℕ
reason_code s =
    if s == "unspecified"
    then 0
    else if s == "keyCompromise"
    then 1
    else if s == "affiliationChanged"
    then 3
    else if s == "superseded"
    then 4
    else if s == "cessationOfOperation"
    then 5
    else 0

-- which of the deployment's two builders
pub data Authority : Type 0 where
  root_ca intermediate_ca : Authority

pub record CrlBuilder : Type 0 where
  pub issuer : Issuer
  pub authority : Authority

abbrev pub cache_of : Authority → World → CrlCache
cache_of root_ca w = w.root_crl
cache_of intermediate_ca w = w.crl

abbrev pub set_cache : Authority → CrlCache → World → World
set_cache root_ca c w = record w { root_crl = c }
set_cache intermediate_ca c w = record w { crl = c }

unfoldable pub invalidate : {E : Type 0} → CrlBuilder → Exec E (Unit {0})
invalidate b =
    modify (λ w. set_cache b.authority (record (cache_of b.authority w) { cached = none }) w)

-- an entry of the list; FindRevoked returns rows with a revocation time only
abbrev pub entry_of : CertificateRecord → ℕ → Time → RevokedEntry
entry_of r serial at = record {
  serial = serial;
  revocation_time = at;
  reason_code = reason_code r.revocation_reason;
}

-- the loop over the revoked certificates, which stops at the first serial that is no number
unfoldable pub crl_entries :
    (String → Option ℕ) → String → List CertificateRecord → Option (List RevokedEntry)
crl_entries parse issuer [] = some []
crl_entries parse issuer (r ∷ rs) =
    let rest = crl_entries parse issuer rs in
    if not (r.issuer_serial == issuer) then rest else elim (parse r.serial) [
      | none ↦ none
      | some n ↦ (elim r.revoked_at [
        | none ↦ none
        | some at ↦ (elim rest [ none ↦ none | some es ↦ some (entry_of r n at ∷ es) ])
      ])
    ]

unfoldable pub revocation_list : Time → List RevokedEntry → RevocationList
revocation_list at entries = record {
  number = at / second;
  this_update = at;
  next_update = at + crl_validity;
  entries = entries;
}

-- the cached copy where it is current
unfoldable pub current_copy : Time → CrlCache → Option Bytes
current_copy at c = elim c.cached [
  | none ↦ none
  | some der ↦ if ltb at c.expires then some der else none
]

-- what CRL does without a current copy
unfoldable pub regenerate : CrlBuilder → Time → Exec Error Bytes
regenerate b at = do
  recs ← find_revoked
  lib ← gets (λ w. w.env.lib)
  entries ← lift (or_error (crl_entries lib.parse_decimal b.issuer.cert.serial recs))
  der ← lift (or_error (lib.create_revocation_list (revocation_list at entries) b.issuer))
  modify (set_cache b.authority (record { cached = some der; expires = at + crl_validity }))
  pure der

unfoldable pub crl : CrlBuilder → Exec Error Bytes
crl b = do
  at ← now
  held ← gets (λ w. current_copy at (cache_of b.authority w))
  elim held [ none ↦ regenerate b at | some der ↦ pure der ]
