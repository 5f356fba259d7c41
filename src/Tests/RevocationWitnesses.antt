-- ===== src/Tests/RevocationWitnesses.antt =====
-- The theorems on revocation lists and OCSP at a ledger with one revoked certificate.
use mathlib.Core.List.{Memᴰ}
use trust_mate.Common.{
  ℕ, ◌+◌, ◌<◌, ◌≤◌, ◌≡◌, refl, String, Option, if◌then◌else◌, ◌==◌, Bool-cases, inl, inr, eq_iff,
  none, some, List, [], ◌∷◌, arith,
}
use trust_mate.Store.Records.{CertificateRecord}
use trust_mate.Store.Table.{by_key, first_where, count_where, update_where}
use trust_mate.Store.Certificates.{serial_of, revoked_rows, find_revoked}
use trust_mate.Store.Certificates
use trust_mate.Store.Audit
use trust_mate.Store.Timestamp.{column}
use trust_mate.Pki.Types.{RevokedEntry, revoked}
use trust_mate.World.{World}
use trust_mate.Exec.{ok, ◌>>=◌, attempt, query, statement, modify, now}
use trust_mate.Revocation.Crl.{
  reason_code, crl_validity, intermediate_ca, cache_of, crl_entries, current_copy, regenerate, crl,
}
use trust_mate.Revocation.Publishing.{IsList, crl-IsList, crl-again}
use trust_mate.Revocation.Ocsp.{status_of, lookup, ocsp_response, respond_for}
use trust_mate.Revocation.Agreement.{listed-iff-revoked}
use trust_mate.Api.Deps.{count, invalidate_crl}
use trust_mate.Api.Certificates.{revoke_leaf}
use trust_mate.Api.Http
use trust_mate.Api.Revocation.{builder_of}
use trust_mate.Api.Ledger.Publication.{revoke_leaf-published, revoke_leaf-reported}
use trust_mate.Tests.Fixtures.{db, deps, issuer, ocsp_request, start, world}
use trust_mate.Tests.StoreWitnesses.{db-IsKeyed}
use trust_mate.Tests.ApiWitnesses.{revoked_one}

stale : current_copy (world.env.clock world.tick) (cache_of intermediate_ca world) ≡ none
unfolding current_copy
stale = refl

listed : (crl (builder_of deps intermediate_ca) world).0 ≡ ok "crl"
unfolding crl now ◌>>=◌ builder_of current_copy regenerate find_revoked query statement revoked_rows
    crl_entries modify
listed = refl

crl-IsList_example :
    IsList (builder_of deps intermediate_ca) world start "crl"
    × (cache_of intermediate_ca (crl (builder_of deps intermediate_ca) world).1
        ≡ record { cached = some "crl"; expires = start + crl_validity })
unfolding builder_of
crl-IsList_example = crl-IsList (builder_of deps intermediate_ca) world "crl" stale listed

crl-again_example :
    (let v = (crl (builder_of deps intermediate_ca) world).1 in
      (v.env.clock v.tick < start + crl_validity
        → crl (builder_of deps intermediate_ca) v ≡ (ok "crl", record v { tick = v.tick + 1 }))
      × (start + crl_validity ≤ v.env.clock v.tick
          → current_copy (v.env.clock v.tick) (cache_of intermediate_ca v) ≡ none))
unfolding builder_of
crl-again_example =
    crl-again (builder_of deps intermediate_ca) world
      (crl (builder_of deps intermediate_ca) world).1 "crl" stale listed refl

abbrev entries : List RevokedEntry
entries =
    record { serial = 42; revocation_time = start; reason_code = reason_code "keyCompromise" } ∷ []

-- numbers of the two serials
abbrev decimal : String → Option ℕ
decimal s = if s == "7" then some 42 else if s == "5" then some 5 else none

made : crl_entries decimal "" (revoked_rows db.certificates) ≡ some entries
unfolding crl_entries revoked_rows
made = refl

only_seven :
    (r : CertificateRecord) → Memᴰ r db.certificates → decimal r.serial ≡ some 42 → r.serial ≡ "7"
only_seven r m h = elim (Bool-cases (r.serial == "7")) [
  | inl e ↦ (eq_iff r.serial "7").0 e
  | inr e ↦ (elim (Bool-cases (r.serial == "5")) [
    | inl f ↦ absurd (ground (arith, h, e, f))
    | inr f ↦ absurd (ground (arith, h, e, f))
  ])
]

listed-iff-revoked_example :
    ((e : RevokedEntry) × Memᴰ e entries × (e.serial ≡ 42)
      → (status_of "" (by_key serial_of "7" db.certificates)).0 ≡ revoked)
    × ((status_of "" (by_key serial_of "7" db.certificates)).0 ≡ revoked
        → (e : RevokedEntry) × Memᴰ e entries
          × (e.serial ≡ 42)
          × ((status_of "" (by_key serial_of "7" db.certificates)).1 ≡ some e.revocation_time))
listed-iff-revoked_example =
    listed-iff-revoked decimal "" "7" 42 db.certificates entries db-IsKeyed.certificates refl
      only_seven made

abbrev after : World
after = (revoke_leaf deps "5" "superseded" start "actor" world).1

same_issuer :
    (r : CertificateRecord)
    → by_key serial_of "5" world.db.certificates ≡ some r
    → r.issuer_serial ≡ ""
unfolding first_where
same_issuer r h = ground (arith, h)

listed_after : (crl (builder_of deps intermediate_ca) after).0 ≡ ok "crl"
unfolding revoke_leaf Certificates.revoke ◌>>=◌ attempt modify statement query
    Certificates.get_by_serial Certificates.mark_revoked count invalidate_crl Audit.append
    Audit.insert first_where count_where update_where crl now builder_of current_copy regenerate
    find_revoked revoked_rows crl_entries
listed_after = refl

revoke_leaf-published_example :
    (l : IsList (builder_of deps intermediate_ca) after (after.env.clock after.tick) "crl")
    × (n : ℕ) × (after.env.lib.parse_decimal "5" ≡ some n)
    × Memᴰ
        (record {
          serial = n;
          revocation_time = column start;
          reason_code = reason_code "superseded";
        })
        l.entries
revoke_leaf-published_example =
    revoke_leaf-published deps "5" "superseded" "actor" start world
      (Http.json 200 (Http.revoked "5" start "superseded")) "crl" db-IsKeyed refl revoked_one
      same_issuer listed_after

answered_after : (respond_for ocsp_request issuer after).0 ≡ ok "ocsp"
unfolding revoke_leaf Certificates.revoke ◌>>=◌ attempt modify statement query
    Certificates.get_by_serial Certificates.mark_revoked count invalidate_crl Audit.append
    Audit.insert first_where count_where update_where now respond_for lookup
answered_after = refl

revoke_leaf-reported_example :
    after.env.lib.create_ocsp_response
      (ocsp_response ocsp_request (revoked, some (column start)) (after.env.clock (after.tick + 1)))
      issuer
    ≡ some "ocsp"
revoke_leaf-reported_example =
    revoke_leaf-reported deps "5" "superseded" "actor" start world
      (Http.json 200 (Http.revoked "5" start "superseded")) ocsp_request issuer "ocsp" db-IsKeyed
      revoked_one same_issuer refl answered_after
