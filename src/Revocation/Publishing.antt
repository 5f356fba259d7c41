-- ===== src/Revocation/Publishing.antt =====
-- What a revocation list that the service hands out says of the ledger.
use trust_mate.Common.{
  ℕ, ◌+◌, ◌<◌, ◌≡◌, ◌≤◌, refl, sym, none, some, List, arith, inl, inr, Option-cases, Bool-cases,
}
use trust_mate.Store.Records.{Time, Bytes}
use trust_mate.Store.Certificates.{find_revoked, revoked_rows}
use trust_mate.Pki.Types.{RevokedEntry}
use trust_mate.World.{World, CrlCache}
use trust_mate.Exec.{ok, ◌>>=◌, modify, now, query}
use trust_mate.Revocation.Crl.{
  crl_validity, Authority, root_ca, intermediate_ca, CrlBuilder, cache_of, set_cache, crl_entries,
  revocation_list, current_copy, regenerate, crl,
}
use trust_mate.Revocation.Entries.{Lists, crl_entries-Lists}

-- the bytes are a signed list, made at `at`, of exactly the revoked certificates of the issuer in `w`
pub record IsList (b : CrlBuilder) (w : World) (at : Time) (der : Bytes) : Type 0 where
  pub entries : List RevokedEntry
  pub signed : w.env.lib.create_revocation_list (revocation_list at entries) b.issuer ≡ some der
  pub lists : Lists w.env.lib.parse_decimal b.issuer.cert.serial w.db.certificates entries

cache_of-set_cache : (a : Authority) (c : CrlCache) (w : World) → cache_of a (set_cache a c w) ≡ c
cache_of-set_cache root_ca c w = refl
cache_of-set_cache intermediate_ca c w = refl

cache_of-tick :
    (a : Authority) (n : ℕ) (w : World) → cache_of a (record w { tick = n }) ≡ cache_of a w
cache_of-tick root_ca n w = refl
cache_of-tick intermediate_ca n w = refl

-- where the regeneration returns
regenerate-ok :
    (b : CrlBuilder) (at : Time) (w : World) (der : Bytes)
    → (regenerate b at w).0 ≡ ok der
    → IsList b w at der
      × (cache_of b.authority (regenerate b at w).1
          ≡ record { cached = some der; expires = at + crl_validity })
unfolding regenerate find_revoked query modify ◌>>=◌
regenerate-ok b at w der h =
    let lib = w.env.lib in
    let rows = revoked_rows w.db.certificates in
    elim (Bool-cases (w.env.fault w.tick)) [
      | inl x ↦ absurd (ground (arith, h, x))
      | inr x ↦ (elim (Option-cases (crl_entries lib.parse_decimal b.issuer.cert.serial rows)) [
        | inl e ↦ absurd (ground (arith, h, x, e))
        | inr (es, e) ↦
            (elim (Option-cases (lib.create_revocation_list (revocation_list at es) b.issuer)) [
              | inl d ↦ absurd (ground (arith, h, x, e, d))
              | inr (made, d) ↦ (
                record {
                  entries = es;
                  signed = ground (arith, h, x, e, d);
                  lists = crl_entries-Lists _ _ w.db.certificates es e;
                },
                ground (
                  arith,
                  h,
                  x,
                  e,
                  d,
                  cache_of-set_cache b.authority
                      (record { cached = some made; expires = at + crl_validity })
                      (record w { tick = w.tick + 1 }),
                ),
              )
            ])
      ])
    ]

-- without a current copy, CRL regenerates the list
crl-stale :
    (b : CrlBuilder) (w : World)
    → current_copy (w.env.clock w.tick) (cache_of b.authority w) ≡ none
    → crl b w ≡ regenerate b (w.env.clock w.tick) (record w { tick = w.tick + 1 })
unfolding crl now ◌>>=◌
crl-stale b w stale = rw (cache_of-tick b.authority (w.tick + 1) w, stale) refl

-- A list that CRL makes anew, where no copy is cached or the cached one has expired, is signed by the
-- builder's issuer, is dated now, and lists exactly the revoked certificates of that issuer in the ledger,
-- each with its serial, time and reason; it is then cached for 24 hours.
pub crl-IsList :
    (b : CrlBuilder) (w : World) (der : Bytes)
    → current_copy (w.env.clock w.tick) (cache_of b.authority w) ≡ none
    → (crl b w).0 ≡ ok der
    → IsList b w (w.env.clock w.tick) der
      × (cache_of b.authority (crl b w).1
          ≡ record { cached = some der; expires = w.env.clock w.tick + crl_validity })
crl-IsList b w der stale h =
    let same = crl-stale b w stale in
    let (l, c) = regenerate-ok b _ (record w { tick = w.tick + 1 }) der (rw (sym same) h) in
    (record { entries = l.entries; signed = l.signed; lists = l.lists }, rw same c)

pub current_copy-dropped : (at : Time) (c : CrlCache) → c.cached ≡ none → current_copy at c ≡ none
unfolding current_copy
current_copy-dropped at c h = ground (arith, h)

-- with a current copy, CRL returns it
crl-current :
    (b : CrlBuilder) (w : World) (der : Bytes)
    → current_copy (w.env.clock w.tick) (cache_of b.authority w) ≡ some der
    → crl b w ≡ (ok der, record w { tick = w.tick + 1 })
unfolding crl now ◌>>=◌
crl-current b w der held = rw (cache_of-tick b.authority (w.tick + 1) w, held) refl

-- Where a call of CRL has made a list anew, a later call in a world with that cache, up to 24 hours after,
-- returns the same bytes without a statement to the datastore and leaves all but its position as it was;
-- from 24 hours on the copy is not current any more.
pub crl-again :
    (b : CrlBuilder) (w v : World) (der : Bytes)
    → current_copy (w.env.clock w.tick) (cache_of b.authority w) ≡ none
    → (crl b w).0 ≡ ok der
    → cache_of b.authority v ≡ cache_of b.authority (crl b w).1
    → (v.env.clock v.tick < w.env.clock w.tick + crl_validity
        → crl b v ≡ (ok der, record v { tick = v.tick + 1 }))
      × (w.env.clock w.tick + crl_validity ≤ v.env.clock v.tick
          → current_copy (v.env.clock v.tick) (cache_of b.authority v) ≡ none)
unfolding current_copy
crl-again b w v der stale h kept =
    let c = (crl-IsList b w der stale h).1 in
    (
      λ soon. crl-current b v der (rw (kept, c) (ground (arith, soon))),
      λ late. rw (kept, c) (ground (arith, late)),
    )
