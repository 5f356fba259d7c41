-- ===== src/Revocation/Agreement.antt =====
-- The entries of a revocation list and the status that OCSP reports, for the same ledger and issuer.
use mathlib.Core.List.{Memᴰ}
use mathlib.Core.Path.{subst}
use trust_mate.Common.{
  ℕ, ◌≡◌, sym, ◌∙◌, ap, String, false, Option, some, List, [], ◌∷◌, ◌==◌, arith, inl, inr,
  Option-cases, Bool-cases, eq_iff, eq_refl,
}
use trust_mate.Store.Records.{CertificateRecord}
use trust_mate.Store.Table.{by_key, first_where, IsUnique, IsFresh, key-by_key}
use trust_mate.Store.Members.{first_where-Memᴰ}
use trust_mate.Store.Certificates.{serial_of, revoked_rows}
use trust_mate.Pki.Types.{revoked, RevokedEntry}
use trust_mate.Revocation.Crl.{crl_entries}
use trust_mate.Revocation.Entries.{crl_entries-Lists}
use trust_mate.Revocation.Ocsp.{status_of}

-- a key that no row has is not among the rows
IsFresh-ne :
    (k : String) (rows : List CertificateRecord) (r : CertificateRecord)
    → IsFresh serial_of k rows
    → Memᴰ r rows
    → (r.serial == k) ≡ false
unfolding first_where
IsFresh-ne k [] r h m = elim m [ ]
IsFresh-ne k (x ∷ rows) r h (Memᴰ.head p) =
    subst (λ y. (y.serial == k) ≡ false) (sym p) (ground (arith, h))
IsFresh-ne k (x ∷ rows) r h (Memᴰ.tail m) = IsFresh-ne k rows r (ground (arith, h)) m

-- where serials are unique, a serial finds each row that has it
by_key-Memᴰ :
    (rows : List CertificateRecord) (r : CertificateRecord)
    → IsUnique serial_of rows
    → Memᴰ r rows
    → by_key serial_of r.serial rows ≡ some r
unfolding first_where
by_key-Memᴰ [] r u m = elim m [ ]
by_key-Memᴰ (x ∷ rows) r u (Memᴰ.head p) =
    subst (λ y. by_key serial_of y.serial (x ∷ rows) ≡ some y) (sym p)
      (ground (arith, eq_refl x.serial))
by_key-Memᴰ (x ∷ rows) r (here, u) (Memᴰ.tail m) = ground (
  arith,
  by_key-Memᴰ rows r u m,
  IsFresh-ne x.serial rows r here m,
  eq_iff x.serial r.serial,
  eq_iff r.serial x.serial,
)

status_of-revoked :
    (issuer : String) (r : CertificateRecord)
    → (status_of issuer (some r)).0 ≡ revoked
    → (r.issuer_serial ≡ issuer)
      × (t : ℕ) × (r.revoked_at ≡ some t)
      × ((status_of issuer (some r)).1 ≡ some t)
unfolding status_of
status_of-revoked issuer r h = elim (Bool-cases (r.issuer_serial == issuer)) [
  | inr b ↦ absurd (ground (arith, h, b))
  | inl b ↦ (elim (Option-cases r.revoked_at) [
    | inl f ↦ absurd (ground (arith, h, b, f))
    | inr (t, f) ↦ ((eq_iff r.issuer_serial issuer).0 b, t, f, ground (arith, b, f))
  ])
]

revoked-status_of :
    (issuer : String) (r : CertificateRecord) (t : ℕ)
    → r.issuer_serial ≡ issuer
    → r.revoked_at ≡ some t
    → (status_of issuer (some r)).0 ≡ revoked
unfolding status_of
revoked-status_of issuer r t mine f = ground (arith, mine, f, eq_iff r.issuer_serial issuer)

-- In a ledger where serials are unique, and for a serial whose number no other of its serials has, the
-- entries that CRL makes for an issuer of the ledger's revoked certificates have one with that number if and
-- only if the OCSP status of the serial under that issuer is revoked; the status then has the time of such
-- an entry.
pub listed-iff-revoked :
    (parse : String → Option ℕ) (issuer serial : String) (n : ℕ) (rows : List CertificateRecord)
    (es : List RevokedEntry)
    → IsUnique serial_of rows
    → parse serial ≡ some n
    → ((r : CertificateRecord) → Memᴰ r rows → parse r.serial ≡ some n → r.serial ≡ serial)
    → crl_entries parse issuer (revoked_rows rows) ≡ some es
    → ((e : RevokedEntry) × Memᴰ e es × (e.serial ≡ n)
        → (status_of issuer (by_key serial_of serial rows)).0 ≡ revoked)
      × ((status_of issuer (by_key serial_of serial rows)).0 ≡ revoked
          → (e : RevokedEntry) × Memᴰ e es
            × (e.serial ≡ n)
            × ((status_of issuer (by_key serial_of serial rows)).1 ≡ some e.revocation_time))
unfolding status_of
listed-iff-revoked parse issuer serial n rows es u number only made =
    let l = crl_entries-Lists parse issuer rows es made in
    (
      λ (e, k, same).
          (let (r, says, m, gone) = l.sound e k in
            let mine = only r m (says.serial ∙ ap some same) in
            let found =
              subst (λ s. by_key serial_of s rows ≡ some r) mine (by_key-Memᴰ rows r u m) in
            subst (λ o. (status_of issuer o).0 ≡ revoked) (sym found)
              (revoked-status_of issuer r e.revocation_time says.issued says.at)),
      λ h. elim (Option-cases (by_key serial_of serial rows)) [
        | inl f ↦ absurd (ground (arith, h, f))
        | inr (r, f) ↦
            (let (mine, t, at, reported) =
                status_of-revoked issuer r (subst (λ o. (status_of issuer o).0 ≡ revoked) f h) in
              let (e, says, k) =
                l.complete r (first_where-Memᴰ _ rows r f) mine (ground (arith, at)) in
              let serial_is = key-by_key serial_of serial rows r f in
              let counted : some e.serial ≡ some n =
                sym says.serial ∙ ap parse serial_is ∙ number in
              (
                e,
                k,
                ground (arith, counted),
                subst (λ o. (status_of issuer o).1 ≡ some e.revocation_time) (sym f)
                    (reported ∙ ground (arith, sym at ∙ says.at)),
              ))
      ],
    )
