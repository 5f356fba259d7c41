-- ===== src/Revocation/Entries.antt =====
-- The entries of a revocation list and the rows of the ledger.
use mathlib.Core.List.{Memᴰ}
use mathlib.Core.List.Memᴰ
use mathlib.Core.Path.{subst}
use trust_mate.Common.{
  ℕ, ◌≡◌, refl, sym, ◌∙◌, String, true, false, Option, some, List, [], ◌∷◌, ◌==◌, arith, inl, inr,
  Option-cases, Bool-cases, eq_iff, select,
}
use trust_mate.Store.Records.{CertificateRecord}
use trust_mate.Store.Certificates.{is_revoked, revoked_rows}
use trust_mate.Store.Members.{Memᴰ-select, select-Memᴰ, Memᴰ-order_by, order_by-Memᴰ}
use trust_mate.Pki.Types.{RevokedEntry}
use trust_mate.Revocation.Crl.{entry_of, crl_entries}

-- an entry says of a row that its certificate is revoked
pub record Says (parse : String → Option ℕ) (issuer : String) (r : CertificateRecord)
    (e : RevokedEntry) : Type 0 where
  pub issued : r.issuer_serial ≡ issuer
  pub serial : parse r.serial ≡ some e.serial
  pub at : r.revoked_at ≡ some e.revocation_time
  pub entry : e ≡ entry_of r e.serial e.revocation_time

module _ (parse : String → Option ℕ) (issuer : String) where
  -- a row of the issuer gives an entry at the head
  crl_entries-cons :
      (r : CertificateRecord) (rs : List CertificateRecord) (es : List RevokedEntry)
      → crl_entries parse issuer (r ∷ rs) ≡ some es
      → r.issuer_serial ≡ issuer
      → (e : RevokedEntry) × (rest : List RevokedEntry) × Says parse issuer r e
        × (crl_entries parse issuer rs ≡ some rest)
        × (es ≡ e ∷ rest)
  unfolding crl_entries
  crl_entries-cons r rs es h mine = elim (Option-cases (parse r.serial)) [
    | inl e ↦ absurd (ground (arith, h, e, mine, eq_iff r.issuer_serial issuer))
    | inr (n, e) ↦ (elim (Option-cases r.revoked_at) [
      | inl f ↦ absurd (ground (arith, h, e, f, mine, eq_iff r.issuer_serial issuer))
      | inr (t, f) ↦ (elim (Option-cases (crl_entries parse issuer rs)) [
        | inl g ↦ absurd (ground (arith, h, e, f, g, mine, eq_iff r.issuer_serial issuer))
        | inr (rest, g) ↦ (
          entry_of r n t,
          rest,
          record { issued = mine; serial = e; at = f; entry = refl },
          g,
          ground (arith, h, e, f, g, mine, eq_iff r.issuer_serial issuer),
        )
      ])
    ])
  ]

  crl_entries-skip :
      (r : CertificateRecord) (rs : List CertificateRecord)
      → (r.issuer_serial == issuer) ≡ false
      → crl_entries parse issuer (r ∷ rs) ≡ crl_entries parse issuer rs
  unfolding crl_entries
  crl_entries-skip r rs h = ground (arith, h)

  pub crl_entries_complete :
      (r : CertificateRecord) (rs : List CertificateRecord) (es : List RevokedEntry)
      → crl_entries parse issuer rs ≡ some es
      → r.issuer_serial ≡ issuer
      → Memᴰ r rs
      → (e : RevokedEntry) × Says parse issuer r e × Memᴰ e es
  crl_entries_complete r [] es h mine m = elim m [ ]
  crl_entries_complete r (x ∷ rs) es h mine (Memᴰ.head p) =
      let (e, rest, says, g, same) =
        crl_entries-cons x rs es h (subst (λ z. z.issuer_serial ≡ issuer) p mine) in
      (
        e,
        subst (λ z. Says parse issuer z e) (sym p) says,
        subst (Memᴰ e) (sym same) (Memᴰ.head refl),
      )
  crl_entries_complete r (x ∷ rs) es h mine (Memᴰ.tail m) =
      elim (Bool-cases (x.issuer_serial == issuer)) [
        | inl b ↦
            (let (e, rest, says, g, same) =
                crl_entries-cons x rs es h ((eq_iff x.issuer_serial issuer).0 b) in
              let (e', says', n) = crl_entries_complete r rs rest g mine m in
              (e', says', subst (Memᴰ e') (sym same) (Memᴰ.tail n)))
        | inr b ↦ crl_entries_complete r rs es (sym (crl_entries-skip x rs b) ∙ h) mine m
      ]

  pub crl_entries_sound :
      (e : RevokedEntry) (rs : List CertificateRecord) (es : List RevokedEntry)
      → crl_entries parse issuer rs ≡ some es
      → Memᴰ e es
      → (r : CertificateRecord) × Says parse issuer r e × Memᴰ r rs
  unfolding crl_entries
  crl_entries_sound e [] [] h m = elim m [ ]
  crl_entries_sound e [] (x ∷ es) h m = absurd (ground (arith, h))
  crl_entries_sound e (x ∷ rs) es h m = elim (Bool-cases (x.issuer_serial == issuer)) [
    | inl b ↦
        (let (e', rest, says, g, same) =
            crl_entries-cons x rs es h ((eq_iff x.issuer_serial issuer).0 b) in
          elim (Memᴰ.cases_cons (subst (Memᴰ e) same m)) [
            | inl p ↦ (x, subst (Says parse issuer x) (sym p) says, Memᴰ.head refl)
            | inr n ↦ let (r, says', k) = crl_entries_sound e rs rest g n in (r, says', Memᴰ.tail k)
          ])
    | inr b ↦
        (let (r, says, k) = crl_entries_sound e rs es (sym (crl_entries-skip x rs b) ∙ h) m in
          (r, says, Memᴰ.tail k))
  ]

  -- the entries of a list are the revoked certificates of the issuer, no more and no fewer
  pub record Lists (rows : List CertificateRecord) (es : List RevokedEntry) : Type 0 where
    pub complete :
        (r : CertificateRecord)
        → Memᴰ r rows
        → r.issuer_serial ≡ issuer
        → is_revoked r ≡ true
        → (e : RevokedEntry) × Says parse issuer r e × Memᴰ e es
    pub sound :
        (e : RevokedEntry)
        → Memᴰ e es
        → (r : CertificateRecord) × Says parse issuer r e × Memᴰ r rows × (is_revoked r ≡ true)

  pub crl_entries-Lists :
      (rows : List CertificateRecord) (es : List RevokedEntry)
      → crl_entries parse issuer (revoked_rows rows) ≡ some es
      → Lists rows es
  unfolding revoked_rows
  crl_entries-Lists rows es h = record {
    complete = λ r m mine gone.
        crl_entries_complete r _ es h mine
          (Memᴰ-order_by _ r (select is_revoked rows) (Memᴰ-select is_revoked r rows gone m));
    sound = λ e m.
        (let (r, says, k) = crl_entries_sound e _ es h m in
          let (n, gone) =
            select-Memᴰ is_revoked r rows (order_by-Memᴰ _ r (select is_revoked rows) k) in
          (r, says, n, gone));
  }
