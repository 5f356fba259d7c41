-- ===== src/Revocation/Status.antt =====
-- Which issuer answers an OCSP request, and what the answer says of the ledger and of the revocation list.
use mathlib.Core.List.{Memᴰ}
use trust_mate.Common.{
  ◌+◌, ◌≡◌, ◌≢◌, String, true, false, Option, none, some, List, arith, inl, inr, Option-cases,
  Bool-cases,
}
use trust_mate.Store.Records.{Time, Bytes, CertificateRecord}
use trust_mate.Store.Table.{by_key}
use trust_mate.Store.Certificates.{serial_of, get_by_serial}
use trust_mate.Pki.Types.{Issuer, OcspRequest, OcspStatus, good, revoked, unknown}
use trust_mate.Pki.Library.{Library}
use trust_mate.World.{World}
use trust_mate.Exec.{ok, ◌>>=◌, query, now}
use trust_mate.Revocation.Ocsp.{
  issuer_hashes, is_asked, status_of, lookup, ocsp_response, respond_for,
}

-- what RFC 6960 has an issuer say of the row that a serial finds
pub data IsStatus (issuer : String) (row : Option CertificateRecord)
    : OcspStatus → Option Time → Type 0 where
  is_good :
      (r : CertificateRecord)
      → row ≡ some r
      → r.issuer_serial ≡ issuer
      → r.revoked_at ≡ none
      → IsStatus issuer row good none
  is_revoked :
      (r : CertificateRecord) (t : Time)
      → row ≡ some r
      → r.issuer_serial ≡ issuer
      → r.revoked_at ≡ some t
      → IsStatus issuer row revoked (some t)
  is_missing : row ≡ none → IsStatus issuer row unknown none
  is_foreign :
      (r : CertificateRecord)
      → row ≡ some r
      → r.issuer_serial ≢ issuer
      → IsStatus issuer row unknown none

-- what an answer of the responder is
pub data Answers (issuers : List Issuer) (req : OcspRequest) (w : World) (der : Bytes)
    : Type 0 where
  -- a response of the issuer that was asked for, with the status of the serial in the ledger
  signed :
      (issuer : Issuer) (status : OcspStatus) (revoked_at : Option Time) (at : Time)
      → Memᴰ issuer issuers
      → is_asked req (issuer_hashes w.env.lib issuer.cert req.hash) ≡ true
      → IsStatus issuer.cert.serial
          (by_key serial_of req.serial w.db.certificates)
          status
          revoked_at
      → w.env.lib.create_ocsp_response (ocsp_response req (status, revoked_at) at) issuer ≡ some der
      → Answers issuers req w der
  -- the unsigned refusal
  unauthorized :
      ((issuer : Issuer)
        → Memᴰ issuer issuers
        → is_asked req (issuer_hashes w.env.lib issuer.cert req.hash) ≡ false)
      → der ≡ w.env.lib.ocsp_unauthorized
      → Answers issuers req w der

pub respond_for-ok :
    (req : OcspRequest) (issuer : Issuer) (w : World) (der : Bytes)
    → (respond_for req issuer w).0 ≡ ok der
    → w.env.lib.create_ocsp_response
        (ocsp_response req
          (status_of issuer.cert.serial (by_key serial_of req.serial w.db.certificates))
          (w.env.clock (w.tick + 1)))
        issuer
      ≡ some der
unfolding respond_for lookup get_by_serial query now ◌>>=◌
respond_for-ok req issuer w der h = elim (Bool-cases (w.env.fault w.tick)) [
  | inl x ↦ absurd (ground (arith, h, x))
  | inr x ↦
      (let row = by_key serial_of req.serial w.db.certificates in
        let made = λ (o : Option CertificateRecord).
          w.env.lib.create_ocsp_response
            (ocsp_response req (status_of issuer.cert.serial o) (w.env.clock (w.tick + 1)))
            issuer in
        elim (Option-cases row) [
          | inl e ↦ (elim (Option-cases (made none)) [
            | inl d ↦ absurd (ground (arith, h, x, e, d))
            | inr (c, d) ↦ ground (arith, h, x, e, d)
          ])
          | inr (r, e) ↦ (elim (Option-cases (made (some r))) [
            | inl d ↦ absurd (ground (arith, h, x, e, d))
            | inr (c, d) ↦ ground (arith, h, x, e, d)
          ])
        ])
]
