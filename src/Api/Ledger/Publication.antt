-- ===== src/Api/Ledger/Publication.antt =====
-- From the revoke route to the revocation list and to OCSP.
use mathlib.Core.List.{Memᴰ}
use mathlib.Core.Path.{subst}
use trust_mate.Common.{ℕ, ◌+◌, ◌≡◌, refl, sym, ap, ◌∙◌, String, true, some, arith, eq_iff}
use trust_mate.Store.Records.{Time, Bytes, CertificateRecord}
use trust_mate.Store.Table.{by_key, key-by_key}
use trust_mate.Store.Certificates.{serial_of}
use trust_mate.Store.Extends.{IsKeyed}
use trust_mate.Store.Members.{first_where-Memᴰ}
use trust_mate.Store.Revoking.{revoked_as}
use trust_mate.Store.Timestamp.{column}
use trust_mate.Pki.Types.{OcspRequest, revoked, Issuer}
use trust_mate.World.{World}
use trust_mate.Exec.{ok}
use trust_mate.Revocation.Crl.{reason_code, crl, intermediate_ca}
use trust_mate.Revocation.Publishing.{IsList, crl-IsList, current_copy-dropped}
use trust_mate.Revocation.Ocsp.{status_of, ocsp_response, respond_for}
use trust_mate.Revocation.Status.{respond_for-ok}
use trust_mate.Api.Http.{Response}
use trust_mate.Api.Deps.{Deps}
use trust_mate.Api.Certificates.{revoke_leaf}
use trust_mate.Api.Revocation.{builder_of}
use trust_mate.Api.Ledger.Revocation.{revoke_leaf-ok}

-- With unique keys and a CRL builder, once the revoke route has answered for a certificate of the
-- intermediate CA, the next CRL that this CA's builder returns is not the copy cached before: it is a
-- signed list of exactly its revoked certificates in that ledger, with an entry for this one that has its
-- serial number, the code of the reason, and the time to the second.
pub revoke_leaf-published :
    (deps : Deps) (serial reason remote_addr : String) (at : Time) (w : World) (resp : Response)
    (der : Bytes)
    → IsKeyed w.db
    → deps.crl_builder ≡ true
    → (revoke_leaf deps serial reason at remote_addr w).0 ≡ ok resp
    → ((r : CertificateRecord)
        → by_key serial_of serial w.db.certificates ≡ some r
        → r.issuer_serial ≡ deps.intermediate_issuer.cert.serial)
    → (crl (builder_of deps intermediate_ca) (revoke_leaf deps serial reason at remote_addr w).1).0
      ≡ ok der
    → (let v = (revoke_leaf deps serial reason at remote_addr w).1 in
        (l : IsList (builder_of deps intermediate_ca) v (v.env.clock v.tick) der) × (n : ℕ)
        × (v.env.lib.parse_decimal serial ≡ some n)
        × Memᴰ
            (record { serial = n; revocation_time = column at; reason_code = reason_code reason })
            l.entries)
unfolding builder_of
revoke_leaf-published deps serial reason remote_addr at w resp der u has h mine listed =
    let b = builder_of deps intermediate_ca in
    let v = (revoke_leaf deps serial reason at remote_addr w).1 in
    let (r, found, standing, later, dropped, _) =
      revoke_leaf-ok deps serial reason remote_addr at w resp u h in
    let (l, _) = crl-IsList b v der (current_copy-dropped _ v.crl (dropped has)) listed in
    let (e, says, m) =
      l.lists.complete (revoked_as reason at r) (first_where-Memᴰ _ v.db.certificates _ later)
        (mine r found) refl in
    let named : r.serial ≡ serial = key-by_key serial_of serial w.db.certificates r found in
    (
      l,
      e.serial,
      subst (λ s. v.env.lib.parse_decimal s ≡ some e.serial) named says.serial,
      subst (λ x. Memᴰ x l.entries) (ground (arith, says.entry, says.at)) m,
    )

-- With unique keys, once the revoke route has answered for a certificate of a CA, an OCSP response for its
-- serial that this CA signs from that state says revoked, at the time of the revocation to the second.
pub revoke_leaf-reported :
    (deps : Deps) (serial reason remote_addr : String) (at : Time) (w : World) (resp : Response)
    (req : OcspRequest) (issuer : Issuer) (der : Bytes)
    → IsKeyed w.db
    → (revoke_leaf deps serial reason at remote_addr w).0 ≡ ok resp
    → ((r : CertificateRecord)
        → by_key serial_of serial w.db.certificates ≡ some r
        → r.issuer_serial ≡ issuer.cert.serial)
    → req.serial ≡ serial
    → (respond_for req issuer (revoke_leaf deps serial reason at remote_addr w).1).0 ≡ ok der
    → (let v = (revoke_leaf deps serial reason at remote_addr w).1 in
        v.env.lib.create_ocsp_response
          (ocsp_response req (revoked, some (column at)) (v.env.clock (v.tick + 1)))
          issuer
        ≡ some der)
unfolding status_of
revoke_leaf-reported deps serial reason remote_addr at w resp req issuer der u h mine asked
      answered =
    let v = (revoke_leaf deps serial reason at remote_addr w).1 in
    let (r, found, standing, later, _, _) =
      revoke_leaf-ok deps serial reason remote_addr at w resp u h in
    let row : by_key serial_of req.serial v.db.certificates ≡ some (revoked_as reason at r) =
      subst (λ s. by_key serial_of s v.db.certificates ≡ some (revoked_as reason at r)) (sym asked)
        later in
    let status : status_of issuer.cert.serial (some (revoked_as reason at r))
        ≡ (revoked, some (column at)) =
      ground (arith, mine r found, eq_iff r.issuer_serial issuer.cert.serial) in
    subst
      (λ s.
        v.env.lib.create_ocsp_response (ocsp_response req s (v.env.clock (v.tick + 1))) issuer
        ≡ some der)
      (ap (status_of issuer.cert.serial) row ∙ status) (respond_for-ok req issuer v der answered)
