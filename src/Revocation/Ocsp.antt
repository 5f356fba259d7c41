-- ===== src/Revocation/Ocsp.antt =====
-- internal/revocation/ocsp.go. An OCSPResponder is its list of issuers.
use trust_mate.Common.{
  ℕ, ◌+◌, ◌*◌, String, Bool, false, Option, none, some, List, [], ◌∷◌, ◌==◌, ◌&&◌, if◌then◌else◌,
}
use trust_mate.Store.Records.{Time, Bytes, Octets, CertificateRecord, Error, not_found}
use trust_mate.Store.Certificates.{get_by_serial}
use trust_mate.Pki.Types.{
  Certificate, Issuer, OcspRequest, OcspStatus, good, revoked, unknown, OcspResponse,
}
use trust_mate.Pki.Library.{Library}
use trust_mate.Pki.Leaf.{or_error}
use trust_mate.Exec.{Result, ok, err, Exec, ◌>>=◌, pure, raise, lift, gets, attempt, now}
use trust_mate.Revocation.Crl.{second}

-- OCSPValidity
abbrev pub ocsp_validity : ℕ
ocsp_validity = 3600 * second

-- ErrMalformedRequest, or any other error
pub data OcspError : Type 0 where
  malformed_request failed : OcspError

-- issuerHashes
unfoldable pub issuer_hashes : Library → Certificate → ℕ → Option (Bytes × Bytes)
issuer_hashes lib cert hash_number = elim (lib.hash hash_number) [
  | none ↦ none
  | some h ↦ (elim (lib.aligned_key_bits cert.raw_public_key_info) [
    | none ↦ none
    | some bits ↦ some (h cert.raw_subject, h bits)
  ])
]

-- whether the hashes of an issuer are those of the request
unfoldable pub is_asked : OcspRequest → Option (Bytes × Bytes) → Bool
is_asked req none = false
is_asked req (some (name_hash, key_hash)) =
    name_hash == req.issuer_name_hash && key_hash == req.issuer_key_hash

unfoldable pub match_issuer : Library → OcspRequest → List Issuer → Option Issuer
match_issuer lib req [] = none
match_issuer lib req (i ∷ is) =
    let rest = match_issuer lib req is in
    if is_asked req (issuer_hashes lib i.cert req.hash) then some i else rest

-- the status and the revocation time of what GetBySerial found
unfoldable pub status_of : String → Option CertificateRecord → OcspStatus × Option Time
status_of issuer_serial none = (unknown, none)
status_of issuer_serial (some rec) =
    if rec.issuer_serial == issuer_serial
    then elim rec.revoked_at [ none ↦ (good, none) | some at ↦ (revoked, some at) ]
    else (unknown, none)

-- GetBySerial, where a row that is not there is no error
unfoldable pub lookup : String → Exec Error (Option CertificateRecord)
lookup serial w = let (r, w') = get_by_serial serial w in (found r, w')
  where
    found : Result Error CertificateRecord → Result Error (Option CertificateRecord)
    found (ok rec) = ok (some rec)
    found (err not_found) = ok none
    found (err e) = err e

unfoldable pub ocsp_response : OcspRequest → OcspStatus × Option Time → Time → OcspResponse
ocsp_response req (status, revoked_at) at = record {
  status = status;
  serial = req.serial;
  this_update = at;
  next_update = at + ocsp_validity;
  revoked_at = revoked_at;
}

-- what Respond does for an issuer of its own
unfoldable pub respond_for : OcspRequest → Issuer → Exec Error Bytes
respond_for req issuer = do
  rec ← lookup req.serial
  at ← now
  lib ← gets (λ w. w.env.lib)
  lift (
      or_error
        (lib.create_ocsp_response (ocsp_response req (status_of issuer.cert.serial rec) at) issuer))

unfoldable pub respond : List Issuer → Octets → Exec OcspError Bytes
respond issuers raw_request = do
  lib ← gets (λ w. w.env.lib)
  elim (lib.parse_ocsp_request raw_request) [
    | none ↦ raise malformed_request
    | some req ↦ (elim (match_issuer lib req issuers) [
      | none ↦ pure lib.ocsp_unauthorized
      | some issuer ↦ attempt (respond_for req issuer) (λ _. raise failed)
    ])
  ]
