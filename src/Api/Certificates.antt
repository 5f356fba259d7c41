-- ===== src/Api/Certificates.antt =====
-- The handlers of internal/api/certificates.go.
use trust_mate.Common.{
  ◌+◌, String, Bool, true, false, not, Option, none, some, ◌||◌, ◌==◌, if◌then◌else◌,
}
use trust_mate.Store.Records.{Time, Bytes, CertKind, leaf, CertificateRecord, Error}
use trust_mate.Store.Records
use trust_mate.Store.Certificates
use trust_mate.Store.Certificates.{kind_eq}
use trust_mate.Store.Audit
use trust_mate.Profiles.Config.{key_usage_strings, ext_key_usage_strings}
use trust_mate.Profiles.Types.{Profile, with_issuer_urls}
use trust_mate.Pki.Types.{CertificateRequest, Template}
use trust_mate.Pki.Leaf.{parse_csr, leaf_template}
use trust_mate.World.{certificates_issued, certificates_revoked}
use trust_mate.Exec.{Exec, ◌>>=◌, ◌>>◌, pure, attempt, now}
use trust_mate.Api.Http
use trust_mate.Api.Http.{
  Preview, Response, Handler, json, write_problem, write_internal_error, issued, preview,
  certificate, revoked, malformed_json, missing_field, invalid_parameter, unknown_profile,
  invalid_csr, unknown_revocation_reason, not_revocable, already_revoked,
}
use trust_mate.Api.Deps.{Deps, count, invalidate_crl}
use trust_mate.Api.Issuing.{lookup_profile, entry, issue_leaf_certificate}

-- strconv.ParseBool
unfoldable pub parse_bool : String → Option Bool
parse_bool s =
    if s == "1" || s == "t" || s == "T" || s == "TRUE" || s == "true" || s == "True"
    then some true
    else if s == "0" || s == "f" || s == "F" || s == "FALSE" || s == "false" || s == "False"
    then some false
    else none

-- the keys of the map revocationReasons
unfoldable pub is_revocation_reason : String → Bool
is_revocation_reason r =
    r == "unspecified"
    || r == "keyCompromise"
    || r == "affiliationChanged"
    || r == "superseded"
    || r == "cessationOfOperation"

pub record IssueRequest : Type 0 where
  pub profile : String
  pub csr : String

pub record IssueCall : Type 0 where
  -- the query parameter dry_run, "" if it is absent
  pub dry_run : String
  -- what the JSON decoder made of the body
  pub body : Option IssueRequest
  pub remote_addr : String

unfoldable pub preview_of : Deps → Profile → CertificateRequest → Template → Preview
preview_of deps profile csr tmpl = record {
  profile = profile.name;
  subject = tmpl.subject.text;
  dns_names = tmpl.dns_names;
  issuer = deps.intermediate_issuer.cert.subject.text;
  not_before = tmpl.not_before;
  not_after = tmpl.not_after;
  public_key_algorithm = csr.public_key_algorithm;
  key_usage = key_usage_strings tmpl.key_usage;
  ext_key_usage = ext_key_usage_strings profile.ext_key_usage;
  critical_eku = profile.critical_eku;
  aia_issuer_urls = tmpl.issuing_certificate_url;
  ocsp_urls = tmpl.ocsp_server;
  crl_urls = tmpl.crl_distribution_points;
}

-- the early returns on a value that is missing
unfoldable pub require : {A : Type 0} → Http.ProblemType → Option A → Exec Response A
require p none = write_problem p
require p (some a) = pure a

-- what follows once the request, the profile and the CSR are known
unfoldable pub preview_certificate : Deps → Profile → CertificateRequest → Time → Handler
preview_certificate deps profile csr at = do
  tmpl ←
      attempt
        (leaf_template profile csr.subject csr.public_key at (at + profile.validity) csr.dns_names)
        (λ _. write_internal_error)
  pure (json 200 (preview (preview_of deps profile csr tmpl)))

unfoldable pub issue_certificate : Deps → Profile → CertificateRequest → Time → String → Handler
issue_certificate deps profile csr at remote_addr = do
  rec ←
      attempt
        (issue_leaf_certificate deps profile csr.subject csr.public_key csr.dns_names at remote_addr
          "issue" profile.name)
        (λ _. write_internal_error)
  count deps (certificates_issued profile.name)
  pure (json 201 (issued rec.serial profile.name rec.not_before rec.not_after rec.pem))

unfoldable pub handle_issue_certificate : Deps → IssueCall → Handler
unfolding require
handle_issue_certificate deps call = do
  dry_run ←
      (if call.dry_run == ""
        then pure false
        else require invalid_parameter (parse_bool call.dry_run))
  req ← require malformed_json call.body
  if req.profile == "" || req.csr == "" then write_problem missing_field else do
    found ← lookup_profile req.profile
    policy ← require unknown_profile found
    csr ← attempt (parse_csr req.csr) (λ _. write_problem invalid_csr)
    at ← now
    let profile = with_issuer_urls policy deps.public_base_url deps.enable_revocation
    if dry_run
        then preview_certificate deps profile csr at
        else issue_certificate deps profile csr at call.remote_addr

-- the problem for an error of GetBySerial
unfoldable pub lookup_error : {A : Type 0} → Error → Exec Response A
lookup_error Records.not_found = write_problem Http.not_found
lookup_error _ = write_internal_error

unfoldable pub handle_get_certificate : String → Handler
handle_get_certificate serial = do
  rec ← attempt (Certificates.get_by_serial serial) lookup_error
  pure (json 200 (certificate rec))

pub record RevokeCall : Type 0 where
  pub serial : String
  -- no body, or what the JSON decoder made of its `reason`
  pub body : Option (Option String)
  pub remote_addr : String

-- the reason of the request: none asked for, or malformed
unfoldable pub reason_of : Option (Option String) → Exec Response String
reason_of none = pure "unspecified"
reason_of (some none) = write_problem malformed_json
reason_of (some (some r)) = pure (if r == "" then "unspecified" else r)

unfoldable pub revoke_error : {A : Type 0} → Error → Exec Response A
revoke_error Records.already_revoked = write_problem already_revoked
revoke_error _ = write_internal_error

-- what follows once the certificate is known to be a leaf
unfoldable pub revoke_leaf : Deps → String → String → Time → String → Handler
revoke_leaf deps serial reason at remote_addr = do
  attempt (Certificates.revoke serial reason at) revoke_error
  attempt (Audit.append (entry at remote_addr "revoke" serial reason)) (λ _. write_internal_error)
  invalidate_crl deps
  count deps certificates_revoked
  pure (json 200 (revoked serial at reason))

unfoldable pub handle_revoke_certificate : Deps → RevokeCall → Handler
unfolding reason_of
handle_revoke_certificate deps call = do
  reason ← reason_of call.body
  if not (is_revocation_reason reason) then write_problem unknown_revocation_reason else do
    rec ← attempt (Certificates.get_by_serial call.serial) lookup_error
    if not (kind_eq rec.kind leaf)
        then write_problem not_revocable
        else do at ← now; revoke_leaf deps call.serial reason at call.remote_addr
