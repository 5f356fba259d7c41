-- ===== src/Api/Tsa.antt =====
-- internal/api/tsa.go. A body is what io.ReadAll would read of it without the limit, or none where reading
-- fails; the duration histogram is left out.
use Prim.Native.String
use trust_mate.Common.{
  ℕ, ◌+◌, ◌*◌, String, none, some, ◌==◌, ◌&&◌, not, ltb, length, take, if◌then◌else◌,
}
use trust_mate.Store.Records.{Octets, CertificateRecord}
use trust_mate.Store.Audit
use trust_mate.Pki.Types.{Issuer}
use trust_mate.Keystore.Refs.{fresh_ref}
use trust_mate.Tsa.Responder.{
  TsaError, malformed_request, unsupported_request, failed, rotate, current_issuer, respond,
}
use trust_mate.Tsa.Identity.{IdentityParams, issue_identity}
use trust_mate.World.{tsa_requests, certificates_issued}
use trust_mate.Exec.{Exec, ◌>>=◌, ◌>>◌, pure, attempt}
use trust_mate.Api.Http.{
  ProblemType, Response, Handler, json, document, tsa_rotated, unsupported_media_type,
  body_unreadable, body_too_large, invalid_timestamp_request, unsupported_timestamp_request,
  internal_error, write_problem, write_internal_error,
}
use trust_mate.Api.Deps.{Deps, count}
use trust_mate.Api.Issuing.{entry}
use trust_mate.Api.Revocation.{BinaryRequest}

abbrev pub max_tsa_request_bytes : ℕ
max_tsa_request_bytes = 64 * 1024

-- writeProblem and the metrics after it
unfoldable pub tsa_refuse : {A : Type 0} → Deps → String → ProblemType → Exec Response A
tsa_refuse deps label p = do count deps (tsa_requests label); write_problem p

unfoldable pub tsa_error : {A : Type 0} → Deps → TsaError → Exec Response A
tsa_error deps unsupported_request = tsa_refuse deps "bad_request" unsupported_timestamp_request
tsa_error deps malformed_request = tsa_refuse deps "bad_request" invalid_timestamp_request
tsa_error deps failed = tsa_refuse deps "error" internal_error

unfoldable pub tsa_answer : Deps → Octets → Handler
tsa_answer deps body = do
  der ← attempt (respond deps.intermediate_issuer.cert body) (tsa_error deps)
  count deps (tsa_requests "ok")
  pure (json 200 (document "application/timestamp-reply" der))

unfoldable pub handle_tsa : Deps → BinaryRequest → Handler
handle_tsa deps r =
    if not (r.content_type == "") && not (r.content_type == "application/timestamp-query")
    then tsa_refuse deps "bad_request" unsupported_media_type
    else elim r.body [
      | none ↦ tsa_refuse deps "bad_request" body_unreadable
      | some sent ↦
          (let body = take (max_tsa_request_bytes + 1) sent in
            if ltb max_tsa_request_bytes (length body)
            then tsa_refuse deps "bad_request" body_too_large
            else tsa_answer deps body)
    ]

abbrev pub identity_params : Deps → IdentityParams
identity_params deps = record {
  common_name = deps.tsa_common_name;
  validity = deps.tsa_validity;
  public_base_url = deps.public_base_url;
  revocation_enabled = deps.enable_revocation;
}

unfoldable pub rotation : Issuer → CertificateRecord → Response
rotation previous rec = json 200 (
    tsa_rotated rec.serial previous.cert.serial rec.profile_name rec.not_before rec.not_after
      rec.pem)

-- what follows the issuance of the new identity
unfoldable pub switch_identity : Deps → Issuer → Issuer → CertificateRecord → String → Handler
switch_identity deps previous issuer rec remote_addr = do
  rotate issuer
  attempt
      (Audit.append (
        entry rec.created_at remote_addr "tsa-rotate" rec.serial
          (String.◌++◌ "previous: " previous.cert.serial)))
      (λ _. write_internal_error)
  count deps (certificates_issued rec.profile_name)
  pure (rotation previous rec)

unfoldable pub handle_rotate_tsa : Deps → String → Handler
handle_rotate_tsa deps remote_addr = do
  previous ← current_issuer
  ref ← attempt (fresh_ref deps.key_store "tsa") (λ _. write_internal_error)
  (issuer, rec) ←
      attempt (issue_identity ref (identity_params deps) deps.key_store deps.intermediate_issuer)
        (λ _. write_internal_error)
  switch_identity deps previous issuer rec remote_addr
