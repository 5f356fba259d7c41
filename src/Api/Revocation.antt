-- ===== src/Api/Revocation.antt =====
-- internal/api/revocation.go. A body is what io.ReadAll would read of it without the limit, or none where
-- reading fails; the duration histogram is left out.
use trust_mate.Common.{
  ℕ, ◌+◌, ◌*◌, String, Option, none, some, [], ◌∷◌, ◌==◌, ◌&&◌, not, ltb, length, take,
  if◌then◌else◌,
}
use trust_mate.Store.Records.{Octets}
use trust_mate.Revocation.Crl.{Authority, root_ca, intermediate_ca, CrlBuilder, crl}
use trust_mate.Revocation.Ocsp.{OcspError, malformed_request, failed, respond}
use trust_mate.World.{ocsp_requests}
use trust_mate.Exec.{Exec, ◌>>=◌, ◌>>◌, pure, attempt}
use trust_mate.Api.Http.{
  ProblemType, Response, Handler, json, document, not_found, unsupported_media_type,
  body_unreadable, body_too_large, invalid_ocsp_request, internal_error, write_problem,
  write_internal_error,
}
use trust_mate.Api.Deps.{Deps, count}

abbrev pub max_ocsp_request_bytes : ℕ
max_ocsp_request_bytes = 64 * 1024

-- CutSuffix of ".crl", and the switch on what it leaves
unfoldable pub requested_ca : String → Option Authority
requested_ca name =
    if name == "intermediate.crl"
    then some intermediate_ca
    else if name == "root.crl"
    then some root_ca
    else none

-- deps.CRLBuilder and deps.RootCRLBuilder
unfoldable pub builder_of : Deps → Authority → CrlBuilder
builder_of deps intermediate_ca = record {
  issuer = deps.intermediate_issuer;
  authority = intermediate_ca;
}
builder_of deps root_ca = record { issuer = deps.root_issuer; authority = root_ca }

unfoldable pub serve_crl : Deps → Authority → Handler
serve_crl deps ca = do
  der ← attempt (crl (builder_of deps ca)) (λ _. write_internal_error)
  pure (json 200 (document "application/pkix-crl" der))

unfoldable pub handle_crl : Deps → String → Handler
handle_crl deps name = elim (requested_ca name) [
  | none ↦ write_problem not_found
  | some ca ↦ serve_crl deps ca
]

-- a request body of one of the two binary protocols
pub record BinaryRequest : Type 0 where
  pub content_type : String
  pub body : Option Octets

-- writeProblem and the metrics after it
unfoldable pub ocsp_refuse : {A : Type 0} → Deps → String → ProblemType → Exec Response A
ocsp_refuse deps label p = do count deps (ocsp_requests label); write_problem p

unfoldable pub ocsp_error : {A : Type 0} → Deps → OcspError → Exec Response A
ocsp_error deps malformed_request = ocsp_refuse deps "bad_request" invalid_ocsp_request
ocsp_error deps failed = ocsp_refuse deps "error" internal_error

unfoldable pub ocsp_answer : Deps → Octets → Handler
ocsp_answer deps body = do
  der ← attempt (respond (deps.root_issuer ∷ deps.intermediate_issuer ∷ []) body) (ocsp_error deps)
  count deps (ocsp_requests "ok")
  pure (json 200 (document "application/ocsp-response" der))

unfoldable pub handle_ocsp : Deps → BinaryRequest → Handler
handle_ocsp deps r =
    if not (r.content_type == "") && not (r.content_type == "application/ocsp-request")
    then ocsp_refuse deps "bad_request" unsupported_media_type
    else elim r.body [
      | none ↦ ocsp_refuse deps "bad_request" body_unreadable
      | some sent ↦
          (let body = take (max_ocsp_request_bytes + 1) sent in
            if ltb max_ocsp_request_bytes (length body)
            then ocsp_refuse deps "bad_request" body_too_large
            else ocsp_answer deps body)
    ]
