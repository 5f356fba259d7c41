-- ===== src/Api/Http.antt =====
-- Requests and responses of internal/api, with the error catalogue of problem.go. A request's JSON body
-- is what the decoder made of it. A response keeps the type, title and status of a problem and the
-- values of a success; the human-readable detail and the extension members are left out.
use trust_mate.Common.{ℕ, String, Bool, Option, none, List}
use trust_mate.Store.Records.{Time, Bytes, ClientRole, CertificateRecord, AuditEntry, OrderRecord}
use trust_mate.Exec.{Exec, raise}

pub record ProblemType : Type 0 where
  pub slug : String
  pub title : String
  pub status : ℕ

abbrev problem_type : String → String → ℕ → ProblemType
problem_type slug title status = record { slug = slug; title = title; status = status }

abbrev pub malformed_json : ProblemType
malformed_json = problem_type "malformed-json" "Request body is not valid JSON" 400

abbrev pub missing_field : ProblemType
missing_field = problem_type "missing-field" "Required field missing" 400

abbrev pub invalid_parameter : ProblemType
invalid_parameter = problem_type "invalid-parameter" "Invalid query parameter" 400

abbrev pub unknown_profile : ProblemType
unknown_profile = problem_type "unknown-profile" "Unknown certificate profile" 400

abbrev pub invalid_csr : ProblemType
invalid_csr = problem_type "invalid-csr" "Invalid certificate signing request" 400

abbrev pub invalid_role : ProblemType
invalid_role = problem_type "invalid-role" "Invalid role" 400

abbrev pub unknown_revocation_reason : ProblemType
unknown_revocation_reason = problem_type "unknown-revocation-reason" "Unknown revocation reason" 400

abbrev pub not_revocable : ProblemType
not_revocable = problem_type "not-revocable" "Certificate cannot be revoked" 400

abbrev pub already_revoked : ProblemType
already_revoked = problem_type "already-revoked" "Certificate already revoked" 409

abbrev pub not_found : ProblemType
not_found = problem_type "not-found" "Not found" 404

abbrev pub profile_reload_failed : ProblemType
profile_reload_failed = problem_type "profile-reload-failed" "Profile reload failed" 400

abbrev pub profile_registry_unavailable : ProblemType
profile_registry_unavailable =
    problem_type "profile-registry-unavailable" "Profile registry not configured" 503

abbrev pub unsupported_media_type : ProblemType
unsupported_media_type = problem_type "unsupported-media-type" "Unsupported content type" 415

abbrev pub body_unreadable : ProblemType
body_unreadable = problem_type "body-unreadable" "Request body could not be read" 400

abbrev pub body_too_large : ProblemType
body_too_large = problem_type "body-too-large" "Request body too large" 400

abbrev pub invalid_ocsp_request : ProblemType
invalid_ocsp_request = problem_type "invalid-ocsp-request" "Invalid OCSP request" 400

abbrev pub invalid_timestamp_request : ProblemType
invalid_timestamp_request = problem_type "invalid-timestamp-request" "Invalid timestamp request" 400

abbrev pub unsupported_timestamp_request : ProblemType
unsupported_timestamp_request =
    problem_type "unsupported-timestamp-request" "Unsupported timestamp request" 400

abbrev pub client_certificate_required : ProblemType
client_certificate_required =
    problem_type "client-certificate-required" "Client certificate required" 401

abbrev pub client_certificate_not_authorized : ProblemType
client_certificate_not_authorized =
    problem_type "client-certificate-not-authorized" "Client certificate not authorized" 403

abbrev pub client_certificate_revoked : ProblemType
client_certificate_revoked =
    problem_type "client-certificate-revoked" "Client certificate revoked" 403

abbrev pub insufficient_role : ProblemType
insufficient_role = problem_type "insufficient-role" "Insufficient role" 403

abbrev pub internal_error : ProblemType
internal_error = problem_type "internal-error" "Internal error" 500

pub record Preview : Type 0 where
  pub profile : String
  pub subject : String
  pub dns_names : List String
  pub issuer : String
  pub not_before : Time
  pub not_after : Time
  pub public_key_algorithm : String
  pub key_usage : List String
  pub ext_key_usage : List String
  pub critical_eku : Bool
  pub aia_issuer_urls : List String
  pub ocsp_urls : List String
  pub crl_urls : List String

pub record ClientResponse : Type 0 where
  pub serial : String
  pub role : ClientRole
  pub subject : String
  pub not_after : Time
  pub revoked_at : Option Time

pub record ProfileResponse : Type 0 where
  pub name : String
  pub version : ℕ
  pub key_usage : List String
  pub ext_key_usage : List String
  pub critical_eku : Bool
  pub validity : ℕ
  pub enable_ocsp : Bool
  pub enable_crl : Bool

pub data Body : Type 0 where
  problem : ProblemType → Body
  -- urn:ietf:params:acme:error:…
  acme_error : String → Body
  issued : (serial profile : String) (not_before not_after : Time) (pem : Bytes) → Body
  preview : Preview → Body
  certificate : CertificateRecord → Body
  revoked : (serial : String) (revoked_at : Time) (reason : String) → Body
  client_issued : (serial : String) (role : ClientRole) (pem : Bytes) → Body
  clients : List ClientResponse → Body
  audit_entries : List AuditEntry → Body
  account : Body
  order : (response : OrderRecord) (certificate_url : Option String) → Body
  authorization : (identifier : String) → Body
  pem_chain : Bytes → Body
  eab_token : (key_id hmac_key : String) (role : ClientRole) (expires_at : Time) → Body
  -- what a handler writes as it is, under a content type
  document : (content_type : String) → Bytes → Body
  tsa_rotated :
      (serial previous_serial profile : String) (not_before not_after : Time) (pem : Bytes) → Body
  profiles : List ProfileResponse → Body
  profiles_reloaded : List String → Body
  empty : Body

pub record Response : Type 0 where
  pub status : ℕ
  pub body : Body
  pub location : Option String
  pub replay_nonce : Option String

-- A handler returns its response; one that it writes before an early return is raised.
abbrev pub Handler : Type 0
Handler = Exec Response Response

abbrev pub json : ℕ → Body → Response
json status body = record { status = status; body = body; location = none; replay_nonce = none }

-- writeProblem, and the early return after it
abbrev pub write_problem : {A : Type 0} → ProblemType → Exec Response A
write_problem p = raise (json p.status (problem p))

abbrev pub write_internal_error : {A : Type 0} → Exec Response A
write_internal_error = write_problem internal_error
