-- ===== src/Api/Growth/Public.antt =====
-- The CRL, OCSP and time-stamp routes of internal/api, and the relation `Extends`.
use trust_mate.Common.{String, ◌+◌, take, refl}
use trust_mate.Store.Records.{Octets, CertificateRecord}
use trust_mate.Store.Extends.{Extends-preorder}
use trust_mate.Store.Evolution.{Grows, store_grows}
use trust_mate.Pki.Types.{Issuer}
use trust_mate.Pki.Reads.{issue_leaf-Evolves}
use trust_mate.Keystore.Store.{KeyStore}
use trust_mate.Keystore.FreshRefs.{fresh_ref-same}
use trust_mate.Revocation.Crl.{Authority}
use trust_mate.Revocation.Ocsp.{OcspError, malformed_request, failed}
use trust_mate.Revocation.Reading.{crl-same, respond-same}
use trust_mate.Tsa.Responder.{TsaError, rotate, current_issuer, respond}
use trust_mate.Tsa.Responder
use trust_mate.Tsa.Identity.{IdentityParams, issue_identity}
use trust_mate.Tsa.Reading
use trust_mate.Exec.Evolves.{
  Evolves-attempt, Evolves-bind, Evolves-gets, Evolves-if, Evolves-modify, Evolves-option,
  Evolves-pure, Evolves-raise, Evolves-same,
}
use trust_mate.Api.Http.{ProblemType}
use trust_mate.Api.Deps.{Deps}
use trust_mate.Api.Growth.{issuing_grows, count-Grows}
use trust_mate.Api.Revocation.{
  BinaryRequest, requested_ca, serve_crl, handle_crl, ocsp_refuse, ocsp_error, ocsp_answer,
  handle_ocsp, max_ocsp_request_bytes,
}
use trust_mate.Api.Tsa.{
  tsa_refuse, tsa_error, tsa_answer, handle_tsa, switch_identity, handle_rotate_tsa,
  max_tsa_request_bytes,
}

serve_crl-Grows : (deps : Deps) (ca : Authority) → Grows (serve_crl deps ca)
unfolding serve_crl
serve_crl-Grows deps ca =
    Evolves-bind _ _ (Evolves-attempt _ _ (Evolves-same _ (crl-same _)) (λ _. Evolves-raise _))
      (λ _. Evolves-pure _)

pub handle_crl-Grows : (deps : Deps) (name : String) → Grows (handle_crl deps name)
unfolding handle_crl
handle_crl-Grows deps name =
    Evolves-option (requested_ca name) _ _ (Evolves-raise _) (serve_crl-Grows deps)

ocsp_refuse-Grows :
    {A : Type 0} (deps : Deps) (label : String) (p : ProblemType)
    → Grows (ocsp_refuse {A = A} deps label p)
unfolding ocsp_refuse
ocsp_refuse-Grows deps label p = Evolves-bind _ _ (count-Grows _ _) (λ _. Evolves-raise _)

ocsp_error-Grows : {A : Type 0} (deps : Deps) (e : OcspError) → Grows (ocsp_error {A = A} deps e)
unfolding ocsp_error
ocsp_error-Grows deps malformed_request = ocsp_refuse-Grows deps _ _
ocsp_error-Grows deps failed = ocsp_refuse-Grows deps _ _

ocsp_answer-Grows : (deps : Deps) (body : Octets) → Grows (ocsp_answer deps body)
unfolding ocsp_answer
ocsp_answer-Grows deps body =
    Evolves-bind _ _
      (Evolves-attempt _ _ (Evolves-same _ (respond-same _ body)) (ocsp_error-Grows deps))
      (λ _. Evolves-bind _ _ (count-Grows _ _) (λ _. Evolves-pure _))

pub handle_ocsp-Grows : (deps : Deps) (r : BinaryRequest) → Grows (handle_ocsp deps r)
unfolding handle_ocsp
handle_ocsp-Grows deps r = Evolves-if _ _ _ (ocsp_refuse-Grows deps _ _) (
    Evolves-option r.body _ _ (ocsp_refuse-Grows deps _ _) (λ sent.
      Evolves-if _ _ _ (ocsp_refuse-Grows deps _ _)
        (ocsp_answer-Grows deps (take (max_ocsp_request_bytes + 1) sent))))

tsa_refuse-Grows :
    {A : Type 0} (deps : Deps) (label : String) (p : ProblemType)
    → Grows (tsa_refuse {A = A} deps label p)
unfolding tsa_refuse
tsa_refuse-Grows deps label p = Evolves-bind _ _ (count-Grows _ _) (λ _. Evolves-raise _)

tsa_error-Grows : {A : Type 0} (deps : Deps) (e : TsaError) → Grows (tsa_error {A = A} deps e)
unfolding tsa_error
tsa_error-Grows deps Responder.malformed_request = tsa_refuse-Grows deps _ _
tsa_error-Grows deps Responder.unsupported_request = tsa_refuse-Grows deps _ _
tsa_error-Grows deps Responder.failed = tsa_refuse-Grows deps _ _

tsa_answer-Grows : (deps : Deps) (body : Octets) → Grows (tsa_answer deps body)
unfolding tsa_answer
tsa_answer-Grows deps body =
    Evolves-bind _ _
      (Evolves-attempt _ _ (Evolves-same _ (Reading.respond-same _ body)) (tsa_error-Grows deps))
      (λ _. Evolves-bind _ _ (count-Grows _ _) (λ _. Evolves-pure _))

pub handle_tsa-Grows : (deps : Deps) (r : BinaryRequest) → Grows (handle_tsa deps r)
unfolding handle_tsa
handle_tsa-Grows deps r = Evolves-if _ _ _ (tsa_refuse-Grows deps _ _) (
    Evolves-option r.body _ _ (tsa_refuse-Grows deps _ _) (λ sent.
      Evolves-if _ _ _ (tsa_refuse-Grows deps _ _)
        (tsa_answer-Grows deps (take (max_tsa_request_bytes + 1) sent))))

pub issue_identity-Grows :
    (ref : String) (params : IdentityParams) (ks : KeyStore) (inter : Issuer)
    → Grows (issue_identity ref params ks inter)
unfolding issue_identity
issue_identity-Grows ref params ks inter =
    Evolves-bind _ _ (Evolves-same _ (ks.generate_same _ _))
      (λ signer. search (store_grows, issue_leaf-Evolves) depth 14)

rotate-Grows : {E : Type 0} (issuer : Issuer) → Grows (rotate {E = E} issuer)
unfolding rotate
rotate-Grows issuer = Evolves-modify _ (λ w. refl)

switch_identity-Grows :
    (deps : Deps) (previous issuer : Issuer) (rec : CertificateRecord) (remote_addr : String)
    → Grows (switch_identity deps previous issuer rec remote_addr)
unfolding switch_identity
switch_identity-Grows deps previous issuer rec remote_addr =
    search (issuing_grows, rotate-Grows) depth 14

pub handle_rotate_tsa-Grows :
    (deps : Deps) (remote_addr : String) → Grows (handle_rotate_tsa deps remote_addr)
unfolding handle_rotate_tsa current_issuer
handle_rotate_tsa-Grows deps remote_addr = Evolves-bind _ _ (Evolves-gets _) (λ previous.
    Evolves-bind _ _
      (Evolves-attempt _ _ (Evolves-same _ (fresh_ref-same _ _)) (λ _. Evolves-raise _))
      (λ ref.
        Evolves-bind _ _ (Evolves-attempt _ _ (issue_identity-Grows _ _ _ _) (λ _. Evolves-raise _))
          (λ (issuer, rec). switch_identity-Grows deps previous issuer rec remote_addr)))
