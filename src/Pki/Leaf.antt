-- ===== src/Pki/Leaf.antt =====
-- internal/pki: pki.go, leaf.go and csr.go. Signing, parsing and hashing are the environment's.
use Prim.Native.Nat.{bit_and}
use trust_mate.Common.{
  ℕ, ◌+◌, ◌*◌, String, Bool, true, false, Option, none, some, List, [], ◌∷◌, ◌&&◌, ◌==◌, nat_eq,
  if◌then◌else◌,
}
use trust_mate.Store.Records.{Time, Bytes, Error, other}
use trust_mate.Profiles.Types.{Profile}
use trust_mate.Pki.Types.{
  PublicKey, Name, CertificateRequest, Extension, Template, Certificate, Issuer,
}
use trust_mate.Exec.{Result, ok, err, Exec, ◌>>=◌, pure, raise, lift, gets, random_bytes}

abbrev pub or_error : {A : Type 0} → Option A → Result Error A
or_error none = err other
or_error (some a) = ok a

-- the 20 bytes of rand.Read with the top bit cleared, as a big-endian number
clear_top_bit : List ℕ → List ℕ
clear_top_bit [] = []
clear_top_bit (b ∷ bs) = bit_and b 0x7f ∷ bs

set_bytes : ℕ → List ℕ → ℕ
set_bytes acc [] = acc
set_bytes acc (b ∷ bs) = set_bytes (acc * 256 + b) bs

abbrev serial_bytes : ℕ
serial_bytes = 20

unfoldable pub generate_serial : Exec Error ℕ
unfolding clear_top_bit set_bytes
generate_serial = do buf ← random_bytes serial_bytes; pure (set_bytes 0 (clear_top_bit buf))

pub record CertRequest : Type 0 where
  pub subject : Name
  pub public_key : PublicKey
  pub not_before : Time
  pub not_after : Time
  pub is_ca : Bool
  pub path_len_zero : Bool
  pub key_usage : ℕ
  pub ext_key_usage : List ℕ
  pub critical_ext_key_usage : Bool
  pub dns_names : List String
  pub aia_issuer_url : String
  pub ocsp_url : String
  pub crl_url : String

-- extKeyUsageOIDs
unfoldable pub ext_key_usage_oid : ℕ → Option (List ℕ)
ext_key_usage_oid n =
    let oid = λ (k : ℕ). 1 ∷ 3 ∷ 6 ∷ 1 ∷ 5 ∷ 5 ∷ 7 ∷ 3 ∷ k ∷ [] in
    if nat_eq n 1
    then some (oid 1)
    else if nat_eq n 2
    then some (oid 2)
    else if nat_eq n 3
    then some (oid 3)
    else if nat_eq n 4
    then some (oid 4)
    else if nat_eq n 8
    then some (oid 8)
    else if nat_eq n 9
    then some (oid 9)
    else none

-- the loop over req.ExtKeyUsage, which stops at the first usage with no OID
unfoldable pub oids_of : List ℕ → Option (List (List ℕ))
oids_of [] = some []
oids_of (n ∷ ns) = elim (ext_key_usage_oid n) [
  | none ↦ none
  | some oid ↦ (elim (oids_of ns) [ none ↦ none | some oids ↦ some (oid ∷ oids) ])
]

abbrev pub oid_ext_key_usage : List ℕ
oid_ext_key_usage = 2 ∷ 5 ∷ 29 ∷ 37 ∷ []

-- a URL that is "" omits its extension
abbrev pub optional_url : String → List String
optional_url url = if url == "" then [] else url ∷ []

-- what buildTemplate fills in besides the extended key usages
base_template : ℕ → CertRequest → Template
base_template serial req = record {
  serial_number = serial;
  subject = req.subject;
  not_before = req.not_before;
  not_after = req.not_after;
  key_usage = req.key_usage;
  ext_key_usage = [];
  extra_extensions = [];
  dns_names = req.dns_names;
  is_ca = req.is_ca;
  max_path_len_zero = req.is_ca && req.path_len_zero;
  issuing_certificate_url = optional_url req.aia_issuer_url;
  ocsp_server = optional_url req.ocsp_url;
  crl_distribution_points = optional_url req.crl_url;
  subject_key_id = "";
  authority_key_id = "";
}

critical_eku : List (List ℕ) → Extension
critical_eku oids = record { id = oid_ext_key_usage; critical = true; value = oids }

unfoldable pub build_template : CertRequest → Exec Error Template
unfolding base_template critical_eku
build_template req = do
  serial ← generate_serial
  if req.critical_ext_key_usage
      then (do
        oids ← lift (or_error (oids_of req.ext_key_usage))
        pure (record (base_template serial req) { extra_extensions = critical_eku oids ∷ [] }))
      else pure (record (base_template serial req) { ext_key_usage = req.ext_key_usage })

-- the CertRequest that LeafTemplate makes of a profile
unfoldable pub leaf_request : Profile → Name → PublicKey → Time → Time → List String → CertRequest
leaf_request profile subject pub_key not_before not_after dns_names = record {
  subject = subject;
  public_key = pub_key;
  not_before = not_before;
  not_after = not_after;
  is_ca = false;
  path_len_zero = false;
  key_usage = profile.key_usage;
  ext_key_usage = profile.ext_key_usage;
  critical_ext_key_usage = profile.critical_eku;
  dns_names = dns_names;
  aia_issuer_url = profile.aia_template;
  ocsp_url = if profile.enable_ocsp then profile.ocsp_template else "";
  crl_url = if profile.enable_crl then profile.cdp_template else "";
}

unfoldable pub leaf_template :
    Profile → Name → PublicKey → Time → Time → List String → Exec Error Template
leaf_template profile subject pub_key not_before not_after dns_names =
    build_template (leaf_request profile subject pub_key not_before not_after dns_names)

unfoldable pub subject_key_id : PublicKey → Exec Error Bytes
subject_key_id key = do
  lib ← gets (λ w. w.env.lib)
  der ← lift (or_error (lib.marshal_pkix_public_key key))
  bits ← lift (or_error (lib.public_key_bits der))
  pure (lib.sha1 bits)

unfoldable pub issue_leaf :
    Profile → Name → PublicKey → Issuer → Time → Time → List String → Exec Error Certificate
issue_leaf profile subject pub_key issuer not_before not_after dns_names = do
  tmpl ← leaf_template profile subject pub_key not_before not_after dns_names
  ski ← subject_key_id pub_key
  lib ← gets (λ w. w.env.lib)
  der ← lift (
      or_error (
        lib.create_certificate
          (record tmpl { subject_key_id = ski; authority_key_id = issuer.cert.subject_key_id })
          issuer pub_key))
  lift (or_error (lib.parse_certificate der))

-- ParseCSR: PEM or raw DER
unfoldable pub parse_csr : Bytes → Exec Error CertificateRequest
parse_csr input = do
  lib ← gets (λ w. w.env.lib)
  let der : Bytes = elim (lib.pem_decode input) [ none ↦ input | some block ↦ block ]
  csr ← lift (or_error (lib.parse_certificate_request der))
  if lib.check_signature der then pure csr else raise other
