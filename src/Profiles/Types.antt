-- ===== src/Profiles/Types.antt =====
-- internal/profiles/profiles.go. A validity is a number of nanoseconds; the key usages and extended
-- key usages are crypto/x509's numbers.
use Prim.Native.Nat.{bit_or}
use trust_mate.Common.{
  ℕ, ◌*◌, String, Bool, true, false, Option, List, [], ◌∷◌, ◌&&◌, if◌then◌else◌,
}
use Prim.Native.String
use trust_mate.Store.Table.{by_key}

pub data Algorithm : Type 0 where
  ecdsa_p256 rsa_2048 : Algorithm

pub record Profile : Type 0 where
  pub name : String
  pub version : ℕ
  pub key_algorithm : Algorithm
  pub key_usage : ℕ
  pub ext_key_usage : List ℕ
  pub critical_eku : Bool
  pub validity : ℕ
  pub enable_ocsp : Bool
  pub enable_crl : Bool
  pub aia_template : String
  pub cdp_template : String
  pub ocsp_template : String

-- profileConfig of internal/profiles/registry.go
pub record ProfileConfig : Type 0 where
  pub name : String
  pub key_algorithm : String
  pub key_usage : List String
  pub ext_key_usage : List String
  pub critical_eku : Bool
  pub validity : String
  pub enable_ocsp : Bool
  pub enable_crl : Bool

abbrev pub hour : ℕ
hour = 3600 * 1000000000

abbrev pub digital_signature : ℕ
digital_signature = 1

abbrev pub content_commitment : ℕ
content_commitment = 2

abbrev pub key_encipherment : ℕ
key_encipherment = 4

abbrev pub eku_server_auth : ℕ
eku_server_auth = 1

abbrev pub eku_client_auth : ℕ
eku_client_auth = 2

abbrev pub eku_time_stamping : ℕ
eku_time_stamping = 8

-- the zero value of Go, with a name, a usage and a validity
abbrev plain : String → ℕ → List ℕ → ℕ → Profile
plain name key_usage ext_key_usage validity = record {
  name = name;
  version = 1;
  key_algorithm = ecdsa_p256;
  key_usage = key_usage;
  ext_key_usage = ext_key_usage;
  critical_eku = false;
  validity = validity;
  enable_ocsp = false;
  enable_crl = false;
  aia_template = "";
  cdp_template = "";
  ocsp_template = "";
}

abbrev pub default : Profile
default = plain "default" digital_signature (eku_client_auth ∷ []) (365 * 24 * hour)

abbrev pub server_tls : Profile
server_tls =
    plain "server-tls" (bit_or digital_signature key_encipherment) (eku_server_auth ∷ [])
      (365 * 24 * hour)

abbrev pub document_signing : Profile
document_signing =
    record (plain "document-signing" (bit_or digital_signature content_commitment) []
      (2 * 365 * 24 * hour)) { enable_ocsp = true; enable_crl = true }

abbrev pub tsa : Profile
tsa = record (plain "tsa" digital_signature (eku_time_stamping ∷ []) 0) {
  critical_eku = true;
  enable_ocsp = true;
  enable_crl = true;
}

-- All()
abbrev pub built_in : List Profile
built_in = default ∷ server_tls ∷ document_signing ∷ tsa ∷ []

abbrev pub name_of : Profile → String
name_of p = p.name

-- Lookup: the first built-in profile of the name
unfoldable pub lookup_built_in : String → Option Profile
lookup_built_in name = by_key name_of name built_in

unfoldable pub with_issuer_urls : Profile → String → Bool → Profile
with_issuer_urls p base_url revocation_enabled = record p {
  aia_template = String.◌++◌ base_url "/v1/ca/intermediate.pem";
  cdp_template =
      if revocation_enabled && p.enable_crl
      then String.◌++◌ base_url "/v1/crl/intermediate.crl"
      else p.cdp_template;
  ocsp_template =
      if revocation_enabled && p.enable_ocsp
      then String.◌++◌ base_url "/v1/ocsp"
      else p.ocsp_template;
}
