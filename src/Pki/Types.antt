-- ===== src/Pki/Types.antt =====
-- What internal/pki takes from crypto/x509: keys, names, requests, templates and certificates, with the
-- fields that the program reads or sets.
use trust_mate.Common.{ℕ, String, Bool, Option, List}
use trust_mate.Store.Records.{Time, Bytes}

-- the dynamic types of crypto.PublicKey that the program tells apart
pub data PublicKey : Type 0 where
  ecdsa : (p256 : Bool) (x y : ℕ) → PublicKey
  rsa : (n e : ℕ) → PublicKey
  unsupported : PublicKey

-- pkix.Name; `text` is its String()
pub record Name : Type 0 where
  pub common_name : String
  pub text : String

pub record CertificateRequest : Type 0 where
  pub subject : Name
  pub public_key : PublicKey
  pub public_key_algorithm : String
  pub dns_names : List String

pub record Extension : Type 0 where
  pub id : List ℕ
  pub critical : Bool
  pub value : List (List ℕ)

-- the x509.Certificate that CreateCertificate takes
pub record Template : Type 0 where
  pub serial_number : ℕ
  pub subject : Name
  pub not_before : Time
  pub not_after : Time
  pub key_usage : ℕ
  pub ext_key_usage : List ℕ
  pub extra_extensions : List Extension
  pub dns_names : List String
  pub is_ca : Bool
  pub max_path_len_zero : Bool
  pub issuing_certificate_url : List String
  pub ocsp_server : List String
  pub crl_distribution_points : List String
  pub subject_key_id : Bytes
  pub authority_key_id : Bytes

-- the x509.Certificate that ParseCertificate gives; `serial` is SerialNumber.String()
pub record Certificate : Type 0 where
  pub serial : String
  pub subject : Name
  pub not_before : Time
  pub not_after : Time
  pub raw : Bytes
  pub raw_subject : Bytes
  pub raw_public_key_info : Bytes
  pub subject_key_id : Bytes

-- a certificate with its private key, which is a handle of the keystore
pub record Issuer : Type 0 where
  pub cert : Certificate
  pub signer : ℕ

-- the x509.RevocationList that CreateRevocationList takes
pub record RevokedEntry : Type 0 where
  pub serial : ℕ
  pub revocation_time : Time
  pub reason_code : ℕ

pub record RevocationList : Type 0 where
  pub number : ℕ
  pub this_update : Time
  pub next_update : Time
  pub entries : List RevokedEntry

-- golang.org/x/crypto/ocsp: a request, the statuses, and the response that CreateResponse takes.
-- `serial` is SerialNumber.String(), `hash` the number of a crypto.Hash.
pub record OcspRequest : Type 0 where
  pub hash : ℕ
  pub issuer_name_hash : Bytes
  pub issuer_key_hash : Bytes
  pub serial : String

pub data OcspStatus : Type 0 where
  good revoked unknown : OcspStatus

pub record OcspResponse : Type 0 where
  pub status : OcspStatus
  pub serial : String
  pub this_update : Time
  pub next_update : Time
  pub revoked_at : Option Time

-- github.com/digitorus/timestamp: a request, and the token that CreateResponseWithOpts takes
pub record TimestampRequest : Type 0 where
  pub hash : ℕ
  pub hashed_message : Bytes
  pub nonce : Option ℕ
  pub certificates : Bool

pub record Timestamp : Type 0 where
  pub hash : ℕ
  pub hashed_message : Bytes
  pub time : Time
  pub policy : List ℕ
  pub nonce : Option ℕ
  pub add_tsa_certificate : Bool
  pub certificates : List Certificate
