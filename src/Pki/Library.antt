-- ===== src/Pki/Library.antt =====
-- The functions of Go's crypto packages that the program calls, as parameters.
use trust_mate.Common.{ℕ, String, Bool, Option, List}
use trust_mate.Store.Records.{Bytes, Octets}
use trust_mate.Acme.Types.{
  Envelope, Header, JwkEc, JwkRsa, NewAccountPayload, NewOrderPayload, FinalizePayload,
}
use trust_mate.Profiles.Types.{Profile, ProfileConfig}
use trust_mate.Keystore.Types.{KeyFile}
use trust_mate.Pki.Types.{
  PublicKey, CertificateRequest, Template, Certificate, Issuer, RevocationList, OcspRequest,
  OcspResponse, TimestampRequest, Timestamp,
}

pub record Library : Type 0 where
  -- x509.MarshalPKIXPublicKey, the bit string inside it, and sha1.Sum
  pub marshal_pkix_public_key : PublicKey → Option Bytes
  pub public_key_bits : Bytes → Option Bytes
  pub sha1 : Bytes → Bytes
  -- String() of a pkix.Name that has a common name only
  pub name_string : String → String
  -- x509.CreateCertificate with the issuer's certificate and signer, and x509.ParseCertificate
  pub create_certificate : Template → Issuer → PublicKey → Option Bytes
  -- x509.CreateCertificate with the template as its own parent
  pub create_self_signed : Template → (signer : ℕ) → PublicKey → Option Bytes
  pub parse_certificate : Bytes → Option Certificate
  -- pem.Decode, x509.ParseCertificateRequest and CheckSignature
  pub pem_decode : Bytes → Option Bytes
  pub parse_certificate_request : Bytes → Option CertificateRequest
  pub check_signature : Bytes → Bool
  -- pem.EncodeToMemory of a CERTIFICATE block
  pub encode_cert_pem : Bytes → Bytes
  -- and of a PRIVATE KEY block
  pub encode_key_pem : Bytes → Bytes
  -- base64.RawURLEncoding
  pub base64url_encode : Octets → String
  pub base64url_decode : String → Option Octets
  -- json.Unmarshal into the program's types, and json.Marshal of a JWK
  pub unmarshal_envelope : Octets → Option Envelope
  pub unmarshal_header : Octets → Option Header
  pub unmarshal_kty : Octets → Option String
  pub unmarshal_ec : Octets → Option JwkEc
  pub unmarshal_rsa : Octets → Option JwkRsa
  pub marshal_ec : JwkEc → Octets
  pub marshal_rsa : JwkRsa → Octets
  pub unmarshal_new_account : Octets → Option NewAccountPayload
  pub unmarshal_new_order : Octets → Option NewOrderPayload
  pub unmarshal_finalize : Octets → Option FinalizePayload
  -- big.Int.SetString in base 10, and x509.CreateRevocationList
  pub parse_decimal : String → Option ℕ
  pub create_revocation_list : RevocationList → Issuer → Option Bytes
  -- ocsp.ParseRequest, ocsp.CreateResponse, ocsp.UnauthorizedErrorResponse, the crypto.Hash of a number
  -- where it is available, and the right-aligned key bits of a SubjectPublicKeyInfo
  pub parse_ocsp_request : Octets → Option OcspRequest
  pub create_ocsp_response : OcspResponse → Issuer → Option Bytes
  pub ocsp_unauthorized : Bytes
  pub hash : ℕ → Option (Bytes → Bytes)
  pub aligned_key_bits : Bytes → Option Bytes
  -- timestamp.ParseRequest and Timestamp.CreateResponseWithOpts
  pub parse_timestamp_request : Octets → Option TimestampRequest
  pub create_timestamp_response : Timestamp → Issuer → Option Bytes
  -- Public() of a signer, x509.MarshalPKCS8PrivateKey and x509.ParsePKCS8PrivateKey
  pub public_of : ℕ → PublicKey
  pub marshal_pkcs8 : ℕ → Option Bytes
  pub parse_pkcs8 : Bytes → Option ℕ
  -- argon2.IDKey of the passphrase and the salt, and AES-GCM under a key with a nonce
  pub argon2_key : (passphrase salt : Bytes) → Bytes
  pub seal : (key nonce plaintext : Bytes) → Bytes
  pub unseal : (key nonce ciphertext : Bytes) → Option Bytes
  -- json.MarshalIndent and json.Unmarshal of a key file
  pub marshal_key_file : KeyFile → Option Bytes
  pub unmarshal_key_file : Bytes → Option KeyFile
  -- filepath.Join, and filepath.Glob on the paths of the files
  pub join : String → String → String
  pub glob : (pattern : String) (paths : List String) → Option (List String)
  -- yaml.Unmarshal of a profile file, and time.ParseDuration
  pub unmarshal_profile_config : Bytes → Option ProfileConfig
  pub parse_duration : String → Option ℕ
  -- json.Marshal of a profile
  pub marshal_profile : Profile → Option Bytes
  -- P256().IsOnCurve, ecdsa.Verify, rsa.VerifyPKCS1v15, sha256.Sum256 and HMAC-SHA-256
  pub is_on_curve : ℕ → ℕ → Bool
  pub ecdsa_verify : (x y : ℕ) (digest : Octets) (r s : ℕ) → Bool
  pub rsa_verify : (n e : ℕ) (digest signature : Octets) → Bool
  pub sha256 : Octets → Octets
  pub hmac_sha256 : (key message : Octets) → Octets
  -- the bytes of a text, and the text of bytes
  pub octets : String → Octets
  pub text : Octets → Bytes
