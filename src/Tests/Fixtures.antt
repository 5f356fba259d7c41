-- ===== src/Tests/Fixtures.antt =====
-- A small datastore, an environment whose library functions return fixed values, and its clock.
use Prim.Native.String
use trust_mate.Common.{
  refl, Bool, ◌&&◌, ◌==◌, if◌then◌else◌, nat_eq, ℕ, ◌+◌, ◌*◌, String, true, false, none, some, [],
  ◌∷◌,
}
use trust_mate.Store.Records.{
  CertificateRecord, CertKind, root, intermediate, leaf, ClientRoleRecord, manager, EabTokenRecord,
  AccountRecord, OrderRecord, ready, NonceRow, ProfileRecord, Db, empty_db, other,
}
use trust_mate.Acme.Types.{Jws}
use trust_mate.Pki.Types.{
  unsupported, Name, CertificateRequest, Certificate, Issuer, OcspRequest, TimestampRequest,
}
use trust_mate.Pki.Library.{Library}
use trust_mate.World.{Env, World}
use trust_mate.Keystore.Files.{FileKeyStore}
use trust_mate.Keystore.Store.{KeyStore}
use trust_mate.Keystore.Types.{KeyFile}
use trust_mate.Profiles.Types.{Algorithm, ecdsa_p256, rsa_2048}
use trust_mate.Exec.{ok, err}
use trust_mate.Api.Deps.{Deps}

abbrev pub start : ℕ
start = 1700000000 * 1000000000

abbrev pub name : Name
name = record { common_name = "device-1"; text = "CN=device-1" }

abbrev pub request : CertificateRequest
request = record {
  subject = name;
  public_key = unsupported;
  public_key_algorithm = "ECDSA";
  dns_names = [];
}

abbrev pub certificate : Certificate
certificate = record {
  serial = "42";
  subject = name;
  not_before = start;
  not_after = start + 1000000000;
  raw = "der";
  raw_subject = "subject";
  raw_public_key_info = "spki";
  subject_key_id = "ski";
}

abbrev pub ocsp_request : OcspRequest
ocsp_request = record {
  hash = 5;
  issuer_name_hash = "subject";
  issuer_key_hash = "spki";
  serial = "5";
}

abbrev pub timestamp_request : TimestampRequest
timestamp_request = record {
  hash = 5;
  hashed_message = "digest";
  nonce = some 1;
  certificates = true;
}

-- the key file that is written for the first key
abbrev pub key_file : KeyFile
key_file = record {
  version = 1;
  key_algorithm = ecdsa_p256;
  kdf = "argon2id";
  salt = "random";
  nonce = "random";
  ciphertext = "pkcs8";
  created_at = start + 4;
}

abbrev pub is_ecdsa : Algorithm → Bool
is_ecdsa ecdsa_p256 = true
is_ecdsa rsa_2048 = false

abbrev pub is_key_file : KeyFile → Bool
is_key_file f =
    nat_eq f.version 1
    && (is_ecdsa f.key_algorithm
        && (f.kdf == "argon2id"
            && (f.salt == "random"
                && (f.nonce == "random"
                    && (f.ciphertext == "pkcs8" && nat_eq f.created_at (start + 4))))))

abbrev pub library : Library
library = record {
  marshal_pkix_public_key = λ k. some "spki";
  public_key_bits = λ b. some "bits";
  sha1 = λ b. "digest";
  name_string = λ s. String.◌++◌ "CN=" s;
  create_certificate = λ t i k. some "der";
  create_self_signed = λ t s k. some "root";
  parse_certificate = λ b. some certificate;
  pem_decode = λ b. none;
  parse_certificate_request = λ b. some request;
  check_signature = λ b. true;
  encode_cert_pem = λ b. "pem";
  encode_key_pem = λ b. "key";
  base64url_encode = λ b. "text";
  base64url_decode = λ s. some (1 ∷ []);
  unmarshal_envelope = λ b. none;
  unmarshal_header = λ b. none;
  unmarshal_kty = λ b. none;
  unmarshal_ec = λ b. none;
  unmarshal_rsa = λ b. none;
  marshal_ec = λ k. [];
  marshal_rsa = λ k. [];
  unmarshal_new_account = λ b. none;
  unmarshal_new_order = λ b. none;
  unmarshal_finalize = λ b. some (record { csr = "csr" });
  marshal_profile = λ p. some (if nat_eq p.version 1 then "first" else "later");
  parse_decimal = λ s. some 42;
  create_revocation_list = λ t i. some "crl";
  parse_ocsp_request = λ b. some ocsp_request;
  create_ocsp_response = λ t i. some "ocsp";
  ocsp_unauthorized = "unauthorized";
  hash = λ n. some (λ b. b);
  aligned_key_bits = λ b. some b;
  parse_timestamp_request = λ b. some timestamp_request;
  create_timestamp_response = λ t i. some "token";
  public_of = λ s. unsupported;
  marshal_pkcs8 = λ s. if nat_eq s 9 then some "pkcs8" else none;
  parse_pkcs8 = λ b. some 9;
  argon2_key = λ p s. "key";
  seal = λ k n p. p;
  unseal = λ k n c. some c;
  marshal_key_file = λ f. if is_key_file f then some "file" else none;
  unmarshal_key_file = λ b. some key_file;
  join = λ d n. String.◌++◌ d (String.◌++◌ "/" n);
  glob = λ p paths. some paths;
  unmarshal_profile_config = λ b. none;
  parse_duration = λ s. some 3600;
  is_on_curve = λ x y. true;
  ecdsa_verify = λ x y d r s. true;
  rsa_verify = λ n e d s. true;
  sha256 = λ b. b;
  hmac_sha256 = λ k m. m;
  octets = λ s. [];
  text = λ b. "text";
}

abbrev pub ledger_row : String → CertificateRecord
ledger_row serial = record {
  serial = serial;
  kind = leaf;
  profile_name = "default";
  subject = "CN=client";
  issuer_serial = "";
  not_before = start;
  not_after = start + 1000000000;
  pem = "pem";
  key_ref = "";
  created_at = start;
  revoked_at = none;
  revocation_reason = "";
}

abbrev pub revoked_row : CertificateRecord
revoked_row = record (ledger_row "7") {
  revoked_at = some start;
  revocation_reason = "keyCompromise";
}

abbrev pub role_of : String → ClientRoleRecord
role_of serial = record { cert_serial = serial; role = manager; created_at = start }

abbrev pub token : EabTokenRecord
token = record {
  key_id = "key";
  hmac_key = 1 ∷ 2 ∷ [];
  role = manager;
  created_at = start;
  expires_at = start + 60 * 1000000000;
  consumed = false;
}

abbrev pub account : AccountRecord
account = record {
  id = "account";
  jwk_thumbprint = "print";
  public_key_jwk = 1 ∷ [];
  role = manager;
  eab_key_id = "key";
  created_at = start;
}

abbrev pub order : OrderRecord
order = record {
  id = "order";
  account_id = "account";
  identifier = "device-1";
  status = ready;
  cert_serial = "";
  created_at = start;
}

abbrev pub nonce : NonceRow
nonce = record { nonce = "nonce"; expires_at = start + 60 * 1000000000 }

-- a client "5" in good standing, a revoked client "7", and one row of each other kind
abbrev pub db : Db
db = record empty_db {
  certificates = ledger_row "5" ∷ revoked_row ∷ [];
  client_roles = role_of "5" ∷ role_of "7" ∷ [];
  eab_tokens = token ∷ [];
  accounts = account ∷ [];
  orders = order ∷ [];
  nonces = nonce ∷ [];
}

abbrev pub env : Env
env = record {
  lib = library;
  fault = λ n. false;
  clock = λ n. start + n;
  random = λ n size. some "random";
  random_bytes = λ n size. some (1 ∷ []);
  new_key = λ n a. some 9;
  torn = λ n. none;
}

abbrev pub issuer : Issuer
issuer = record { cert = record certificate { serial = "" }; signer = 0 }

abbrev pub world_of : Db → World
world_of tables = record {
  env = env;
  tick = 0;
  db = tables;
  registry = none;
  metrics = [];
  crl = record { cached = some "old"; expires = start };
  root_crl = record { cached = none; expires = 0 };
  tsa = record { issuer = issuer; last_gen_time = 0 };
  files = [];
  keys = [];
}

abbrev pub world : World
world = world_of db

-- a keystore that never fails
abbrev pub memory_keys : KeyStore
memory_keys = record {
  exists = λ ref w. (ok false, w);
  generate = λ ref alg w. (ok 9, w);
  get = λ ref w. (ok 9, w);
  exists_same = λ ref. record { at = λ w. refl };
  generate_same = λ ref alg. record { at = λ w. refl };
  get_same = λ ref. record { at = λ w. refl };
}

-- one that makes the root key only
abbrev pub root_keys : KeyStore
root_keys = record memory_keys {
  generate = λ ref alg w. ((if ref == "root" then ok 9 else err other), w);
  generate_same = λ ref alg. record { at = λ w. refl };
}

abbrev pub key_dir : FileKeyStore
key_dir = record { dir = "keys"; passphrase = "secret" }

abbrev pub deps : Deps
deps = record {
  intermediate_issuer = issuer;
  public_base_url = "https://ca";
  enable_revocation = true;
  enable_tsa = true;
  enable_acme = true;
  metrics = true;
  crl_builder = true;
  root_issuer = issuer;
  key_store = memory_keys;
  tsa_common_name = "tsa";
  tsa_validity = start;
}

abbrev pub jws : Jws
jws = record {
  header = record { alg = "ES256"; nonce = "nonce"; url = "url"; kid = "kid"; jwk = [] };
  payload = [];
  signing_input = [];
  signature = [];
}

abbrev pub stored_profile : ProfileRecord
stored_profile = record { name = "default"; version = 2; contents = "later"; created_at = start }

-- the world with the second version of a profile
abbrev pub versioned_world : World
versioned_world = world_of (record db { profiles = stored_profile ∷ [] })

-- a library that decodes what it encodes and gives every certificate a serial of its own
abbrev pub boot_library : Library
boot_library = record library {
  create_certificate = λ t i k. some t.subject.text;
  create_self_signed = λ t s k. some t.subject.text;
  parse_certificate = λ b. some (record certificate { serial = b; raw = b });
  encode_cert_pem = λ b. b;
  pem_decode = λ b. some b;
}

abbrev pub boot_world : World
boot_world = record (world_of empty_db) { env = record env { lib = boot_library } }

-- the ledger of a service with its two CAs and one leaf
abbrev pub ca_row : CertKind → String → CertificateRecord
ca_row kind serial = record (ledger_row serial) { kind = kind; profile_name = ""; pem = serial }

abbrev pub ca_world : World
ca_world = record boot_world {
  db = record empty_db {
    certificates = ca_row root "1" ∷ ca_row intermediate "2" ∷ ledger_row "5" ∷ [];
  };
}
