-- ===== src/Store/Records.antt =====
-- The records of internal/store/store.go, the sentinel errors, and the tables of
-- internal/store/sqlite/migrations as lists of rows in rowid order.
-- A time is a number of nanoseconds since the epoch. Byte strings that the program only stores,
-- compares and hands on (PEM blocks, keys, profile snapshots) are texts.
use trust_mate.Common.{ℕ, String, Option, [], List, Bool}

abbrev pub Time : Type 0
Time = ℕ

abbrev pub Bytes : Type 0
Bytes = String

-- byte slices that the program takes apart or compares
abbrev pub Octets : Type 0
Octets = List ℕ

pub data CertKind : Type 0 where
  root intermediate leaf : CertKind

pub record CertificateRecord : Type 0 where
  pub serial : String
  pub kind : CertKind
  pub profile_name : String
  pub subject : String
  pub issuer_serial : String
  pub not_before : Time
  pub not_after : Time
  pub pem : Bytes
  pub key_ref : String
  pub created_at : Time
  pub revoked_at : Option Time
  pub revocation_reason : String

pub record ProfileRecord : Type 0 where
  pub name : String
  pub version : ℕ
  pub contents : Bytes
  pub created_at : Time

pub record AuditEntry : Type 0 where
  pub id : ℕ
  pub timestamp : Time
  pub actor : String
  pub action : String
  pub target : String
  pub detail : String

pub data ClientRole : Type 0 where
  admin manager : ClientRole

pub record ClientRoleRecord : Type 0 where
  pub cert_serial : String
  pub role : ClientRole
  pub created_at : Time

pub record EabTokenRecord : Type 0 where
  pub key_id : String
  pub hmac_key : Octets
  pub role : ClientRole
  pub created_at : Time
  pub expires_at : Time
  pub consumed : Bool

pub record AccountRecord : Type 0 where
  pub id : String
  pub jwk_thumbprint : String
  pub public_key_jwk : Octets
  pub role : ClientRole
  pub eab_key_id : String
  pub created_at : Time

pub data OrderStatus : Type 0 where
  ready processing valid : OrderStatus

pub record OrderRecord : Type 0 where
  pub id : String
  pub account_id : String
  pub identifier : String
  pub status : OrderStatus
  pub cert_serial : String
  pub created_at : Time

pub record NonceRow : Type 0 where
  pub nonce : String
  pub expires_at : Time

-- ErrNotFound, ErrAlreadyRevoked, ErrAlreadyConsumed, ErrAlreadyExists, and any other error, which
-- the callers only report. Wrapping by `%w` keeps the class.
pub data Error : Type 0 where
  not_found already_revoked already_consumed already_exists other : Error

pub record Db : Type 0 where
  pub certificates : List CertificateRecord
  pub profiles : List ProfileRecord
  pub audit_log : List AuditEntry
  pub client_roles : List ClientRoleRecord
  pub eab_tokens : List EabTokenRecord
  pub accounts : List AccountRecord
  pub orders : List OrderRecord
  pub nonces : List NonceRow

abbrev pub empty_db : Db
empty_db = record {
  certificates = [];
  profiles = [];
  audit_log = [];
  client_roles = [];
  eab_tokens = [];
  accounts = [];
  orders = [];
  nonces = [];
}
