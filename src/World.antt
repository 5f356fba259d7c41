-- ===== src/World.antt =====
-- What the handlers share: the datastore, the in-memory caches, the counters, and the environment.
-- The environment is code and devices outside the program. It is a parameter, read at a position
-- that every reading moves on: whether the datastore or the file system fails, the clock, and the random source.
use trust_mate.Common.{ℕ, String, Bool, Option, List}
use trust_mate.Store.Records.{Time, Bytes, Db}
use trust_mate.Profiles.Types.{Profile, Algorithm}
use trust_mate.Pki.Types.{Issuer}
use trust_mate.Pki.Library.{Library}

pub record Env : Type 0 where
  -- the library functions that the program calls
  pub lib : Library
  -- whether the statement or the file operation at this position fails
  pub fault : ℕ → Bool
  pub clock : ℕ → Time
  -- the bytes that rand.Read puts into a buffer of the given length, as a text
  pub random : ℕ → ℕ → Option String
  pub random_bytes : ℕ → ℕ → Option (List ℕ)
  -- the key that ecdsa.GenerateKey or rsa.GenerateKey makes
  pub new_key : ℕ → Algorithm → Option ℕ
  -- what a failed os.WriteFile leaves in its file, if anything
  pub torn : ℕ → Option Bytes

-- a file with its path
pub record FileRow : Type 0 where
  pub path : String
  pub contents : Bytes

-- profiles.Registry, its map as the list of its values in the order of insertion
pub record Registry : Type 0 where
  pub dir : String
  pub profiles : List Profile
  pub builtins : List String

-- the state of a revocation.CRLBuilder
pub record CrlCache : Type 0 where
  pub cached : Option Bytes
  pub expires : Time

-- the state of a tsa.Responder
pub record TsaState : Type 0 where
  pub issuer : Issuer
  pub last_gen_time : Time

-- an entry of FileKeyStore.cached
pub record LoadedKey : Type 0 where
  pub ref : String
  pub signer : ℕ

-- an increment of a counter of internal/observability, with its label
pub data Sample : Type 0 where
  certificates_issued : String → Sample
  certificates_revoked : Sample
  acme_accounts : Sample
  acme_orders : String → Sample
  ocsp_requests : String → Sample
  tsa_requests : String → Sample

pub record World : Type 0 where
  pub env : Env
  pub tick : ℕ
  pub db : Db
  -- deps.Profiles: nil, or a Registry
  pub registry : Option Registry
  pub metrics : List Sample
  -- the CRLBuilder of the intermediate CA and that of the root CA
  pub crl : CrlCache
  pub root_crl : CrlCache
  pub tsa : TsaState
  -- the file system, and the FileKeyStore's map of loaded keys
  pub files : List FileRow
  pub keys : List LoadedKey
