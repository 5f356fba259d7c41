-- ===== src/Keystore/Types.antt =====
-- keyFile of internal/keystore/filekeystore.go
use trust_mate.Common.{ℕ, String}
use trust_mate.Store.Records.{Time, Bytes}
use trust_mate.Profiles.Types.{Algorithm}

pub record KeyFile : Type 0 where
  pub version : ℕ
  pub key_algorithm : Algorithm
  pub kdf : String
  pub salt : Bytes
  pub nonce : Bytes
  pub ciphertext : Bytes
  pub created_at : Time
