-- ===== src/Keystore/Reloading.antt =====
-- Get after Generate.
use trust_mate.Common.{ℕ, ◌≡◌, String, false, some, [], arith}
use trust_mate.Store.Records.{Bytes}
use trust_mate.Store.Table.{by_key, first_where}
use trust_mate.Profiles.Types.{Algorithm}
use trust_mate.World.{World}
use trust_mate.Exec.{ok, ◌>>=◌, attempt, modify}
use trust_mate.Files.{path_of, read_file, disk}
use trust_mate.Keystore.Types.{KeyFile}
use trust_mate.Keystore.Files.{
  FileKeyStore, path, load, get, cached_or, open_key, remember, generate,
}
use trust_mate.Keystore.Generating.{IsSealed, made, failed, generate-Made}

-- A sealed file is opened to its key, where the library's decoders undo its encoders.
load-IsSealed :
    (f : FileKeyStore) (ref : String) (signer : ℕ) (c : Bytes) (v : World)
    → ((kf : KeyFile) (b : Bytes)
        → v.env.lib.marshal_key_file kf ≡ some b
        → v.env.lib.unmarshal_key_file b ≡ some kf)
    → ((key nonce plain : Bytes)
        → v.env.lib.unseal key nonce (v.env.lib.seal key nonce plain) ≡ some plain)
    → ((s : ℕ) (b : Bytes) → v.env.lib.marshal_pkcs8 s ≡ some b → v.env.lib.parse_pkcs8 b ≡ some s)
    → IsSealed v.env.lib f signer c
    → by_key path_of (path v.env.lib f ref) v.files
      ≡ some (record { path = path v.env.lib f ref; contents = c })
    → v.keys ≡ []
    → v.env.fault v.tick ≡ false
    → (get f ref v).0 ≡ ok signer
unfolding get cached_or load read_file disk open_key remember modify attempt first_where ◌>>=◌
load-IsSealed f ref signer c v json gcm pkcs8 s there fresh works = ground (
  arith,
  s.encrypted,
  s.plain,
  s.encoded,
  json s.key_file c,
  pkcs8 signer s.der,
  gcm (v.env.lib.argon2_key f.passphrase s.key_file.salt) s.key_file.nonce s.der,
)

-- Where JSON decoding undoes encoding, decryption undoes encryption and PKCS#8 parsing undoes marshalling,
-- a key that Generate returned is the one that Get returns for the same ref in any later world with those
-- files and with nothing in the map, as after a restart, unless the read fails.
pub get-generate :
    (f : FileKeyStore) (ref : String) (alg : Algorithm) (signer : ℕ) (w v : World)
    → ((kf : KeyFile) (b : Bytes)
        → w.env.lib.marshal_key_file kf ≡ some b
        → w.env.lib.unmarshal_key_file b ≡ some kf)
    → ((key nonce plain : Bytes)
        → w.env.lib.unseal key nonce (w.env.lib.seal key nonce plain) ≡ some plain)
    → ((s : ℕ) (b : Bytes) → w.env.lib.marshal_pkcs8 s ≡ some b → w.env.lib.parse_pkcs8 b ≡ some s)
    → (generate f ref alg w).0 ≡ ok signer
    → v.env.lib ≡ w.env.lib
    → v.files ≡ (generate f ref alg w).1.files
    → v.keys ≡ []
    → v.env.fault v.tick ≡ false
    → (get f ref v).0 ≡ ok signer
get-generate f ref alg signer w v json gcm pkcs8 h lib files fresh works =
    elim (generate-Made f ref alg w) [
      | failed e k same ↦ absurd (ground (arith, h, k))
      | made s c k held free there ↦
          (let sealed_key : IsSealed v.env.lib f s c = rw lib held in
            let found =
              load-IsSealed f ref s c v (rw lib json) (rw lib gcm) (rw lib pkcs8) sealed_key
                (rw (lib, files) there) fresh works in
            ground (arith, found, h, k))
    ]
