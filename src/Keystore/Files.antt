-- ===== src/Keystore/Files.antt =====
-- FileKeyStore of internal/keystore/filekeystore.go
use Prim.Native.String
use trust_mate.Common.{ℕ, ◌+◌, String, Bool, Option, none, some, ◌∷◌, if◌then◌else◌}
use trust_mate.Store.Records.{Time, Bytes, Error, other}
use trust_mate.Store.Table.{by_key}
use trust_mate.Profiles.Types.{Algorithm}
use trust_mate.World.{LoadedKey}
use trust_mate.Exec.{
  ok, err, Exec, ◌>>=◌, ◌>>◌, pure, raise, lift, gets, attempt, modify, now, random_text,
}
use trust_mate.Files.{read_file, write_file, rename_file, file_exists}
use trust_mate.Pki.Library.{Library}
use trust_mate.Pki.Leaf.{or_error}
use trust_mate.Keystore.Types.{KeyFile}

-- the fields that NewFileKeyStore sets
pub record FileKeyStore : Type 0 where
  pub dir : String
  pub passphrase : Bytes

unfoldable pub path : Library → FileKeyStore → String → String
path lib f ref = lib.join f.dir (String.◌++◌ ref ".json")

unfoldable pub exists : FileKeyStore → String → Exec Error Bool
exists f ref = do lib ← gets (λ w. w.env.lib); file_exists (path lib f ref)

abbrev pub ref_of : LoadedKey → String
ref_of k = k.ref

-- f.cached[ref] = signer
unfoldable pub remember : {E : Type 0} → String → ℕ → Exec E (Unit {0})
remember ref signer =
    modify (λ w. record w { keys = record { ref = ref; signer = signer } ∷ w.keys })

-- ecdsa.GenerateKey or rsa.GenerateKey with rand.Reader
unfoldable pub new_key : Algorithm → Exec Error ℕ
new_key alg w = (
  (elim (w.env.new_key w.tick alg) [ none ↦ err other | some k ↦ ok k ]),
  record w { tick = w.tick + 1 },
)

-- generateKey: the signer and its PKCS#8 encoding
unfoldable pub generate_key : Algorithm → Exec Error (ℕ × Bytes)
generate_key alg = do
  signer ← new_key alg
  lib ← gets (λ w. w.env.lib)
  der ← lift (or_error (lib.marshal_pkcs8 signer))
  pure (signer, der)

abbrev pub tmp_of : String → String
tmp_of p = String.◌++◌ p ".tmp"

unfoldable pub write_key_file_atomic : String → KeyFile → Exec Error (Unit {0})
write_key_file_atomic p kf = do
  lib ← gets (λ w. w.env.lib)
  contents ← lift (or_error (lib.marshal_key_file kf))
  write_file (tmp_of p) contents
  rename_file (tmp_of p) p

abbrev salt_len : ℕ
salt_len = 16

-- gcm.NonceSize()
abbrev nonce_size : ℕ
nonce_size = 12

-- the envelope of a new key
unfoldable pub sealed : Library → FileKeyStore → Algorithm → Bytes → Bytes → Bytes → Time → KeyFile
sealed lib f alg salt nonce der at = record {
  version = 1;
  key_algorithm = alg;
  kdf = "argon2id";
  salt = salt;
  nonce = nonce;
  ciphertext = lib.seal (lib.argon2_key f.passphrase salt) nonce der;
  created_at = at;
}

-- what Generate does once the ref is known to be free
unfoldable pub store_new_key : FileKeyStore → String → Algorithm → Exec Error ℕ
store_new_key f ref alg = do
  (signer, der) ← generate_key alg
  salt ← random_text salt_len
  nonce ← random_text nonce_size
  lib ← gets (λ w. w.env.lib)
  at ← now
  write_key_file_atomic (path lib f ref) (sealed lib f alg salt nonce der at)
  remember ref signer
  pure signer

unfoldable pub generate : FileKeyStore → String → Algorithm → Exec Error ℕ
generate f ref alg = do found ← exists f ref; if found then raise other else store_new_key f ref alg

-- newGCM and gcm.Open, then x509.ParsePKCS8PrivateKey
unfoldable pub open_key : Library → FileKeyStore → KeyFile → Option ℕ
open_key lib f kf = elim (lib.unseal (lib.argon2_key f.passphrase kf.salt) kf.nonce kf.ciphertext) [
  | none ↦ none
  | some der ↦ lib.parse_pkcs8 der
]

unfoldable pub load : FileKeyStore → String → Exec Error ℕ
load f ref = do
  lib ← gets (λ w. w.env.lib)
  contents ← attempt (read_file (path lib f ref)) (λ _. raise other)
  kf ← lift (or_error (lib.unmarshal_key_file contents))
  signer ← lift (or_error (open_key lib f kf))
  remember ref signer
  pure signer

-- the map first, then the file
unfoldable pub cached_or : FileKeyStore → String → Option LoadedKey → Exec Error ℕ
cached_or f ref none = load f ref
cached_or f ref (some k) = pure k.signer

unfoldable pub get : FileKeyStore → String → Exec Error ℕ
unfolding cached_or
get f ref = do held ← gets (λ w. by_key ref_of ref w.keys); cached_or f ref held
