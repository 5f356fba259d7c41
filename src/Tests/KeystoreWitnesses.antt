-- ===== src/Tests/KeystoreWitnesses.antt =====
-- The theorems on the keystore of files at an empty directory.
use trust_mate.Common.{
  ℕ, ◌+◌, ◌≡◌, refl, sym, ap, inl, inr, Bool, Bool-cases, String, true, some, arith, eq_iff,
  if_absent, ◌&&◌, ◌==◌, nat_eq,
}
use trust_mate.Store.Records.{Bytes}
use trust_mate.Store.Table.{first_where, update_where, delete_where}
use trust_mate.Profiles.Types.{Algorithm, ecdsa_p256, rsa_2048}
use trust_mate.World.{World}
use trust_mate.Exec.{ok, ◌>>=◌, modify, now, random_text}
use trust_mate.Files.{disk, file_exists, write_file, rename_file, put_file, remove_file}
use trust_mate.Keystore.Types.{KeyFile}
use trust_mate.Keystore.Files.{
  path, exists, remember, new_key, generate_key, write_key_file_atomic, sealed, store_new_key,
  generate, get,
}
use trust_mate.Keystore.Generating.{Made, generate-Made}
use trust_mate.Keystore.Reloading.{get-generate}
use trust_mate.Tests.Fixtures.{key_dir, key_file, is_ecdsa, is_key_file, start, library, world}

generate-Made_example :
    Made key_dir "ref" world
      (generate key_dir "ref" ecdsa_p256 world).1
      (generate key_dir "ref" ecdsa_p256 world).0
generate-Made_example = generate-Made key_dir "ref" ecdsa_p256 world

generated : (generate key_dir "ref" ecdsa_p256 world).0 ≡ ok 9
unfolding generate exists path file_exists disk first_where store_new_key generate_key new_key
    random_text sealed now write_key_file_atomic write_file put_file remove_file if_absent
    rename_file delete_where update_where remember modify ◌>>=◌
generated = refl

and_left : (a b : Bool) → (a && b) ≡ true → (a ≡ true) × (b ≡ true)
and_left a b h = (ground (arith, h), ground (arith, h))

is_ecdsa-eq : (a : Algorithm) → is_ecdsa a ≡ true → ecdsa_p256 ≡ a
is_ecdsa-eq ecdsa_p256 h = refl
is_ecdsa-eq rsa_2048 h = absurd (ground (arith, h))

nat_eq-eq : (a b : ℕ) → nat_eq a b ≡ true → b ≡ a
nat_eq-eq a b h = ground (arith, h)

is_key_file-eq : (kf : KeyFile) → is_key_file kf ≡ true → key_file ≡ kf
is_key_file-eq kf h =
    let (v, h1) = and_left _ _ h in
    let (a, h2) = and_left _ _ h1 in
    let (k, h3) = and_left _ _ h2 in
    let (s, h4) = and_left _ _ h3 in
    let (n, h5) = and_left _ _ h4 in
    let (c, t) = and_left _ _ h5 in
    let text = λ (x y : String) (e : (x == y) ≡ true). sym ((eq_iff x y).0 e) in
    λ i. record {
      version = nat_eq-eq kf.version 1 v i;
      key_algorithm = is_ecdsa-eq kf.key_algorithm a i;
      kdf = text kf.kdf "argon2id" k i;
      salt = text kf.salt "random" s i;
      nonce = text kf.nonce "random" n i;
      ciphertext = text kf.ciphertext "pkcs8" c i;
      created_at = nat_eq-eq kf.created_at (start + 4) t i;
    }

json :
    (kf : KeyFile) (b : Bytes)
    → library.marshal_key_file kf ≡ some b
    → library.unmarshal_key_file b ≡ some kf
json kf b h = elim (Bool-cases (is_key_file kf)) [
  | inl e ↦ ap (λ f. some f) (is_key_file-eq kf e)
  | inr e ↦ absurd (ground (arith, h, e))
]

pkcs8 : (s : ℕ) (b : Bytes) → library.marshal_pkcs8 s ≡ some b → library.parse_pkcs8 b ≡ some s
pkcs8 s b h = ground (arith, h)

abbrev restarted : World
restarted = record world { files = (generate key_dir "ref" ecdsa_p256 world).1.files }

get-generate_example : (get key_dir "ref" restarted).0 ≡ ok 9
get-generate_example =
    get-generate key_dir "ref" ecdsa_p256 9 world restarted json (λ key nonce plain. refl) pkcs8
      generated refl refl refl refl
