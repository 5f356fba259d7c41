-- ===== src/Keystore/Backend.antt =====
-- FileKeyStore as a KeyStore.
use trust_mate.Common.{ℕ, String, Option, none, some, List, refl}
use trust_mate.Store.Records.{Bytes, Error, Db}
use trust_mate.Profiles.Types.{Algorithm}
use trust_mate.World.{World, FileRow, LoadedKey}
use trust_mate.Exec.{Result}
use trust_mate.Exec.Evolves.{
  IsPreorder, Evolves, Evolves-commit, SameDb-preorder, Evolves-modify, Evolves-pure, evolves_rules,
}
use trust_mate.Files.{disk, read_file, write_file, rename_file, file_exists}
use trust_mate.Keystore.Types.{KeyFile}
use trust_mate.Keystore.Store.{KeyStore}
use trust_mate.Keystore.Files.{
  FileKeyStore, exists, remember, new_key, generate_key, write_key_file_atomic, store_new_key,
  generate, load, cached_or, get,
}

module _ {R : Db → Db → Type 0} ⦃pre : IsPreorder R⦄ where
  pub disk-Evolves :
      {A : Type 0} (run : List FileRow → Result Error A × List FileRow)
      (broken : World → List FileRow)
      → Evolves R (disk run broken)
  unfolding disk
  disk-Evolves run broken = record {
    at = λ w. Evolves-commit R (w.env.fault w.tick) _ _ w.db (pre.same w.db) (pre.same w.db);
  }

  pub read_file-Evolves : (p : String) → Evolves R (read_file p)
  unfolding read_file
  read_file-Evolves p = disk-Evolves _ _

  file_exists-Evolves : (p : String) → Evolves R (file_exists p)
  unfolding file_exists
  file_exists-Evolves p = disk-Evolves _ _

  pub write_file-Evolves : (p : String) (contents : Bytes) → Evolves R (write_file p contents)
  unfolding write_file
  write_file-Evolves p contents = disk-Evolves _ _

  pub rename_file-Evolves : (p q : String) → Evolves R (rename_file p q)
  unfolding rename_file
  rename_file-Evolves p q = disk-Evolves _ _

  pub exists-Evolves : (f : FileKeyStore) (ref : String) → Evolves R (exists f ref)
  unfolding exists
  exists-Evolves f ref = search (evolves_rules, file_exists-Evolves)

  remember-Evolves :
      {E : Type 0} (ref : String) (signer : ℕ) → Evolves R (remember {E = E} ref signer)
  unfolding remember
  remember-Evolves ref signer = Evolves-modify _ (λ w. refl)

  pub new_key-Evolves : (alg : Algorithm) → Evolves R (new_key alg)
  unfolding new_key
  new_key-Evolves alg = record { at = λ w. pre.same w.db }

  generate_key-Evolves : (alg : Algorithm) → Evolves R (generate_key alg)
  unfolding generate_key
  generate_key-Evolves alg = search (evolves_rules, new_key-Evolves) depth 9

  write_key_file_atomic-Evolves :
      (p : String) (kf : KeyFile) → Evolves R (write_key_file_atomic p kf)
  unfolding write_key_file_atomic
  write_key_file_atomic-Evolves p kf =
      search (evolves_rules, write_file-Evolves, rename_file-Evolves) depth 9

  store_new_key-Evolves :
      (f : FileKeyStore) (ref : String) (alg : Algorithm) → Evolves R (store_new_key f ref alg)
  unfolding store_new_key
  store_new_key-Evolves f ref alg =
      search (evolves_rules, generate_key-Evolves, write_key_file_atomic-Evolves, remember-Evolves)
        depth 18

  pub generate-Evolves :
      (f : FileKeyStore) (ref : String) (alg : Algorithm) → Evolves R (generate f ref alg)
  unfolding generate
  generate-Evolves f ref alg = search (evolves_rules, exists-Evolves, store_new_key-Evolves) depth 7

  load-Evolves : (f : FileKeyStore) (ref : String) → Evolves R (load f ref)
  unfolding load
  load-Evolves f ref = search (evolves_rules, read_file-Evolves, remember-Evolves) depth 14

  cached_or-Evolves :
      (f : FileKeyStore) (ref : String) (held : Option LoadedKey) → Evolves R (cached_or f ref held)
  unfolding cached_or
  cached_or-Evolves f ref none = load-Evolves f ref
  cached_or-Evolves f ref (some k) = Evolves-pure k.signer

  pub get-Evolves : (f : FileKeyStore) (ref : String) → Evolves R (get f ref)
  unfolding get
  get-Evolves f ref = search (evolves_rules, cached_or-Evolves)

-- the interface, with the laws that its clients use
abbrev pub file_key_store : FileKeyStore → KeyStore
file_key_store f = record {
  exists = exists f;
  generate = generate f;
  get = get f;
  exists_same = exists-Evolves f;
  generate_same = generate-Evolves f;
  get_same = get-Evolves f;
}
