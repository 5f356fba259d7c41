-- ===== src/Keystore/Generating.antt =====
-- What Generate of the FileKeyStore leaves in the file system.
use mathlib.Core.Path.{subst}
use text.Mathlib.TextLemmas.{append_cancel_left, cons-ne-nil, append-nil}
use trust_mate.Common.{
  ℕ, ◌+◌, ◌≡◌, ◌≢◌, refl, sym, ◌∙◌, inl, inr, String, none, some, Option-cases, Bool-cases, arith,
}
use trust_mate.Store.Records.{Bytes, Error, other}
use trust_mate.Store.Table.{by_key}
use trust_mate.Profiles.Types.{Algorithm}
use trust_mate.Pki.Library.{Library}
use trust_mate.World.{World}
use trust_mate.Exec.{Result, ok, err, ◌>>=◌, modify, now, random_text}
use trust_mate.Exec.Inversion.{Result-cases}
use trust_mate.Files.{path_of, write_file, rename_file, disk, file_exists}
use trust_mate.Files.Paths.{
  write_file-elsewhere, write_file-ok, rename_file-elsewhere, rename_file-ok, rename_file-err,
}
use trust_mate.Keystore.Types.{KeyFile}
use trust_mate.Keystore.Files.{
  FileKeyStore, path, tmp_of, exists, remember, new_key, generate_key, sealed,
  write_key_file_atomic, store_new_key, generate,
}

tmp_of-ne : (p : String) → p ≢ tmp_of p
tmp_of-ne p h = cons-ne-nil _ _ (append_cancel_left p ".tmp" String.[] (sym h ∙ sym (append-nil p)))

-- A file's contents hold a signer's key, encrypted under the store's passphrase.
pub record IsSealed (lib : Library) (f : FileKeyStore) (signer : ℕ) (c : Bytes) : Type 0 where
  pub key_file : KeyFile
  pub encoded : lib.marshal_key_file key_file ≡ some c
  pub der : Bytes
  pub plain : lib.marshal_pkcs8 signer ≡ some der
  pub encrypted :
      key_file.ciphertext ≡ lib.seal (lib.argon2_key f.passphrase key_file.salt) key_file.nonce der

-- no file but the one at `p` and its temporary file differs
pub record SameElsewhere (p : String) (w v : World) : Type 0 where
  pub at : (k : String) → k ≢ p → k ≢ tmp_of p → by_key path_of k v.files ≡ by_key path_of k w.files

write_key_file_atomic-SameElsewhere :
    (p : String) (kf : KeyFile) (w : World) → SameElsewhere p w (write_key_file_atomic p kf w).1
unfolding write_key_file_atomic ◌>>=◌
write_key_file_atomic-SameElsewhere p kf w = record {
  at = λ k h h'. elim (Option-cases (w.env.lib.marshal_key_file kf)) [
    | inl e ↦ ground (arith, e)
    | inr (c, e) ↦ (elim (Result-cases (write_file (tmp_of p) c w).0) [
      | inr (x, f) ↦ ground (arith, e, f, write_file-elsewhere (tmp_of p) c w k h')
      | inl (_, f) ↦ ground (
        arith,
        e,
        f,
        write_file-elsewhere (tmp_of p) c w k h',
        rename_file-elsewhere (tmp_of p) p (write_file (tmp_of p) c w).1 k h' h,
      )
    ])
  ];
}

write_key_file_atomic-ok :
    (p : String) (kf : KeyFile) (w : World)
    → (write_key_file_atomic p kf w).0 ≡ ok tt
    → (c : Bytes) × (w.env.lib.marshal_key_file kf ≡ some c)
      × (by_key path_of p (write_key_file_atomic p kf w).1.files
          ≡ some (record { path = p; contents = c }))
unfolding write_key_file_atomic ◌>>=◌
write_key_file_atomic-ok p kf w h = elim (Option-cases (w.env.lib.marshal_key_file kf)) [
  | inl e ↦ absurd (ground (arith, e, h))
  | inr (c, e) ↦ (elim (Result-cases (write_file (tmp_of p) c w).0) [
    | inr (x, f) ↦ absurd (ground (arith, e, f, h))
    | inl (_, f) ↦
        (let u = (write_file (tmp_of p) c w).1 in
          elim (Result-cases (rename_file (tmp_of p) p u).0) [
            | inr (x, g) ↦ absurd (ground (arith, e, f, g, h))
            | inl (_, g) ↦ (
              c,
              e,
              ground
                  (arith, e, f, g, write_file-ok (tmp_of p) c w, rename_file-ok (tmp_of p) p u g),
            )
          ])
  ])
]

write_key_file_atomic-err :
    (p : String) (kf : KeyFile) (w : World) (x : Error)
    → (write_key_file_atomic p kf w).0 ≡ err x
    → by_key path_of p (write_key_file_atomic p kf w).1.files ≡ by_key path_of p w.files
unfolding write_key_file_atomic ◌>>=◌
write_key_file_atomic-err p kf w x h = elim (Option-cases (w.env.lib.marshal_key_file kf)) [
  | inl e ↦ ground (arith, e)
  | inr (c, e) ↦ (elim (Result-cases (write_file (tmp_of p) c w).0) [
    | inr (y, f) ↦ ground (arith, e, f, write_file-elsewhere (tmp_of p) c w p (tmp_of-ne p))
    | inl (_, f) ↦
        (let u = (write_file (tmp_of p) c w).1 in
          elim (Result-cases (rename_file (tmp_of p) p u).0) [
            | inr (y, g) ↦ ground (
              arith,
              e,
              f,
              g,
              write_file-elsewhere (tmp_of p) c w p (tmp_of-ne p),
              rename_file-err (tmp_of p) p u y g,
            )
            | inl (_, g) ↦ absurd (ground (arith, e, f, g, h))
          ])
  ])
]

-- what a call that makes a key for `ref` did: a sealed key where there was no file, or a failure that
-- left the file alone
pub data Made (f : FileKeyStore) (ref : String) (w v : World) (r : Result Error ℕ) : Type 0 where
  made :
      (signer : ℕ) (c : Bytes)
      → r ≡ ok signer
      → IsSealed w.env.lib f signer c
      → by_key path_of (path w.env.lib f ref) w.files ≡ none
      → by_key path_of (path w.env.lib f ref) v.files
        ≡ some (record { path = path w.env.lib f ref; contents = c })
      → Made f ref w v r
  failed :
      (e : Error)
      → r ≡ err e
      → by_key path_of (path w.env.lib f ref) v.files
        ≡ by_key path_of (path w.env.lib f ref) w.files
      → Made f ref w v r

store_new_key-Made :
    (f : FileKeyStore) (ref : String) (alg : Algorithm) (w : World)
    → by_key path_of (path w.env.lib f ref) w.files ≡ none
    → Made f ref w (store_new_key f ref alg w).1 (store_new_key f ref alg w).0
unfolding store_new_key generate_key new_key sealed random_text now remember modify ◌>>=◌
store_new_key-Made f ref alg w free = elim (Option-cases (w.env.new_key w.tick alg)) [
  | inl e ↦ failed other (ground (arith, e)) (ground (arith, e))
  | inr (s, e) ↦ (elim (Option-cases (w.env.lib.marshal_pkcs8 s)) [
    | inl d ↦ failed other (ground (arith, e, d)) (ground (arith, e, d))
    | inr (der, d) ↦ (elim (Option-cases (w.env.random (w.tick + 1) 16)) [
      | inl x ↦ failed other (ground (arith, e, d, x)) (ground (arith, e, d, x))
      | inr (salt, x) ↦ (elim (Option-cases (w.env.random (w.tick + 1 + 1) 12)) [
        | inl y ↦ failed other (ground (arith, e, d, x, y)) (ground (arith, e, d, x, y))
        | inr (nonce, y) ↦
            (let p = path w.env.lib f ref in
              let at = w.env.clock (w.tick + 1 + 1 + 1) in
              let kf = sealed w.env.lib f alg salt nonce der at in
              let u : World = record w { tick = w.tick + 1 + 1 + 1 + 1 } in
              elim (Result-cases (write_key_file_atomic p kf u).0) [
                | inr (z, h) ↦
                    failed z (ground (arith, e, d, x, y, h))
                      (ground (arith, e, d, x, y, h, write_key_file_atomic-err p kf u z h))
                | inl (_, h) ↦
                    let (c, encoded, there) = write_key_file_atomic-ok p kf u h in
                    made s c (ground (arith, e, d, x, y, h))
                      (record {
                        key_file = kf;
                        encoded = encoded;
                        der = der;
                        plain = d;
                        encrypted = refl;
                      })
                      free (ground (arith, e, d, x, y, h, there))
              ])
      ])
    ])
  ])
]

-- the position in the environment is not part of what `Made` says
Made-tick :
    (f : FileKeyStore) (ref : String) (w v : World) (r : Result Error ℕ) (n : ℕ)
    → Made f ref (record w { tick = n }) v r
    → Made f ref w v r
Made-tick f ref w v r n (made signer c h s free there) = made signer c h s free there
Made-tick f ref w v r n (failed e h same) = failed e h same

-- Whatever fails on the way, Generate either returns a new key, in a file that was not there before and
-- that holds the key sealed under the passphrase, or it fails and the file for that ref is as it was,
-- absent or whole.
pub generate-Made :
    (f : FileKeyStore) (ref : String) (alg : Algorithm) (w : World)
    → Made f ref w (generate f ref alg w).1 (generate f ref alg w).0
unfolding generate exists file_exists disk ◌>>=◌
generate-Made f ref alg w = elim (Bool-cases (w.env.fault w.tick)) [
  | inl x ↦ failed other (ground (arith, x)) (ground (arith, x))
  | inr x ↦ (elim (Option-cases (by_key path_of (path w.env.lib f ref) w.files)) [
    | inr (r, e) ↦ failed other (ground (arith, x, e)) (ground (arith, x, e))
    | inl e ↦
        (let u : World = record w { tick = w.tick + 1 } in
          let same : store_new_key f ref alg u ≡ generate f ref alg w = ground (arith, x, e) in
          subst (λ y. Made f ref w y.1 y.0) same
            (Made-tick f ref w _ _ (w.tick + 1) (store_new_key-Made f ref alg u e)))
  ])
]
