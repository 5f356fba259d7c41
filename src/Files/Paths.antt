-- ===== src/Files/Paths.antt =====
-- What the file calls do to the file that a path finds.
use trust_mate.Common.{
  ◌≡◌, ◌≢◌, refl, inl, inr, String, none, some, List, [], ◌∷◌, ◌==◌, if◌then◌else◌, if_absent,
  Option-cases, Bool-cases, arith, eq_iff, eq_refl,
}
use trust_mate.Store.Records.{Bytes, Error}
use trust_mate.Store.Table.{
  by_key, first_where-append, first_where, delete_where, by_key-update, key-by_key,
}
use trust_mate.World.{World, FileRow}
use trust_mate.Exec.{ok, err}
use trust_mate.Files.{path_of, put_file, remove_file, disk, write_file, rename_file}

abbrev file : String → Bytes → FileRow
file p c = record { path = p; contents = c }

pub by_key-put_file :
    (p : String) (c : Bytes) (k : String) (files : List FileRow)
    → by_key path_of k (put_file p c files)
      ≡ (if p == k then some (record { path = p; contents = c }) else by_key path_of k files)
unfolding put_file if_absent
by_key-put_file p c k files =
    let set : FileRow → FileRow = λ f. record f { contents = c } in
    let same : (f : FileRow) → (set f).path ≡ f.path = λ f. refl in
    let later = by_key-update path_of set same (λ f. f.path == p) k files in
    elim (Option-cases (by_key path_of p files)) [
      | inl e ↦
          ground (arith, e, first_where-append (λ f. f.path == k) files (file p c), eq_iff p k)
      | inr (f, e) ↦ (elim (Option-cases (by_key path_of k files)) [
        | inl d ↦ ground (arith, e, d, later, eq_iff p k)
        | inr (g, d) ↦ ground (
          arith,
          e,
          d,
          later,
          key-by_key path_of k files g d,
          eq_iff p k,
          eq_iff k p,
          key-by_key path_of p files f e,
        )
      ])
    ]

pub by_key-remove_file :
    (p k : String) (files : List FileRow)
    → by_key path_of k (remove_file p files) ≡ (if p == k then none else by_key path_of k files)
unfolding remove_file delete_where first_where
by_key-remove_file p k [] = ground arith
by_key-remove_file p k (f ∷ files) =
    ground (arith, by_key-remove_file p k files, eq_iff f.path p, eq_iff f.path k, eq_iff p k)

-- What one call does, by path: nothing elsewhere, and on its own path all or nothing but for a write.
pub write_file-elsewhere :
    (p : String) (c : Bytes) (w : World) (k : String)
    → k ≢ p
    → by_key path_of k (write_file p c w).1.files ≡ by_key path_of k w.files
unfolding write_file disk
write_file-elsewhere p c w k h = elim (Bool-cases (w.env.fault w.tick)) [
  | inr x ↦ ground (arith, x, h, by_key-put_file p c k w.files, eq_iff p k)
  | inl x ↦ (elim (Option-cases (w.env.torn w.tick)) [
    | inl t ↦ ground (arith, x, t)
    | inr (d, t) ↦ ground (arith, x, t, h, by_key-put_file p d k w.files, eq_iff p k)
  ])
]

pub write_file-ok :
    (p : String) (c : Bytes) (w : World)
    → (write_file p c w).0 ≡ ok tt
    → by_key path_of p (write_file p c w).1.files ≡ some (record { path = p; contents = c })
unfolding write_file disk
write_file-ok p c w h = elim (Bool-cases (w.env.fault w.tick)) [
  | inr x ↦ ground (arith, x, by_key-put_file p c p w.files, eq_refl p)
  | inl x ↦ absurd (ground (arith, x, h))
]

pub rename_file-elsewhere :
    (p q : String) (w : World) (k : String)
    → k ≢ p
    → k ≢ q
    → by_key path_of k (rename_file p q w).1.files ≡ by_key path_of k w.files
unfolding rename_file disk
rename_file-elsewhere p q w k h h' = elim (Option-cases (by_key path_of p w.files)) [
  | inl e ↦ ground (arith, e)
  | inr (f, e) ↦ ground (
    arith,
    e,
    h,
    h',
    by_key-put_file q f.contents k (remove_file p w.files),
    by_key-remove_file p k w.files,
    eq_iff p k,
    eq_iff q k,
  )
]

pub rename_file-ok :
    (p q : String) (w : World)
    → (rename_file p q w).0 ≡ ok tt
    → (f : FileRow) × (by_key path_of p w.files ≡ some f)
      × (by_key path_of q (rename_file p q w).1.files
          ≡ some (record { path = q; contents = f.contents }))
unfolding rename_file disk
rename_file-ok p q w h = elim (Option-cases (by_key path_of p w.files)) [
  | inl e ↦ absurd (ground (arith, e, h))
  | inr (f, e) ↦ (
    f,
    e,
    ground (arith, e, h, by_key-put_file q f.contents q (remove_file p w.files), eq_refl q),
  )
]

pub rename_file-err :
    (p q : String) (w : World) (e : Error)
    → (rename_file p q w).0 ≡ err e
    → (rename_file p q w).1.files ≡ w.files
unfolding rename_file disk
rename_file-err p q w e h = elim (Option-cases (by_key path_of p w.files)) [
  | inl x ↦ ground (arith, x)
  | inr (f, x) ↦ ground (arith, x, h)
]
