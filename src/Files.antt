-- ===== src/Files.antt =====
-- The calls of package os that internal/keystore and internal/profiles make, on files by path. A call
-- may fail. A failed read or rename changes nothing; a failed write may leave anything in its file.
pub mod Paths
use trust_mate.Common.{
  ℕ, ◌+◌, String, Bool, true, false, Option, none, some, List, [], ◌∷◌, ◌++◌, ◌==◌, if◌then◌else◌,
  if_absent,
}
use trust_mate.Store.Records.{Bytes, Error, not_found, other}
use trust_mate.Store.Table.{by_key, update_where, delete_where}
use trust_mate.World.{World, FileRow}
use trust_mate.Exec.{Result, ok, err, Exec}

abbrev pub path_of : FileRow → String
path_of f = f.path

unfoldable pub put_file : String → Bytes → List FileRow → List FileRow
put_file path contents files =
    if_absent (by_key path_of path files)
      (files ++ record { path = path; contents = contents } ∷ [])
      (update_where (λ f. f.path == path) (λ f. record f { contents = contents }) files)

unfoldable pub remove_file : String → List FileRow → List FileRow
remove_file path files = delete_where (λ f. f.path == path) files

-- a call: what it does, and what it leaves behind where it fails
unfoldable pub disk :
    {A : Type 0}
    → (List FileRow → Result Error A × List FileRow)
    → (World → List FileRow)
    → Exec Error A
disk run broken w =
    let (r, files') = run w.files in
    if w.env.fault w.tick
    then (err other, record w { tick = w.tick + 1; files = broken w })
    else (r, record w { tick = w.tick + 1; files = files' })

-- os.ReadFile
unfoldable pub read_file : String → Exec Error Bytes
read_file path =
    disk
      (λ files. (
        (elim (by_key path_of path files) [ none ↦ err not_found | some f ↦ ok f.contents ]),
        files,
      ))
      (λ w. w.files)

-- os.Stat, and whether its error is os.ErrNotExist
unfoldable pub file_exists : String → Exec Error Bool
file_exists path =
    disk
      (λ files. ((elim (by_key path_of path files) [ none ↦ ok false | some f ↦ ok true ]), files))
      (λ w. w.files)

-- os.WriteFile
unfoldable pub write_file : String → Bytes → Exec Error (Unit {0})
write_file path contents =
    disk (λ files. (ok tt, put_file path contents files))
      (λ w. elim (w.env.torn w.tick) [ none ↦ w.files | some t ↦ put_file path t w.files ])

-- os.Rename
unfoldable pub rename_file : String → String → Exec Error (Unit {0})
rename_file old new =
    disk
      (λ files. elim (by_key path_of old files) [
        | none ↦ (err not_found, files)
        | some f ↦ (ok tt, put_file new f.contents (remove_file old files))
      ])
      (λ w. w.files)

-- os.MkdirAll: directories are not part of the model
unfoldable pub make_dir : String → Exec Error (Unit {0})
make_dir dir = disk (λ files. (ok tt, files)) (λ w. w.files)
