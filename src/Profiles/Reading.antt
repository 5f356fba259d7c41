-- ===== src/Profiles/Reading.antt =====
-- Which files the profiles that Load stores come from.
use mathlib.Core.List.{append_assoc, append-nil}
use mathlib.Core.Path.{subst}
use trust_mate.Common.{
  ◌+◌, ◌≡◌, sym, ◌∙◌, ap, String, some, List, [], ◌∷◌, ◌++◌, map, arith, inl, inr, Bool-cases,
  Option-cases, if_absent,
}
use trust_mate.Store.Table.{by_key}
use trust_mate.World.{World, FileRow}
use trust_mate.Files.{path_of, read_file, disk}
use trust_mate.Pki.Library.{Library}
use trust_mate.Profiles.Types.{Profile, ProfileConfig, name_of}
use trust_mate.Profiles.Config.{to_profile}
use trust_mate.Profiles.Registry.{upsert_versioned}
use trust_mate.Profiles.Versions.{upsert_versioned-ok}
use trust_mate.Profiles.Loading.{is_builtin, read_profile, admit, load_files, store_versions}
use trust_mate.Exec.{ok, ◌>>=◌, attempt}
use trust_mate.Exec.Inversion.{Result-cases}

-- a profile is what a file says
pub record IsRead (lib : Library) (files : List FileRow) (path : String) (p : Profile)
    : Type 0 where
  pub file : FileRow
  pub found : by_key path_of path files ≡ some file
  pub config : ProfileConfig
  pub decoded : lib.unmarshal_profile_config file.contents ≡ some config
  pub made : to_profile lib config ≡ some p

-- one profile for each path, in their order
pub data AreRead (lib : Library) (files : List FileRow) : List String → List Profile → Type 0 where
  no_more : AreRead lib files [] []
  next :
      (path : String) (p : Profile) (paths : List String) (ps : List Profile)
      → IsRead lib files path p
      → AreRead lib files paths ps
      → AreRead lib files (path ∷ paths) (p ∷ ps)

read_profile-IsRead :
    (path : String) (w : World) (p : Profile)
    → (read_profile path w).0 ≡ ok p
    → IsRead w.env.lib w.files path p × ((read_profile path w).1 ≡ record w { tick = w.tick + 1 })
unfolding read_profile read_file disk attempt ◌>>=◌
read_profile-IsRead path w p h = elim (Bool-cases (w.env.fault w.tick)) [
  | inl x ↦ absurd (ground (arith, h, x))
  | inr x ↦ (elim (Option-cases (by_key path_of path w.files)) [
    | inl e ↦ absurd (ground (arith, h, x, e))
    | inr (file, e) ↦ (elim (Option-cases (w.env.lib.unmarshal_profile_config file.contents)) [
      | inl f ↦ absurd (ground (arith, h, x, e, f))
      | inr (config, f) ↦ (elim (Option-cases (to_profile w.env.lib config)) [
        | inl g ↦ absurd (ground (arith, h, x, e, f, g))
        | inr (q, g) ↦
            (let same : q ≡ p = ground (arith, h, x, e, f, g) in
              (
                record {
                  file = file;
                  found = e;
                  config = config;
                  decoded = f;
                  made = g ∙ ap some same;
                },
                ground (arith, x, e, f, g),
              ))
      ])
    ])
  ])
]

admit-ok :
    (builtins : List String) (loaded : List Profile) (p : Profile) (w : World) (more : List Profile)
    → (admit builtins loaded p w).0 ≡ ok more
    → (more ≡ loaded ++ p ∷ []) × ((admit builtins loaded p w).1 ≡ w)
unfolding admit if_absent ◌>>=◌
admit-ok builtins loaded p w more h = elim (Bool-cases (is_builtin builtins p.name)) [
  | inl x ↦ absurd (ground (arith, h, x))
  | inr x ↦ (elim (Option-cases (by_key name_of p.name loaded)) [
    | inr (q, e) ↦ absurd (ground (arith, h, x, e))
    | inl e ↦ (ground (arith, h, x, e), ground (arith, x, e))
  ])
]

pub load_files-AreRead :
    (builtins paths : List String) (loaded : List Profile) (w : World) (out : List Profile)
    → (load_files builtins paths loaded w).0 ≡ ok out
    → (ps : List Profile) × (out ≡ loaded ++ ps) × AreRead w.env.lib w.files paths ps
unfolding load_files ◌>>=◌
load_files-AreRead builtins [] loaded w out h =
    ([], ground (arith, h) ∙ sym (append-nil loaded), no_more)
load_files-AreRead builtins (path ∷ paths) loaded w out h =
    elim (Result-cases (read_profile path w).0) [
      | inr (x, e) ↦ absurd (ground (arith, h, e))
      | inl (p, e) ↦
          (let u = (read_profile path w).1 in
            elim (Result-cases (admit builtins loaded p u).0) [
              | inr (x, f) ↦ absurd (ground (arith, h, e, f))
              | inl (more, f) ↦
                  (let (here, moved) = read_profile-IsRead path w p e in
                    let (grown, same) = admit-ok builtins loaded p u more f in
                    let (ps, all, rest) =
                      load_files-AreRead builtins paths more (admit builtins loaded p u).1 out
                        (ground (arith, h, e, f)) in
                    let rest_at =
                      subst (λ v. AreRead v.env.lib v.files paths ps) (same ∙ moved) rest in
                    (
                      p ∷ ps,
                      all ∙ ap (λ l. l ++ ps) grown ∙ append_assoc loaded (p ∷ []) ps,
                      next path p paths ps here rest_at,
                    ))
            ])
    ]

-- a profile but for its version
abbrev pub unversioned : Profile → Profile
unversioned p = record p { version = 0 }

pub store_versions-unversioned :
    (ps : List Profile) (w : World) (out : List Profile)
    → (store_versions ps w).0 ≡ ok out
    → map unversioned out ≡ map unversioned ps
unfolding store_versions ◌>>=◌
store_versions-unversioned [] w out h = ground (arith, h)
store_versions-unversioned (p ∷ ps) w out h = elim (Result-cases (upsert_versioned p w).0) [
  | inr (x, e) ↦ absurd (ground (arith, h, e))
  | inl (q, e) ↦
      (let u = (upsert_versioned p w).1 in
        elim (Result-cases (store_versions ps u).0) [
          | inr (x, f) ↦ absurd (ground (arith, h, e, f))
          | inl (qs, f) ↦
              (let same : q ∷ qs ≡ out = ground (arith, h, e, f) in
                let here : unversioned q ≡ unversioned p =
                  ap unversioned (upsert_versioned-ok p q w e).named in
                subst (λ o. map unversioned o ≡ unversioned p ∷ map unversioned ps) same
                  (ground (arith, here, store_versions-unversioned ps u qs f)))
        ])
]

-- the profiles of the files that the two patterns of Load find, with the versions that they are stored under
pub record AreFromFiles (w : World) (dir : String) (versioned : List Profile) : Type 0 where
  pub yaml : List String
  pub yml : List String
  pub yaml_found : w.env.lib.glob (w.env.lib.join dir "*.yaml") (map path_of w.files) ≡ some yaml
  pub yml_found : w.env.lib.glob (w.env.lib.join dir "*.yml") (map path_of w.files) ≡ some yml
  pub profiles : List Profile
  pub read : AreRead w.env.lib w.files (yaml ++ yml) profiles
  pub same : map unversioned versioned ≡ map unversioned profiles
