-- ===== src/Profiles/Admission.antt =====
-- The names of the profiles that Load admits from files.
use mathlib.Core.Path.{subst}
use trust_mate.Common.{
  ◌≡◌, sym, ap, String, false, List, [], ◌∷◌, ◌++◌, arith, inl, inr, All, Bool-cases, Option-cases,
  if_absent, map, All-append, ◌==◌,
}
use trust_mate.Store.Table.{by_key, first_where, IsUnique, IsFresh, IsUnique-append}
use trust_mate.Profiles.Types.{Profile, name_of}
use trust_mate.Profiles.Registry.{upsert_versioned}
use trust_mate.Profiles.Versions.{upsert_versioned-ok}
use trust_mate.World.{World}
use trust_mate.Exec.{ok, ◌>>=◌}
use trust_mate.Exec.Inversion.{Result-cases}
use trust_mate.Profiles.Loading.{is_builtin, read_profile, admit, load_files, store_versions}

-- profiles with names of their own
abbrev pub IsForeign : List String → Profile → Type 0
IsForeign builtins p = is_builtin builtins p.name ≡ false

-- the loaded profiles: no built-in names, and no name twice
pub record AreLoaded (builtins : List String) (ps : List Profile) : Type 0 where
  pub foreign : All (IsForeign builtins) ps
  pub unique : IsUnique name_of ps

admit-AreLoaded :
    (builtins : List String) (loaded : List Profile) (p : Profile) (w : World) (more : List Profile)
    → AreLoaded builtins loaded
    → (admit builtins loaded p w).0 ≡ ok more
    → AreLoaded builtins more
unfolding admit if_absent ◌>>=◌
admit-AreLoaded builtins loaded p w more a h = elim (Bool-cases (is_builtin builtins p.name)) [
  | inl x ↦ absurd (ground (arith, h, x))
  | inr x ↦ (elim (Option-cases (by_key name_of p.name loaded)) [
    | inr (q, e) ↦ absurd (ground (arith, h, x, e))
    | inl e ↦
        (let same : loaded ++ p ∷ [] ≡ more = ground (arith, h, x, e) in
          subst (AreLoaded builtins) same (record {
            foreign = All-append (IsForeign builtins) loaded (p ∷ []) a.foreign (x, tt);
            unique = IsUnique-append name_of loaded p a.unique e;
          }))
  ])
]

pub load_files-AreLoaded :
    (builtins paths : List String) (loaded : List Profile) (w : World) (out : List Profile)
    → AreLoaded builtins loaded
    → (load_files builtins paths loaded w).0 ≡ ok out
    → AreLoaded builtins out
unfolding load_files ◌>>=◌
load_files-AreLoaded builtins [] loaded w out a h = subst (AreLoaded builtins) (ground (arith, h)) a
load_files-AreLoaded builtins (path ∷ paths) loaded w out a h =
    elim (Result-cases (read_profile path w).0) [
      | inr (x, e) ↦ absurd (ground (arith, h, e))
      | inl (p, e) ↦
          (let u = (read_profile path w).1 in
            elim (Result-cases (admit builtins loaded p u).0) [
              | inr (x, f) ↦ absurd (ground (arith, h, e, f))
              | inl (more, f) ↦
                  load_files-AreLoaded builtins paths more (admit builtins loaded p u).1 out
                    (admit-AreLoaded builtins loaded p u more a f) (ground (arith, h, e, f))
            ])
    ]

-- what is loaded is a matter of the names
IsFresh-names :
    (k : String) (ps qs : List Profile)
    → map name_of ps ≡ map name_of qs
    → IsFresh name_of k ps
    → IsFresh name_of k qs
unfolding first_where
IsFresh-names k [] [] e h = h
IsFresh-names k [] (q ∷ qs) e h = absurd (ground (arith, e))
IsFresh-names k (p ∷ ps) [] e h = absurd (ground (arith, e))
IsFresh-names k (p ∷ ps) (q ∷ qs) e h =
    let rest = IsFresh-names k ps qs (ground (arith, e)) in
    let same : p.name ≡ q.name = ground (arith, e) in
    elim (Bool-cases (p.name == k)) [
      | inl x ↦ absurd (ground (arith, h, x))
      | inr x ↦ ground (arith, h, x, rest, same)
    ]

pub AreLoaded-names :
    (builtins : List String) (ps qs : List Profile)
    → map name_of ps ≡ map name_of qs
    → AreLoaded builtins ps
    → AreLoaded builtins qs
AreLoaded-names builtins [] [] e a = a
AreLoaded-names builtins [] (q ∷ qs) e a = absurd (ground (arith, e))
AreLoaded-names builtins (p ∷ ps) [] e a = absurd (ground (arith, e))
AreLoaded-names builtins (p ∷ ps) (q ∷ qs) e a =
    let tails : map name_of ps ≡ map name_of qs = ground (arith, e) in
    let same : p.name ≡ q.name = ground (arith, e) in
    let rest =
      AreLoaded-names builtins ps qs tails
        (record { foreign = a.foreign.1; unique = a.unique.1 }) in
    record {
      foreign = (subst (λ n. is_builtin builtins n ≡ false) same a.foreign.0, rest.foreign);
      unique = (
        subst (λ n. IsFresh name_of n qs) same (IsFresh-names p.name ps qs tails a.unique.0),
        rest.unique,
      );
    }

-- versioning changes the version of a profile only
pub store_versions-names :
    (ps : List Profile) (w : World) (out : List Profile)
    → (store_versions ps w).0 ≡ ok out
    → map name_of ps ≡ map name_of out
unfolding store_versions ◌>>=◌
store_versions-names [] w out h = ground (arith, h)
store_versions-names (p ∷ ps) w out h = elim (Result-cases (upsert_versioned p w).0) [
  | inr (x, e) ↦ absurd (ground (arith, h, e))
  | inl (q, e) ↦
      (let u = (upsert_versioned p w).1 in
        elim (Result-cases (store_versions ps u).0) [
          | inr (x, f) ↦ absurd (ground (arith, h, e, f))
          | inl (qs, f) ↦
              (let same : q ∷ qs ≡ out = ground (arith, h, e, f) in
                let named : p.name ≡ q.name =
                  sym (ap name_of (upsert_versioned-ok p q w e).named) in
                subst (λ o. p.name ∷ map name_of ps ≡ map name_of o) same
                  (ground (arith, named, store_versions-names ps u qs f)))
        ])
]
