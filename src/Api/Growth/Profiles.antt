-- ===== src/Api/Growth/Profiles.antt =====
-- The profile routes of internal/api, and the relation `Extends`.
use trust_mate.Common.{refl, String, some, List, [], ◌∷◌}
use trust_mate.Store.Records.{Error}
use trust_mate.Store.Extends.{Extends-preorder}
use trust_mate.Store.Evolution.{Grows, store_grows}
use trust_mate.Keystore.Backend.{read_file-Evolves}
use trust_mate.Profiles.Types.{Profile, name_of}
use trust_mate.Profiles.Registry.{first_version, next_version, upsert_versioned}
use trust_mate.Profiles.Loading.{read_profile, admit, load_files, store_versions, load_dir, load}
use trust_mate.Store.Table.{by_key}
use trust_mate.Store.Records
use trust_mate.World.{Registry}
use trust_mate.Exec.{modify}
use trust_mate.Exec.Evolves.{
  Evolves-bind, Evolves-gets, Evolves-if, Evolves-modify, Evolves-option, Evolves-pure,
  Evolves-raise,
}
use trust_mate.Api.Profiles.{handle_list_profiles, reload_profiles, handle_reload_profiles}
use trust_mate.Common.{of_if_absent, ◌++◌}

first_version-Grows : (e : Error) → Grows (first_version e)
unfolding first_version
first_version-Grows Records.not_found = Evolves-pure _
first_version-Grows e = Evolves-raise _

next_version-Grows : (name contents : String) → Grows (next_version name contents)
unfolding next_version
next_version-Grows name contents = search (store_grows, first_version-Grows) depth 9

upsert_versioned-Grows : (p : Profile) → Grows (upsert_versioned p)
unfolding upsert_versioned
upsert_versioned-Grows p = search (store_grows, next_version-Grows) depth 16

read_profile-Grows : (path : String) → Grows (read_profile path)
unfolding read_profile
read_profile-Grows path = search (store_grows, read_file-Evolves) depth 12

admit-Grows :
    (builtins : List String) (loaded : List Profile) (p : Profile) → Grows (admit builtins loaded p)
unfolding admit
admit-Grows builtins loaded p = Evolves-if _ _ _ (Evolves-raise _) (
    of_if_absent Grows (by_key name_of p.name loaded) _ _ (λ _. Evolves-pure (loaded ++ p ∷ []))
      (λ _ _. Evolves-raise Records.other))

load_files-Grows :
    (builtins paths : List String) (loaded : List Profile)
    → Grows (load_files builtins paths loaded)
unfolding load_files
load_files-Grows builtins [] loaded = Evolves-pure _
load_files-Grows builtins (path ∷ paths) loaded =
    Evolves-bind _ _ (read_profile-Grows path)
      (λ p. Evolves-bind _ _ (admit-Grows builtins loaded p) (load_files-Grows builtins paths))

store_versions-Grows : (ps : List Profile) → Grows (store_versions ps)
unfolding store_versions
store_versions-Grows [] = Evolves-pure _
store_versions-Grows (p ∷ ps) =
    let rest = store_versions-Grows ps in
    Evolves-bind _ _ (upsert_versioned-Grows p) (λ q. Evolves-bind _ _ rest (λ qs. Evolves-pure _))

load_dir-Grows : (r : Registry) → Grows (load_dir r)
unfolding load_dir
load_dir-Grows r = search (store_grows, load_files-Grows, store_versions-Grows) depth 16

pub load-Grows : (r : Registry) → Grows (load r)
unfolding load
load-Grows r = Evolves-if _ _ _ (Evolves-pure _) (load_dir-Grows r)

pub handle_list_profiles-Grows : Grows handle_list_profiles
unfolding handle_list_profiles
handle_list_profiles-Grows = search store_grows depth 5

set_registry-Grows :
    {E : Type 0} (r : Registry) → Grows (modify {E = E} (λ w. record w { registry = some r }))
set_registry-Grows r = Evolves-modify _ (λ w. refl)

reload_profiles-Grows :
    (r : Registry) (remote_addr : String) → Grows (reload_profiles r remote_addr)
unfolding reload_profiles
reload_profiles-Grows r remote_addr = search (store_grows, load-Grows, set_registry-Grows) depth 14

pub handle_reload_profiles-Grows :
    (remote_addr : String) → Grows (handle_reload_profiles remote_addr)
unfolding handle_reload_profiles
handle_reload_profiles-Grows remote_addr =
    Evolves-bind _ _ (Evolves-gets _)
      (λ held. Evolves-option held _ _ (Evolves-raise _) (λ r. reload_profiles-Grows r remote_addr))
