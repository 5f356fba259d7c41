-- ===== src/Profiles/Loading.antt =====
-- internal/profiles/registry.go: NewRegistry and Load. A map is the list of its values in the order of
-- insertion, and the profiles that Load has read are stored in that order.
use trust_mate.Common.{
  String, Bool, true, false, List, [], ◌∷◌, ◌++◌, ◌==◌, map, if◌then◌else◌, if_absent, select,
}
use trust_mate.Store.Records.{Error, other}
use trust_mate.Store.Table.{by_key}
use trust_mate.Profiles.Types.{Profile, name_of, built_in}
use trust_mate.Profiles.Config.{to_profile}
use trust_mate.Profiles.Registry.{upsert_versioned}
use trust_mate.Pki.Leaf.{or_error}
use trust_mate.Files.{path_of, read_file}
use trust_mate.World.{Registry}
use trust_mate.Exec.{Exec, ◌>>=◌, pure, raise, lift, gets, attempt}

-- builtins[name]
unfoldable pub is_builtin : List String → String → Bool
is_builtin [] name = false
is_builtin (b ∷ bs) name = let rest = is_builtin bs name in if b == name then true else rest

-- one file
unfoldable pub read_profile : String → Exec Error Profile
read_profile path = do
  contents ← attempt (read_file path) (λ _. raise other)
  lib ← gets (λ w. w.env.lib)
  cfg ← lift (or_error (lib.unmarshal_profile_config contents))
  lift (or_error (to_profile lib cfg))

-- the checks of a profile's name
unfoldable pub admit : List String → List Profile → Profile → Exec Error (List Profile)
admit builtins loaded p =
    if is_builtin builtins p.name
    then raise other
    else if_absent (by_key name_of p.name loaded) (pure (loaded ++ p ∷ [])) (raise other)

-- the loop over the files, with the profiles loaded so far
unfoldable pub load_files : List String → List String → List Profile → Exec Error (List Profile)
load_files builtins [] loaded = pure loaded
load_files builtins (path ∷ paths) loaded = do
  p ← read_profile path
  more ← admit builtins loaded p
  load_files builtins paths more

-- the loop over the loaded profiles
unfoldable pub store_versions : List Profile → Exec Error (List Profile)
store_versions [] = pure []
store_versions (p ∷ ps) = do q ← upsert_versioned p; qs ← store_versions ps; pure (q ∷ qs)

-- the swap: what is not built in goes, what was loaded comes
unfoldable pub swapped : Registry → List Profile → Registry
swapped r loaded = record r {
  profiles = select (λ p. is_builtin r.builtins p.name) r.profiles ++ loaded;
}

-- what Load does with a directory
unfoldable pub load_dir : Registry → Exec Error Registry
load_dir r = do
  lib ← gets (λ w. w.env.lib)
  paths ← gets (λ w. map path_of w.files)
  yaml ← lift (or_error (lib.glob (lib.join r.dir "*.yaml") paths))
  yml ← lift (or_error (lib.glob (lib.join r.dir "*.yml") paths))
  loaded ← load_files r.builtins (yaml ++ yml) []
  versioned ← store_versions loaded
  pure (swapped r versioned)

-- Load: the registry as it leaves it
unfoldable pub load : Registry → Exec Error Registry
load r = if r.dir == "" then pure r else load_dir r

unfoldable pub seeded : String → Registry
seeded dir = record { dir = dir; profiles = built_in; builtins = map name_of built_in }

unfoldable pub new_registry : String → Exec Error Registry
new_registry dir = load (seeded dir)
