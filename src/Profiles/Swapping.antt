-- ===== src/Profiles/Swapping.antt =====
-- What a registry is after Load.
use trust_mate.Common.{◌≡◌, String, true, List, ◌++◌, select}
use trust_mate.Store.Table.{by_key}
use trust_mate.Profiles.Types.{Profile, name_of}
use trust_mate.Profiles.Admission.{AreLoaded}
use trust_mate.World.{World, Registry}
use trust_mate.Profiles.Loading.{is_builtin}

-- the registry after a Load
pub record IsReloaded (before after : Registry) (versioned : List Profile) : Type 0 where
  pub loaded : AreLoaded before.builtins versioned
  pub profiles :
      after.profiles ≡ select (λ p. is_builtin before.builtins p.name) before.profiles ++ versioned
  pub builtins : after.builtins ≡ before.builtins
  -- every built-in name finds what it found
  pub kept :
      (n : String)
      → is_builtin before.builtins n ≡ true
      → by_key name_of n after.profiles ≡ by_key name_of n before.profiles
