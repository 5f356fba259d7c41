-- ===== src/Tests/ConfigWitnesses.antt =====
-- The theorems on the configuration and on the profile files at concrete settings.
use trust_mate.Common.{◌≡◌, refl, String, true, false, none, some, [], ◌∷◌, ◌==◌, if◌then◌else◌}
use trust_mate.Store.Profiles
use trust_mate.Profiles.Types.{Profile, ProfileConfig}
use trust_mate.Profiles.Types
use trust_mate.Profiles.Config.{key_algorithm}
use trust_mate.Files.{read_file}
use trust_mate.World.{World}
use trust_mate.Exec.{ok}
use trust_mate.Config.Types.{Config, defaults}
use trust_mate.Config.Load.{
  Surroundings, apply_env_overrides, str_var, str_slice_var, bool_var, int_ptr_var, is_store_driver,
  is_keystore_driver, with_trimmed_url, validate, load, load_from_env,
}
use trust_mate.Config.Validation.{IsAcceptable, trimmed, validate_iff}
use trust_mate.Config.Precedence.{load_from_env-ok}
use trust_mate.Tests.Fixtures.{env, library, world}

-- a process whose environment sets the store's driver
abbrev surroundings : Surroundings
surroundings = record {
  lookup_env = λ key. if key == "TRUSTMATE_STORE_DRIVER" then some "postgres" else none;
  read_file = λ path. none;
  unmarshal_yaml = λ b c. none;
  parse_url = λ u. some (record { scheme = "https"; host = "host" });
  parse_bool = λ s. none;
  atoi = λ s. none;
  split_comma = λ s. s ∷ [];
  trim_space = λ s. s;
  trim_right_slash = λ s. s;
}

validate_iff_example :
    (IsAcceptable surroundings defaults
      → validate surroundings defaults ≡ ok (trimmed surroundings defaults))
    × ((c : Config)
        → validate surroundings defaults ≡ ok c
        → IsAcceptable surroundings defaults × (c ≡ trimmed surroundings defaults))
validate_iff_example = validate_iff surroundings defaults

abbrev loaded : Config
loaded = record defaults { store = record defaults.store { driver = "postgres" } }

loaded_one : load_from_env surroundings "" ≡ ok loaded
unfolding load_from_env load apply_env_overrides str_var str_slice_var bool_var int_ptr_var validate
    is_store_driver is_keystore_driver with_trimmed_url
loaded_one = refl

load_from_env-ok_example :
    (base : Config) × (load surroundings "" ≡ ok base)
    × IsAcceptable surroundings (apply_env_overrides surroundings base)
    × (loaded ≡ trimmed surroundings (apply_env_overrides surroundings base))
    × ((v : String) → surroundings.lookup_env "TRUSTMATE_STORE_DRIVER" ≡ some v → "postgres" ≡ v)
    × ((v : String)
        → surroundings.lookup_env "TRUSTMATE_PUBLIC_BASE_URL" ≡ some v
        → "https://localhost:8080" ≡ v)
load_from_env-ok_example = load_from_env-ok surroundings "" loaded loaded_one

-- a directory with one profile file
abbrev config : ProfileConfig
config = record {
  name = "vpn";
  key_algorithm = "ecdsa-p256";
  key_usage = "digitalSignature" ∷ [];
  ext_key_usage = "clientAuth" ∷ [];
  critical_eku = false;
  validity = "1h";
  enable_ocsp = true;
  enable_crl = true;
}

abbrev profiles_world : World
profiles_world = record world {
  env = record env {
    lib = record library {
      glob = λ pattern paths. if pattern == "profiles/*.yaml" then some paths else some [];
      unmarshal_profile_config = λ b. some config;
    };
  };
  files = record { path = "profiles/vpn.yaml"; contents = "yaml" } ∷ [];
}

abbrev vpn : Profile
vpn = record {
  name = "vpn";
  version = 1;
  key_algorithm = Types.ecdsa_p256;
  key_usage = 1;
  ext_key_usage = 2 ∷ [];
  critical_eku = false;
  validity = 3600;
  enable_ocsp = true;
  enable_crl = true;
  aia_template = "";
  cdp_template = "";
  ocsp_template = "";
}
