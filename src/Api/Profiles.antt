-- ===== src/Api/Profiles.antt =====
-- internal/api/profiles.go. The validity is the number that the response prints.
use trust_mate.Common.{String, Option, none, some, List, map}
use trust_mate.Store.Audit
use trust_mate.Profiles.Types.{Profile, name_of, built_in}
use trust_mate.Profiles.Config.{key_usage_strings, ext_key_usage_strings}
use trust_mate.Profiles.Loading.{load}
use trust_mate.World.{Registry}
use trust_mate.Exec.{◌>>=◌, ◌>>◌, pure, gets, attempt, modify, now}
use trust_mate.Api.Http.{
  Handler, ProfileResponse, json, profiles, profiles_reloaded, profile_reload_failed,
  profile_registry_unavailable, write_problem, write_internal_error,
}
use trust_mate.Api.Issuing.{entry}

abbrev pub profile_response : Profile → ProfileResponse
profile_response p = record {
  name = p.name;
  version = p.version;
  key_usage = key_usage_strings p.key_usage;
  ext_key_usage = ext_key_usage_strings p.ext_key_usage;
  critical_eku = p.critical_eku;
  validity = p.validity;
  enable_ocsp = p.enable_ocsp;
  enable_crl = p.enable_crl;
}

-- deps.Profiles.All(), or the built-in profiles without a registry
unfoldable pub all_profiles : Option Registry → List Profile
all_profiles none = built_in
all_profiles (some reg) = reg.profiles

unfoldable pub handle_list_profiles : Handler
handle_list_profiles = do
  all ← gets (λ w. all_profiles w.registry)
  pure (json 200 (profiles (map profile_response all)))

-- what follows where there is a registry
unfoldable pub reload_profiles : Registry → String → Handler
reload_profiles reg remote_addr = do
  next ← attempt (load reg) (λ _. write_problem profile_reload_failed)
  modify (λ w. record w { registry = some next })
  at ← now
  attempt (Audit.append (entry at remote_addr "profiles-reload" "" "")) (λ _. write_internal_error)
  pure (json 200 (profiles_reloaded (map name_of next.profiles)))

unfoldable pub handle_reload_profiles : String → Handler
handle_reload_profiles remote_addr = do
  held ← gets (λ w. w.registry)
  elim held [
    | none ↦ write_problem profile_registry_unavailable
    | some reg ↦ reload_profiles reg remote_addr
  ]
