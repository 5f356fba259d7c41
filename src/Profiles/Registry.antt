-- ===== src/Profiles/Registry.antt =====
-- internal/profiles/registry.go: upsertVersioned. json.Marshal of a profile is the environment's.
use trust_mate.Common.{ℕ, ◌+◌, String, ◌==◌, if◌then◌else◌}
use trust_mate.Store.Records.{Bytes, Error, not_found, ProfileRecord}
use trust_mate.Store.Profiles
use trust_mate.Profiles.Types.{Profile}
use trust_mate.Exec.{Exec, ◌>>=◌, ◌>>◌, pure, raise, lift, gets, attempt, now}
use trust_mate.Pki.Leaf.{or_error}

-- the version where no earlier one is found
unfoldable pub first_version : Error → Exec Error ℕ
first_version not_found = pure 1
first_version e = raise e

unfoldable pub next_version : String → Bytes → Exec Error ℕ
next_version name contents =
    attempt
      (do
        prev ← Profiles.get name
        pure (if prev.contents == contents then prev.version else prev.version + 1))
      first_version

unfoldable pub upsert_versioned : Profile → Exec Error Profile
upsert_versioned p = do
  lib ← gets (λ w. w.env.lib)
  contents ← lift (or_error (lib.marshal_profile p))
  version ← next_version p.name contents
  let q : Profile = record p { version = version }
  stored ← lift (or_error (lib.marshal_profile q))
  at ← now
  let rec : ProfileRecord = record {
    name = p.name;
    version = version;
    contents = stored;
    created_at = at;
  }
  Profiles.upsert rec
  pure q
