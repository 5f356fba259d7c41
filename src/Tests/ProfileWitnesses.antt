-- ===== src/Tests/ProfileWitnesses.antt =====
-- The theorems on the profile registry at a concrete profile.
use trust_mate.Common.{◌==◌, ◌&&◌, nat_eq, ◌≡◌, refl, some, arith, eq_iff}
use trust_mate.Store.Records.{ProfileRecord}
use trust_mate.Store.Table.{first_where}
use trust_mate.Store.Profiles
use trust_mate.Store.Profiles.{latest}
use trust_mate.Profiles.Types.{Profile, default}
use trust_mate.Profiles.Registry.{upsert_versioned}
use trust_mate.Profiles.Versions.{upsert_versioned-unchanged}
use trust_mate.Exec.{ok}
use trust_mate.Tests.Fixtures.{stored_profile, versioned_world}

abbrev third : Profile
third = record default { version = 3 }

upsert_versioned-unchanged_example :
    ((upsert_versioned default versioned_world).0 ≡ ok third)
    × ((row : ProfileRecord) × (first_where
            (λ x. x.name == "default" && nat_eq x.version 3)
            (upsert_versioned default versioned_world).1.db.profiles
          ≡ some row)
        × (row.contents ≡ "later"))
unfolding latest
upsert_versioned-unchanged_example =
    upsert_versioned-unchanged default stored_profile "first" "later" versioned_world (λ n. refl)
      refl refl refl (λ e. ground (arith, (eq_iff "first" "later").1 e)) refl
