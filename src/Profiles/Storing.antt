-- ===== src/Profiles/Storing.antt =====
-- What Upsert of internal/store/sqlite/profiles.go leaves in the table.
use mathlib.Core.Option
use trust_mate.Common.{
  ◌≡◌, refl, Bool, some, List, [], ◌∷◌, ◌&&◌, ◌==◌, nat_eq, arith, inl, inr, Bool-cases,
  Option-cases, if_absent, eq_refl,
}
use trust_mate.Store.Records.{ProfileRecord, Db}
use trust_mate.Store.Table.{first_where, first_where-append, update_where}
use trust_mate.Store.Profiles
use trust_mate.Store.Profiles.{same_version}
use trust_mate.Store.Timestamp.{column}
use trust_mate.World.{World}
use trust_mate.Exec.{ok, statement}

-- An UPDATE that leaves its own WHERE clause true acts on the row that it finds.
first_where-update :
    {A : Type 0} (p : A → Bool) (f : A → A) (rows : List A)
    → ((r : A) → p (f r) ≡ p r)
    → first_where p (update_where p f rows) ≡ Option.map f (first_where p rows)
unfolding first_where update_where
first_where-update p f [] same = refl
first_where-update p f (x ∷ rows) same = ground (arith, first_where-update p f rows same, same x)

-- the row of a profile's name and version
pub record IsStored (rec : ProfileRecord) (d : Db) : Type 0 where
  pub row : ProfileRecord
  pub found :
      first_where (λ x. x.name == rec.name && nat_eq x.version rec.version) d.profiles ≡ some row
  pub contents : row.contents ≡ rec.contents

write-IsStored : (rec : ProfileRecord) (d : Db) → IsStored rec (Profiles.write rec d).1
unfolding Profiles.write if_absent
write-IsStored rec d =
    let row : ProfileRecord = record rec { created_at = column rec.created_at } in
    let set : ProfileRecord → ProfileRecord =
      λ x. record x { contents = row.contents; created_at = row.created_at } in
    elim (Option-cases (first_where (same_version rec) d.profiles)) [
      | inl e ↦ record {
        row = row;
        found = rw (e, first_where-append (same_version rec), e) (ground (arith, eq_refl rec.name));
        contents = refl;
      }
      | inr (r, e) ↦ record {
        row = set r;
        found = rw (e, first_where-update (same_version rec) set d.profiles (λ x. refl), e) refl;
        contents = refl;
      }
    ]

pub upsert-IsStored :
    (rec : ProfileRecord) (w : World)
    → (Profiles.upsert rec w).0 ≡ ok tt
    → IsStored rec (Profiles.upsert rec w).1.db
unfolding Profiles.upsert statement
upsert-IsStored rec w h = elim (Bool-cases (w.env.fault w.tick)) [
  | inl x ↦ absurd (ground (arith, h, x))
  | inr x ↦ rw x (write-IsStored rec w.db)
]
