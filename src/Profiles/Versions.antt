-- ===== src/Profiles/Versions.antt =====
-- The versions that upsertVersioned of internal/profiles/registry.go stores.
use trust_mate.Common.{
  ℕ, ◌+◌, ◌≡◌, ◌≢◌, ◌⊎◌, inl, inr, refl, String, false, none, some, arith, Option-cases, Bool-cases,
  ◌==◌, ◌&&◌, nat_eq, eq_iff, sym, eq_false, if_absent,
}
use mathlib.Core.Path.{subst}
use trust_mate.Store.Records.{Bytes, ProfileRecord}
use trust_mate.Store.Profiles
use trust_mate.Store.Profiles.{latest, same_version}
use trust_mate.Store.Table.{first_where}
use trust_mate.Store.SingleUse.{IsHealthy}
use trust_mate.Profiles.Storing.{upsert-IsStored}
use trust_mate.Profiles.Types.{Profile}
use trust_mate.Profiles.Registry.{first_version, next_version, upsert_versioned}
use trust_mate.World.{World}
use trust_mate.Exec.{ok, ◌>>=◌, attempt, query, statement, now}
use trust_mate.Exec.Inversion.{Result-cases}

-- the version that the contents of a profile call for: 1 where the table has none of the name, the latest
-- one where its contents are the same, and one more where they are not
abbrev pub IsNextVersion : String → Bytes → World → ℕ → Type 0
IsNextVersion name contents w v =
    ((latest name w.db.profiles ≡ none) × (v ≡ 1))
    ⊎ ((r : ProfileRecord) × (latest name w.db.profiles ≡ some r)
        × (r.contents ≡ contents → v ≡ r.version)
        × (r.contents ≢ contents → v ≡ r.version + 1))

next_version-ok :
    (name contents : String) (w : World) (v : ℕ)
    → (next_version name contents w).0 ≡ ok v
    → IsNextVersion name contents w v
unfolding next_version ◌>>=◌ attempt Profiles.get query first_version
next_version-ok name contents w v h = elim (Bool-cases (w.env.fault w.tick)) [
  | inl x ↦ absurd (ground (arith, h, x))
  | inr x ↦ (elim (Option-cases (latest name w.db.profiles)) [
    | inl e ↦ inl (e, ground (arith, h, x, e))
    | inr (r, e) ↦ inr (
      r,
      e,
      λ same. ground (arith, h, x, e, (eq_iff r.contents contents).1 same),
      λ differ. ground (arith, h, x, e, eq_false r.contents contents differ),
    )
  ])
]

-- the registry's table before and after a profile was stored
pub record IsUpserted (p q : Profile) (w v : World) : Type 0 where
  pub named : q ≡ record p { version = q.version }
  pub contents : Bytes
  pub marshalled : w.env.lib.marshal_profile p ≡ some contents
  pub version : IsNextVersion p.name contents w q.version
  pub row : ProfileRecord
  pub stored :
      first_where (λ x. x.name == p.name && nat_eq x.version q.version) v.db.profiles ≡ some row
  pub row_contents : w.env.lib.marshal_profile q ≡ some row.contents

pub upsert_versioned-ok :
    (p q : Profile) (w : World)
    → (upsert_versioned p w).0 ≡ ok q
    → IsUpserted p q w (upsert_versioned p w).1
unfolding upsert_versioned ◌>>=◌ now
upsert_versioned-ok p q w h = elim (Option-cases (w.env.lib.marshal_profile p)) [
  | inl e ↦ absurd (ground (arith, h, e))
  | inr (contents, e) ↦ (elim (Result-cases (next_version p.name contents w).0) [
    | inr (x, f) ↦ absurd (ground (arith, h, e, f))
    | inl (v, f) ↦
        (let u = (next_version p.name contents w).1 in
          let named : Profile = record p { version = v } in
          elim (Option-cases (w.env.lib.marshal_profile named)) [
            | inl g ↦ absurd (ground (arith, h, e, f, g))
            | inr (stored, g) ↦
                (let rec : ProfileRecord = record {
                  name = p.name;
                  version = v;
                  contents = stored;
                  created_at = u.env.clock u.tick;
                } in
                  let u' : World = record u { tick = u.tick + 1 } in
                  elim (Result-cases (Profiles.upsert rec u').0) [
                    | inr (x, k) ↦ absurd (ground (arith, h, e, f, g, k))
                    | inl (_, k) ↦
                        (let same : named ≡ q = ground (arith, h, e, f, g, k) in
                          let last : (Profiles.upsert rec u').1 ≡ (upsert_versioned p w).1 =
                            ground (arith, e, f, g, k) in
                          let left = upsert-IsStored rec u' k in
                          subst (λ x. IsUpserted p x w (upsert_versioned p w).1) same
                            (subst (IsUpserted p named w) last (record {
                              named = refl;
                              contents = contents;
                              marshalled = e;
                              version = next_version-ok p.name contents w v f;
                              row = left.row;
                              stored = left.found;
                              row_contents = rw left.contents g;
                            })))
                  ])
          ])
  ])
]

reloaded :
    (p : Profile) (r : ProfileRecord) (loaded next : String) (w : World)
    → IsHealthy w
    → latest p.name w.db.profiles ≡ some r
    → w.env.lib.marshal_profile p ≡ some loaded
    → loaded ≢ r.contents
    → w.env.lib.marshal_profile (record p { version = r.version + 1 }) ≡ some next
    → (upsert_versioned p w).0 ≡ ok (record p { version = r.version + 1 })
unfolding upsert_versioned next_version first_version ◌>>=◌ attempt Profiles.get query statement now
    Profiles.upsert Profiles.write if_absent
reloaded p r loaded next w h found e differ f =
    let news : (r.contents == loaded) ≡ false = eq_false r.contents loaded (λ x. differ (sym x)) in
    let rec : ProfileRecord = record {
      name = p.name;
      version = r.version + 1;
      contents = next;
      created_at = w.env.clock (w.tick + 1);
    } in
    elim (Option-cases (first_where (same_version rec) w.db.profiles)) [
      | inl x ↦ ground (arith, h w.tick, h (w.tick + 1 + 1), found, e, news, f, x)
      | inr (y, x) ↦ ground (arith, h w.tick, h (w.tick + 1 + 1), found, e, news, f, x)
    ]

-- With a healthy datastore, where the encodings of a profile as it was loaded and of the same profile
-- with its latest stored version differ, reloading that unchanged profile returns one version more, and
-- the table then has a row of that version with its encoding.
pub upsert_versioned-unchanged :
    (p : Profile) (r : ProfileRecord) (loaded next : String) (w : World)
    → IsHealthy w
    → latest p.name w.db.profiles ≡ some r
    → w.env.lib.marshal_profile (record p { version = r.version }) ≡ some r.contents
    → w.env.lib.marshal_profile p ≡ some loaded
    → loaded ≢ r.contents
    → w.env.lib.marshal_profile (record p { version = r.version + 1 }) ≡ some next
    → ((upsert_versioned p w).0 ≡ ok (record p { version = r.version + 1 }))
      × ((row : ProfileRecord) × (first_where
              (λ x. x.name == p.name && nat_eq x.version (r.version + 1))
              (upsert_versioned p w).1.db.profiles
            ≡ some row)
          × (row.contents ≡ next))
upsert_versioned-unchanged p r loaded next w h found old e differ f =
    let done = reloaded p r loaded next w h found e differ f in
    let known = upsert_versioned-ok p (record p { version = r.version + 1 }) w done in
    (done, (known.row, known.stored, ground (arith, known.row_contents, f)))
