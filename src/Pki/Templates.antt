-- ===== src/Pki/Templates.antt =====
-- The templates of LeafTemplate in internal/pki/leaf.go.
use mathlib.Core.Path.{subst}
use trust_mate.Common.{
  ◌≡◌, String, inl, inr, true, false, some, List, [], ◌∷◌, arith, ℕ, refl, map, Bool-cases,
  Option-cases,
}
use trust_mate.Store.Records.{Time}
use trust_mate.Profiles.Types.{Profile}
use trust_mate.Pki.Types.{Name, PublicKey, Template}
use trust_mate.Pki.Leaf.{
  build_template, leaf_request, leaf_template, oids_of, ext_key_usage_oid, generate_serial,
  oid_ext_key_usage,
}
use trust_mate.World.{World}
use trust_mate.Exec.{ok, ◌>>=◌}
use trust_mate.Exec.Inversion.{Result-cases}

-- the loop over the usages gives the OID of each
oids_of-map :
    (usages : List ℕ) (oids : List (List ℕ))
    → oids_of usages ≡ some oids
    → map some oids ≡ map ext_key_usage_oid usages
unfolding oids_of
oids_of-map [] oids h = ground (arith, h)
oids_of-map (u ∷ us) oids h = elim (Option-cases (ext_key_usage_oid u)) [
  | inl e ↦ absurd (ground (arith, h, e))
  | inr (oid, e) ↦ (elim (Option-cases (oids_of us)) [
    | inl f ↦ absurd (ground (arith, h, e, f))
    | inr (rest, f) ↦
        (let same : oid ∷ rest ≡ oids = ground (arith, h, e, f) in
          subst (λ o. map some o ≡ map ext_key_usage_oid (u ∷ us)) same
            (rw (e, oids_of-map us rest f) refl))
  ])
]

-- the extended key usages of a profile stand in the template once: in its critical extension, as the
-- OID of each of them in their order, or in its list
pub data UsesOnce (profile : Profile) (t : Template) : Type 0 where
  critical :
      (oids : List (List ℕ))
      → profile.critical_eku ≡ true
      → map some oids ≡ map ext_key_usage_oid profile.ext_key_usage
      → t.ext_key_usage ≡ []
      → t.extra_extensions ≡ record { id = oid_ext_key_usage; critical = true; value = oids } ∷ []
      → UsesOnce profile t
  listed :
      profile.critical_eku ≡ false
      → t.ext_key_usage ≡ profile.ext_key_usage
      → t.extra_extensions ≡ []
      → UsesOnce profile t

-- A template that LeafTemplate makes is never that of a CA, it has the validity and the key usage that
-- were asked for, and the profile's extended key usages stand in it once: all of them in a critical
-- extension where the profile says so, and else in the list.
pub leaf_template-ok :
    (profile : Profile) (subject : Name) (key : PublicKey) (from until : Time) (dns : List String)
    (w : World) (t : Template)
    → (leaf_template profile subject key from until dns w).0 ≡ ok t
    → (t.is_ca ≡ false)
      × (t.not_before ≡ from)
      × (t.not_after ≡ until)
      × (t.key_usage ≡ profile.key_usage)
      × UsesOnce profile t
unfolding leaf_template build_template leaf_request ◌>>=◌
leaf_template-ok profile subject key from until dns w t h =
    elim (Result-cases (generate_serial w).0) [
      | inr (e, p) ↦ absurd (ground (arith, h, p))
      | inl (n, p) ↦ (elim (Bool-cases profile.critical_eku) [
        | inr c ↦ (
          ground (arith, h, p, c),
          ground (arith, h, p, c),
          ground (arith, h, p, c),
          ground (arith, h, p, c),
          listed c (ground (arith, h, p, c)) (ground (arith, h, p, c)),
        )
        | inl c ↦ (elim (Option-cases (oids_of profile.ext_key_usage)) [
          | inl o ↦ absurd (ground (arith, h, p, c, o))
          | inr (oids, o) ↦ (
            ground (arith, h, p, c, o),
            ground (arith, h, p, c, o),
            ground (arith, h, p, c, o),
            ground (arith, h, p, c, o),
            critical oids c (oids_of-map profile.ext_key_usage oids o) (ground (arith, h, p, c, o))
                (ground (arith, h, p, c, o)),
          )
        ])
      ])
    ]
