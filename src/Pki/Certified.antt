-- ===== src/Pki/Certified.antt =====
-- What the certificate that issue_leaf of internal/pki/leaf.go returns was made from.
use mathlib.Core.Path.{subst}
use trust_mate.Common.{◌≡◌, ◌∙◌, String, List, some, arith, inl, inr, Option-cases, Bool-cases}
use trust_mate.Store.Records.{Time, Bytes}
use trust_mate.Profiles.Types.{Profile}
use trust_mate.Pki.Types.{Name, PublicKey, Issuer, Template, Certificate}
use trust_mate.Pki.Library.{Library}
use trust_mate.Pki.Leaf.{
  CertRequest, build_template, oids_of, leaf_template, leaf_request, generate_serial,
  subject_key_id, issue_leaf,
}
use trust_mate.World.{World}
use trust_mate.Exec.{ok, ◌>>=◌, random_bytes}
use trust_mate.Exec.Inversion.{Result-cases}

-- `cert` is the parsed form of what the issuer signed for the public key
abbrev pub IsCertified : Library → PublicKey → Issuer → Certificate → Type 0
IsCertified lib key issuer cert =
    (t : Template) × (der : Bytes) × (lib.create_certificate t issuer key ≡ some der)
    × (lib.parse_certificate der ≡ some cert)

generate_serial-env : (w : World) → (generate_serial w).1.env ≡ w.env
unfolding generate_serial random_bytes ◌>>=◌
generate_serial-env w = elim (Option-cases (w.env.random_bytes w.tick 20)) [
  | inl e ↦ ground (arith, e)
  | inr (b, e) ↦ ground (arith, e)
]

build_template-env : (req : CertRequest) (w : World) → (build_template req w).1.env ≡ w.env
unfolding build_template ◌>>=◌
build_template-env req w =
    let kept = generate_serial-env w in
    elim (Result-cases (generate_serial w).0) [
      | inr (x, e) ↦ ground (arith, e, kept)
      | inl (n, e) ↦ (elim (Bool-cases req.critical_ext_key_usage) [
        | inr c ↦ ground (arith, e, c, kept)
        | inl c ↦ (elim (Option-cases (oids_of req.ext_key_usage)) [
          | inl o ↦ ground (arith, e, c, o, kept)
          | inr (oids, o) ↦ ground (arith, e, c, o, kept)
        ])
      ])
    ]

subject_key_id-env : (key : PublicKey) (w : World) → (subject_key_id key w).1.env ≡ w.env
unfolding subject_key_id ◌>>=◌
subject_key_id-env key w = elim (Option-cases (w.env.lib.marshal_pkix_public_key key)) [
  | inl e ↦ ground (arith, e)
  | inr (der, e) ↦ (elim (Option-cases (w.env.lib.public_key_bits der)) [
    | inl f ↦ ground (arith, e, f)
    | inr (bits, f) ↦ ground (arith, e, f)
  ])
]

pub issue_leaf-IsCertified :
    (profile : Profile) (subject : Name) (key : PublicKey) (issuer : Issuer) (from until : Time)
    (dns : List String) (w : World) (cert : Certificate)
    → (issue_leaf profile subject key issuer from until dns w).0 ≡ ok cert
    → IsCertified w.env.lib key issuer cert
unfolding issue_leaf leaf_template ◌>>=◌
issue_leaf-IsCertified profile subject key issuer from until dns w cert h =
    let req = leaf_request profile subject key from until dns in
    let u = (build_template req w).1 in
    let v = (subject_key_id key u).1 in
    let kept = subject_key_id-env key u ∙ build_template-env req w in
    elim (Result-cases (build_template req w).0) [
      | inr (x, e) ↦ absurd (ground (arith, h, e))
      | inl (tmpl, e) ↦ (elim (Result-cases (subject_key_id key u).0) [
        | inr (x, f) ↦ absurd (ground (arith, h, e, f))
        | inl (ski, f) ↦
            (let t : Template = record tmpl {
              subject_key_id = ski;
              authority_key_id = issuer.cert.subject_key_id;
            } in
              elim (Option-cases (v.env.lib.create_certificate t issuer key)) [
                | inl g ↦ absurd (ground (arith, h, e, f, g))
                | inr (der, g) ↦
                    subst (λ env. IsCertified env.lib key issuer cert) kept
                      (
                        t,
                        der,
                        g,
                        ground (arith, h, e, f, g, Option-cases (v.env.lib.parse_certificate der)),
                      )
              ])
      ])
    ]
