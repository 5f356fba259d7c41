-- ===== src/Tsa/Ledger.antt =====
-- A new identity of the time-stamp authority and the ledger.
use mathlib.Core.Path.{subst}
use trust_mate.Common.{◌+◌, ◌≡◌, refl, ap, ◌∙◌, String, none, [], ◌∷◌, ◌++◌, arith, inl, inr}
use trust_mate.Store.Records.{CertificateRecord, Db}
use trust_mate.Store.Table.{by_key}
use trust_mate.Store.Certificates
use trust_mate.Store.Certificates.{serial_of}
use trust_mate.Store.Inserting.{create-ok}
use trust_mate.Profiles.Types.{ecdsa_p256}
use trust_mate.Pki.Types.{Name, Issuer}
use trust_mate.Pki.Leaf.{issue_leaf}
use trust_mate.Pki.Certified.{IsCertified, issue_leaf-IsCertified}
use trust_mate.Pki.Reads.{issue_leaf-Evolves}
use trust_mate.World.{World}
use trust_mate.Exec.{ok, ◌>>=◌, now}
use trust_mate.Exec.Evolves.{SameDb, SameDb-preorder}
use trust_mate.Exec.Inversion.{Result-cases}
use trust_mate.Keystore.Store.{KeyStore}
use trust_mate.Tsa.Identity.{IdentityParams, identity_profile, identity_record, issue_identity}

-- the ledger before and after an identity was issued under `ref`
pub record IsIdentity (ref : String) (params : IdentityParams) (ks : KeyStore) (inter : Issuer)
    (before after : Db) (issuer : Issuer) (rec : CertificateRecord) : Type 0 where
  -- the keystore made the signing key under `ref`
  pub asked : World
  pub ledger : asked.db ≡ before
  pub generated : (ks.generate ref ecdsa_p256 asked).0 ≡ ok issuer.signer
  -- and the intermediate CA signed a certificate for its public part
  pub certified :
      (let lib = (ks.generate ref ecdsa_p256 asked).1.env.lib in
        IsCertified lib (lib.public_of issuer.signer) inter issuer.cert)
  pub serial : rec.serial ≡ issuer.cert.serial
  pub key : rec.key_ref ≡ ref
  pub parent : rec.issuer_serial ≡ inter.cert.serial
  pub new : by_key serial_of rec.serial before.certificates ≡ none
  pub row :
      after ≡ record before { certificates = before.certificates ++ Certificates.stored rec ∷ [] }

-- Where IssueIdentity succeeds, with any keystore, the ledger has one row more, under a serial that it did
-- not have: the new certificate, which names the intermediate CA as its issuer and the key's ref; no other
-- table has changed. The identity signs with the key that the keystore made under that ref, and its
-- certificate is one that the intermediate CA signed for the public part of this key.
pub issue_identity-IsIdentity :
    (ref : String) (params : IdentityParams) (ks : KeyStore) (inter : Issuer) (w : World)
    (issuer : Issuer) (rec : CertificateRecord)
    → (issue_identity ref params ks inter w).0 ≡ ok (issuer, rec)
    → IsIdentity ref params ks inter w.db (issue_identity ref params ks inter w).1.db issuer rec
unfolding issue_identity identity_record now ◌>>=◌
issue_identity-IsIdentity ref params ks inter w issuer rec h =
    elim (Result-cases (ks.generate ref ecdsa_p256 w).0) [
      | inr (e, g) ↦ absurd (ground (arith, h, g))
      | inl (signer, g) ↦
          (let u = (ks.generate ref ecdsa_p256 w).1 in
            let lib = u.env.lib in
            let profile = identity_profile params in
            let at = u.env.clock u.tick in
            let u' : World = record u { tick = u.tick + 1 } in
            let subject : Name = record {
              common_name = params.common_name;
              text = lib.name_string params.common_name;
            } in
            let made =
              issue_leaf profile subject (lib.public_of signer) inter at (at + params.validity) []
                u' in
            let first : w.db ≡ u.db = (ks.generate_same ref ecdsa_p256).at w in
            let then_on : u.db ≡ made.1.db =
              (issue_leaf-Evolves {R = SameDb} profile subject (lib.public_of signer) inter at
                  (at + params.validity) []).at
                u' in
            elim (Result-cases made.0) [
              | inr (e, p) ↦ absurd (ground (arith, h, g, p))
              | inl (cert, p) ↦
                  (let r = identity_record lib ref profile inter cert at in
                    elim (Result-cases (Certificates.create r made.1).0) [
                      | inr (e, q) ↦ absurd (ground (arith, h, g, p, q))
                      | inl (_, q) ↦
                          (let (fresh, inserted) = create-ok r made.1 q in
                            let same : r ≡ rec = ground (arith, h, g, p, q) in
                            let whole : (issue_identity ref params ks inter w).1.db
                                ≡ (Certificates.create r made.1).1.db =
                              ground (arith, g, p, q) in
                            let mine : signer ≡ issuer.signer = ground (arith, h, g, p, q) in
                            let its : cert ≡ issuer.cert = ground (arith, h, g, p, q) in
                            record {
                              asked = w;
                              ledger = refl;
                              generated = g ∙ ap ok mine;
                              certified =
                                  subst (λ x. IsCertified lib (lib.public_of x) inter issuer.cert)
                                    mine
                                    (subst (λ x. IsCertified lib (lib.public_of signer) inter x) its
                                      (issue_leaf-IsCertified profile subject (lib.public_of signer)
                                        inter at (at + params.validity) [] u' cert p));
                              serial = ground (arith, h, g, p, q);
                              key = ground (arith, h, g, p, q);
                              parent = ground (arith, h, g, p, q);
                              new = ground (arith, same, fresh, first, then_on);
                              row = ground (arith, same, inserted, first, then_on, whole);
                            })
                    ])
            ])
    ]
