-- ===== src/Bootstrap/Once.antt =====
-- How often the first run runs.
use mathlib.Core.List.{Memᴰ}
use trust_mate.Common.{
  ◌+◌, ◌≡◌, refl, sym, ◌∙◌, String, Bool, true, false, none, some, List, [], ◌∷◌, arith, inl, inr,
  Bool-cases, select,
}
use mathlib.Core.Path.{subst}
use trust_mate.Store.Records.{root, CertificateRecord, Error, Db}
use trust_mate.Store.Table.{by_key, by_key-append_self}
use trust_mate.Store.Certificates
use trust_mate.Store.Certificates.{serial_of, kind_eq, of_kind}
use trust_mate.Store.Extends.{Extends, Extends-preorder}
use trust_mate.Store.Inserting.{create-ok}
use trust_mate.Store.Members.{first_where-Memᴰ, Memᴰ-select, Memᴰ-order_by}
use trust_mate.Profiles.Types.{ecdsa_p256}
use trust_mate.Pki.Types.{unsupported, Certificate, Issuer}
use trust_mate.Pki.Ca.{self_signed_ca}
use trust_mate.World.{World}
use trust_mate.Exec.{ok, err, ◌>>=◌, now, query}
use trust_mate.Exec.Inversion.{Result-cases}
use trust_mate.Keystore.Store.{KeyStore}
use trust_mate.Config.Types.{Config, root_common_name}
use trust_mate.Bootstrap.Generate.{
  create_cert_record, persist_default_profiles, generate_root, ref_root, common_name, ca_request,
}
use trust_mate.Bootstrap.Run.{after_root, first_run, is_empty, run}
use trust_mate.Bootstrap.Growth.{after_root-Grows}

-- a root certificate is in the ledger
pub record HasRoot (d : Db) : Type 0 where
  pub row : CertificateRecord
  pub there : by_key serial_of row.serial d.certificates ≡ some row
  pub kind : row.kind ≡ root

pub HasRoot-Extends : (a b : Db) → Extends a b → HasRoot a → HasRoot b
HasRoot-Extends a b e h =
    let (s, found, kept) = e.certificates h.row.serial h.row h.there in
    record {
      row = s;
      there = subst (λ k. by_key serial_of k b.certificates ≡ some s) (sym kept.serial) found;
      kind = kept.kind ∙ h.kind;
    }

create_cert_record-HasRoot :
    (cert : Certificate) (profile issuer ref : String) (w : World)
    → (create_cert_record cert root profile issuer ref w).0 ≡ ok tt
    → HasRoot (create_cert_record cert root profile issuer ref w).1.db
unfolding create_cert_record now ◌>>=◌
create_cert_record-HasRoot cert profile issuer ref w h =
    let rec : CertificateRecord = record {
      serial = cert.serial;
      kind = root;
      profile_name = profile;
      subject = cert.subject.text;
      issuer_serial = issuer;
      not_before = cert.not_before;
      not_after = cert.not_after;
      pem = w.env.lib.encode_cert_pem cert.raw;
      key_ref = ref;
      created_at = w.env.clock w.tick;
      revoked_at = none;
      revocation_reason = "";
    } in
    let u : World = record w { tick = w.tick + 1 } in
    let (fresh, after) = create-ok rec u h in
    record {
      row = Certificates.stored rec;
      there =
          subst (λ d. by_key serial_of cert.serial d.certificates ≡ some (Certificates.stored rec))
            (sym after)
            (by_key-append_self serial_of w.db.certificates (Certificates.stored rec) fresh);
      kind = refl;
    }

generate_root-HasRoot :
    (cfg : Config) (ks : KeyStore) (w : World) (r : Issuer)
    → (generate_root cfg ks w).0 ≡ ok r
    → HasRoot (generate_root cfg ks w).1.db
unfolding generate_root now ◌>>=◌
generate_root-HasRoot cfg ks w r h = elim (Result-cases (ks.generate ref_root ecdsa_p256 w).0) [
  | inr (x, g) ↦ absurd (ground (arith, h, g))
  | inl (signer, g) ↦
      (let u = (ks.generate ref_root ecdsa_p256 w).1 in
        let at = u.env.clock u.tick in
        let subject = common_name u.env.lib (root_common_name cfg) in
        let made =
          self_signed_ca (ca_request subject unsupported at (at + cfg.bootstrap.root_validity))
            signer (record u { tick = u.tick + 1 }) in
        elim (Result-cases made.0) [
          | inr (x, p) ↦ absurd (ground (arith, h, g, p))
          | inl (cert, p) ↦
              (let created = create_cert_record cert root "" "" ref_root made.1 in
                elim (Result-cases created.0) [
                  | inr (x, q) ↦ absurd (ground (arith, h, g, p, q))
                  | inl (_, q) ↦
                      (let same : created.1.db ≡ (generate_root cfg ks w).1.db =
                          ground (arith, g, p, q) in
                        subst HasRoot same
                          (create_cert_record-HasRoot cert "" "" ref_root made.1 q))
                ])
        ])
]

is_empty-Memᴰ : {A : Type 0} (x : A) (xs : List A) → Memᴰ x xs → is_empty xs ≡ false
is_empty-Memᴰ x [] m = elim m [ ]
is_empty-Memᴰ x (y ∷ ys) m = refl

-- Where a root certificate is in the ledger and the datastore answers, Run answers that the service is
-- bootstrapped already, and changes nothing, whatever the configuration and the keystore.
pub run-skips :
    (cfg : Config) (ks : KeyStore) (w : World)
    → HasRoot w.db
    → w.env.fault w.tick ≡ false
    → run cfg ks w ≡ (ok true, record w { tick = w.tick + 1 })
unfolding run Certificates.find_by_kind query of_kind ◌>>=◌
run-skips cfg ks w h works =
    let rows = w.db.certificates in
    let p : CertificateRecord → Bool = λ r. kind_eq r.kind root in
    let found : is_empty (of_kind root rows) ≡ false = is_empty-Memᴰ h.row _ (
      Memᴰ-order_by _ h.row (select p rows)
        (Memᴰ-select p h.row rows (rw h.kind refl) (first_where-Memᴰ _ rows h.row h.there))) in
    ground (arith, works, found)

-- what a run that was not skipped leaves
pub run-HasRoot :
    (cfg : Config) (ks : KeyStore) (w : World)
    → (run cfg ks w).0 ≡ ok false
    → HasRoot (run cfg ks w).1.db
unfolding run first_run ◌>>=◌
run-HasRoot cfg ks w h = elim (Result-cases (Certificates.find_by_kind root w).0) [
  | inr (x, e) ↦ absurd (ground (arith, h, e))
  | inl (roots, e) ↦
      (let u = (Certificates.find_by_kind root w).1 in
        elim (Bool-cases (is_empty roots)) [
          | inr b ↦ absurd (ground (arith, h, e, b))
          | inl b ↦ (elim (Result-cases (persist_default_profiles u).0) [
            | inr (x, f) ↦ absurd (ground (arith, h, e, b, f))
            | inl (_, f) ↦
                (let u' = (persist_default_profiles u).1 in
                  elim (Result-cases (generate_root cfg ks u').0) [
                    | inr (x, g) ↦ absurd (ground (arith, h, e, b, f, g))
                    | inl (r, g) ↦
                        (let v = (generate_root cfg ks u').1 in
                          let same : (after_root cfg ks r v).1.db ≡ (run cfg ks w).1.db =
                            ground (arith, e, b, f, g) in
                          subst HasRoot same (
                            HasRoot-Extends v.db _ ((after_root-Grows cfg ks r).at v)
                              (generate_root-HasRoot cfg ks u' r g)))
                  ])
          ])
        ])
]

-- Where a first run has created the root CA and fails after that, every later Run, also one with a keystore
-- that works, answers that the service is bootstrapped already and makes nothing of what is missing, where
-- the datastore answers.
pub run-abandoned :
    (cfg again : Config) (ks ks' : KeyStore) (w v : World) (r : Issuer) (e : Error)
    → (generate_root cfg ks w).0 ≡ ok r
    → (after_root cfg ks r (generate_root cfg ks w).1).0 ≡ err e
    → v.db ≡ (after_root cfg ks r (generate_root cfg ks w).1).1.db
    → v.env.fault v.tick ≡ false
    → run again ks' v ≡ (ok true, record v { tick = v.tick + 1 })
run-abandoned cfg again ks ks' w v r e made failed same works =
    let u = (generate_root cfg ks w).1 in
    let there =
      HasRoot-Extends u.db _ ((after_root-Grows cfg ks r).at u)
        (generate_root-HasRoot cfg ks w r made) in
    run-skips again ks' v (subst HasRoot (sym same) there) works
