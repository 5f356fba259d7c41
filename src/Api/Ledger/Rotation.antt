-- ===== src/Api/Ledger/Rotation.antt =====
-- The rotation of the time-stamp authority's identity, the ledger and the audit log.
use Prim.Native.String
use mathlib.Core.Path.{subst}
use trust_mate.Common.{◌≡◌, sym, String, [], ◌∷◌, ◌++◌, arith, inl, inr, Bool-cases}
use trust_mate.Store.Records.{CertificateRecord, Db}
use trust_mate.Store.Audit
use trust_mate.Pki.Types.{Issuer}
use trust_mate.World.{World}
use trust_mate.Exec.{ok, ◌>>=◌, attempt, modify, statement}
use trust_mate.Exec.Inversion.{Result-cases}
use trust_mate.Keystore.Refs.{fresh_ref}
use trust_mate.Keystore.FreshRefs.{IsFreshRef, fresh_ref-IsFreshRef, fresh_ref-same}
use trust_mate.Tsa.Responder.{rotate, current_issuer}
use trust_mate.Tsa.Identity.{issue_identity}
use trust_mate.Tsa.Ledger.{IsIdentity, issue_identity-IsIdentity}
use trust_mate.Api.Http.{Response}
use trust_mate.Api.Deps.{Deps, count}
use trust_mate.Api.Issuing.{entry}
use trust_mate.Api.Tsa.{identity_params, rotation, switch_identity, handle_rotate_tsa}

-- the world before and after a rotation that was answered with success
pub record IsRotated (deps : Deps) (remote_addr : String) (w v : World) (resp : Response)
    : Type 0 where
  pub ref : String
  pub fresh : IsFreshRef deps.key_store "tsa" ref
  pub issuer : Issuer
  pub rec : CertificateRecord
  pub middle : Db
  pub recorded :
      IsIdentity ref
        (identity_params deps)
        deps.key_store
        deps.intermediate_issuer
        w.db
        middle
        issuer
        rec
  pub audited : v.db ≡ record middle {
    audit_log =
        middle.audit_log
        ++ Audit.stored
            (entry rec.created_at remote_addr "tsa-rotate" rec.serial
              (String.◌++◌ "previous: " w.tsa.issuer.cert.serial))
            middle.audit_log
          ∷ [];
  }
  pub current : v.tsa.issuer ≡ issuer
  pub answer : resp ≡ rotation w.tsa.issuer rec

switch_identity-ok :
    (deps : Deps) (previous issuer : Issuer) (rec : CertificateRecord) (remote_addr : String)
    (w : World) (resp : Response)
    → (switch_identity deps previous issuer rec remote_addr w).0 ≡ ok resp
    → ((switch_identity deps previous issuer rec remote_addr w).1.db ≡ record w.db {
      audit_log =
          w.db.audit_log
          ++ Audit.stored
              (entry rec.created_at remote_addr "tsa-rotate" rec.serial
                (String.◌++◌ "previous: " previous.cert.serial))
              w.db.audit_log
            ∷ [];
    })
      × ((switch_identity deps previous issuer rec remote_addr w).1.tsa.issuer ≡ issuer)
      × (resp ≡ rotation previous rec)
unfolding switch_identity rotate modify attempt count statement Audit.append Audit.insert ◌>>=◌
switch_identity-ok deps previous issuer rec remote_addr w resp h =
    elim (Bool-cases (w.env.fault w.tick)) [
      | inl x ↦ absurd (ground (arith, h, x))
      | inr x ↦ (ground (arith, h, x), ground (arith, h, x), ground (arith, h, x))
    ]

-- Where POST /v1/tsa/rotate is answered with success, with any keystore, the ledger has the new identity's
-- certificate, which the intermediate CA signed for the public part of a key that the keystore made under a
-- fresh ref; the audit log has the entry with the previous serial; the responder signs with that key and
-- certificate; and the answer reports both serials. No other table has changed, so the previous certificate
-- is not revoked.
pub handle_rotate_tsa-IsRotated :
    (deps : Deps) (remote_addr : String) (w : World) (resp : Response)
    → (handle_rotate_tsa deps remote_addr w).0 ≡ ok resp
    → IsRotated deps remote_addr w (handle_rotate_tsa deps remote_addr w).1 resp
unfolding handle_rotate_tsa current_issuer attempt ◌>>=◌
handle_rotate_tsa-IsRotated deps remote_addr w resp h =
    let ks = deps.key_store in
    elim (Result-cases (fresh_ref ks "tsa" w).0) [
      | inr (x, e) ↦ absurd (ground (arith, h, e))
      | inl (ref, e) ↦
          (let u = (fresh_ref ks "tsa" w).1 in
            let made = issue_identity ref (identity_params deps) ks deps.intermediate_issuer u in
            let first : w.db ≡ u.db = (fresh_ref-same ks "tsa").at w in
            elim (Result-cases made.0) [
              | inr (x, f) ↦ absurd (ground (arith, h, e, f))
              | inl ((issuer, rec), f) ↦
                  (let known =
                      issue_identity-IsIdentity ref (identity_params deps) ks
                        deps.intermediate_issuer u issuer rec f in
                    let last = switch_identity deps w.tsa.issuer issuer rec remote_addr made.1 in
                    let same : handle_rotate_tsa deps remote_addr w ≡ last = ground (arith, e, f) in
                    let (audited, current, answer) =
                      switch_identity-ok deps w.tsa.issuer issuer rec remote_addr made.1 resp
                        (rw (sym same) h) in
                    record {
                      ref = ref;
                      fresh = fresh_ref-IsFreshRef ks "tsa" w ref e;
                      issuer = issuer;
                      rec = rec;
                      middle = made.1.db;
                      recorded =
                          subst
                            (λ d.
                              IsIdentity ref (identity_params deps) deps.key_store
                                deps.intermediate_issuer d made.1.db issuer rec)
                            (sym first) known;
                      audited = rw same audited;
                      current = rw same current;
                      answer = answer;
                    })
            ])
    ]
