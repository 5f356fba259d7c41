-- ===== src/Store/Extends/Statements.antt =====
-- `Extends` for the statements of the repositories.
use trust_mate.Common.{◌<◌, ◌≡◌, refl, arith, String, of_if_absent, of_if}
use trust_mate.Store.Records.{
  Time, CertificateRecord, ClientRoleRecord, EabTokenRecord, AccountRecord, OrderRecord, AuditEntry,
  ProfileRecord, OrderStatus, Error, Db,
}
use trust_mate.Store.Table.{
  KeepsRows-append, KeepsRows-update, IsUnique-append, IsUnique-update, IsUnique-delete,
}
use trust_mate.Store.Certificates
use trust_mate.Store.Certificates.{serial_of, is_revoked}
use trust_mate.Store.ClientRoles
use trust_mate.Store.ClientRoles.{holder, held_by, with_role}
use trust_mate.Store.EabTokens
use trust_mate.Store.EabTokens.{key_of}
use trust_mate.Store.Accounts
use trust_mate.Store.Orders
use trust_mate.Store.Nonces
use trust_mate.Store.Audit
use trust_mate.Store.Profiles
use trust_mate.Store.Extends.Keys.{IsNumbered-append, IsVersioned-append, IsVersioned-update}
use trust_mate.Exec.{Result}
use trust_mate.Store.Extends.{
  CertificateKept, TokenKept, OrderKept, RoleKept, Extends, Extends-refl, rank,
  CertificateKept-refl, TokenKept-refl, OrderKept-refl,
}
use trust_mate.Store.Extends.Tables.{
  Extends-certificates, Extends-client_roles, Extends-eab_tokens, Extends-accounts, Extends-orders,
  Extends-audit_log, Extends-nonces, Extends-profiles,
}

-- Every statement that the program runs, on every table it can meet.
pub record After (d : Db) {A : Type 0} (x : Result Error A × Db) : Type 0 where
  pub at : Extends d x.1

module _ (d : Db) where
  unchanged : {A : Type 0} (r : Result Error A) → After d (r, d)
  unchanged r = record { at = Extends-refl d }

  pub insert_certificate-Extends : (rec : CertificateRecord) → After d (Certificates.insert rec d)
  unfolding Certificates.insert
  insert_certificate-Extends rec =
      of_if_absent (After d) _ _ _
        (λ fresh.
          of_if (After d) (Certificates.issuer_exists rec d.certificates) _ _
            (record {
              at =
                  Extends-certificates d _
                    (KeepsRows-append serial_of CertificateKept CertificateKept-refl _ _)
                    (λ u.
                      IsUnique-append serial_of d.certificates (Certificates.stored rec) u fresh);
            })
            (unchanged _))
        (λ _ _. unchanged _)

  pub mark_revoked-Extends :
      (serial reason : String) (at : Time) → After d (Certificates.mark_revoked serial reason at d)
  unfolding Certificates.mark_revoked
  mark_revoked-Extends serial reason at = record {
    at =
        Extends-certificates d _
          (KeepsRows-update serial_of CertificateKept _ _ (λ r. refl) (λ r. ground arith) _)
          (IsUnique-update serial_of _ (λ r. refl) _ d.certificates);
  }

  pub upsert_role-Extends : (rec : ClientRoleRecord) → After d (ClientRoles.upsert rec d)
  unfolding ClientRoles.upsert
  upsert_role-Extends rec =
      of_if_absent (After d) _ _ _ (λ _. unchanged _)
        (λ _ _.
          of_if_absent (After d) _ _ _
            (λ fresh. record {
              at =
                  Extends-client_roles d _ (KeepsRows-append holder RoleKept (λ r. refl) _ _)
                    (λ u. IsUnique-append holder d.client_roles (ClientRoles.stored rec) u fresh);
            })
            (λ _ _. record {
              at =
                  Extends-client_roles d _
                    (KeepsRows-update holder RoleKept (held_by rec) (with_role rec) (λ r. refl)
                      (λ r. ground arith) _)
                    (IsUnique-update holder (with_role rec) (λ r. refl) (held_by rec)
                      d.client_roles);
            }))

  pub insert_token-Extends : (rec : EabTokenRecord) → After d (EabTokens.insert rec d)
  unfolding EabTokens.insert
  insert_token-Extends rec =
      of_if_absent (After d) _ _ _
        (λ fresh. record {
          at =
              Extends-eab_tokens d _ (KeepsRows-append key_of TokenKept TokenKept-refl _ _)
                (λ u. IsUnique-append key_of d.eab_tokens (EabTokens.stored rec) u fresh);
        })
        (λ _ _. unchanged _)

  pub claim-Extends : (key_id : String) (now : Time) → After d (EabTokens.claim key_id now d)
  unfolding EabTokens.claim
  claim-Extends key_id now = record {
    at =
        Extends-eab_tokens d _
          (KeepsRows-update key_of TokenKept _ _ (λ r. refl) (λ r. ground arith) _)
          (IsUnique-update key_of _ (λ r. refl) _ d.eab_tokens);
  }

  pub insert_account-Extends : (rec : AccountRecord) → After d (Accounts.insert rec d)
  unfolding Accounts.insert
  insert_account-Extends rec =
      of_if_absent (After d) _ _ _
        (λ fresh.
          of_if_absent (After d) _ _ _
            (λ new.
              of_if_absent (After d) _ _ _ (λ _. unchanged _)
                (λ _ _. record {
                  at =
                      Extends-accounts d _ (KeepsRows-append Accounts.id_of ◌≡◌ (λ r. refl) _ _)
                        (λ u.
                          IsUnique-append Accounts.id_of d.accounts (Accounts.stored rec) u fresh)
                        (λ v.
                          IsUnique-append Accounts.thumbprint_of d.accounts (Accounts.stored rec) v
                            new);
                }))
            (λ _ _. unchanged _))
        (λ _ _. unchanged _)

  pub insert_order-Extends : (rec : OrderRecord) → After d (Orders.insert rec d)
  unfolding Orders.insert
  insert_order-Extends rec =
      of_if_absent (After d) _ _ _
        (λ fresh.
          of_if_absent (After d) _ _ _ (λ _. unchanged _)
            (λ _ _. record {
              at =
                  Extends-orders d _ (KeepsRows-append Orders.id_of OrderKept OrderKept-refl _ _)
                    (λ u. IsUnique-append Orders.id_of d.orders (Orders.stored rec) u fresh);
            }))
        (λ _ _. unchanged _)

  pub compare_and_swap-Extends :
      (id cert_serial : String) (from to : OrderStatus)
      → rank from < rank to
      → After d (Orders.compare_and_swap id from to cert_serial d)
  unfolding Orders.compare_and_swap
  compare_and_swap-Extends id cert_serial from to up = record {
    at =
        Extends-orders d _
          (KeepsRows-update Orders.id_of OrderKept _ _ (λ r. refl) (λ r. ground arith) _)
          (IsUnique-update Orders.id_of _ (λ r. refl) _ d.orders);
  }

  pub insert_nonce-Extends :
      (nonce : String) (expires_at : Time) → After d (Nonces.insert nonce expires_at d)
  unfolding Nonces.insert
  insert_nonce-Extends nonce expires_at =
      of_if_absent (After d) _ _ _
        (λ fresh. record {
          at = Extends-nonces d _ (λ u. IsUnique-append Nonces.nonce_of d.nonces _ u fresh);
        })
        (λ _ _. unchanged _)

  pub delete_nonce-Extends : (nonce : String) (now : Time) → After d (Nonces.delete nonce now d)
  unfolding Nonces.delete
  delete_nonce-Extends nonce now = record {
    at = Extends-nonces d _ (IsUnique-delete Nonces.nonce_of _ d.nonces);
  }

  pub insert_audit-Extends : (entry : AuditEntry) → After d (Audit.insert entry d)
  unfolding Audit.insert
  insert_audit-Extends entry = record {
    at = Extends-audit_log d _ _ refl (IsNumbered-append d.audit_log entry);
  }

  pub write_profile-Extends : (rec : ProfileRecord) → After d (Profiles.write rec d)
  unfolding Profiles.write
  write_profile-Extends rec =
      of_if_absent (After d) _ _ _
        (λ fresh. record {
          at = Extends-profiles d _ (λ u. IsVersioned-append d.profiles _ u fresh);
        })
        (λ _ _. record {
          at = Extends-profiles d _ (IsVersioned-update _ _ (λ r. (refl, refl)) d.profiles);
        })
