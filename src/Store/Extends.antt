-- ===== src/Store/Extends.antt =====
-- The relation between a datastore and a later one: what happens to the rows of each table, by key.
pub mod Keys
pub mod Tables
pub mod Statements
use mathlib.Core.List.{append-nil, append_assoc}
use trust_mate.Common.{
  ℕ, ◌+◌, nat_eq, ◌≤◌, ◌<◌, ◌≡◌, ◌≢◌, refl, Bool, true, false, Option, none, some, List, [], ◌∷◌,
  ◌++◌, arith, ◌&&◌, ◌==◌, String, ap, sym, ◌∙◌, if◌then◌else◌, of_if_absent, of_if,
}
use trust_mate.Store.Records.{
  Time, CertificateRecord, ClientRoleRecord, EabTokenRecord, AccountRecord, OrderRecord, AuditEntry,
  NonceRow, ProfileRecord, OrderStatus, ready, processing, valid, Error, Db,
}
use trust_mate.Store.Table.{
  first_where, KeepsRows, KeepsRows-refl, KeepsRows-append, KeepsRows-trans, KeepsRows-update,
  IsUnique, IsUnique-append, IsUnique-update, IsUnique-delete,
}
use trust_mate.Store.Certificates
use trust_mate.Store.Certificates.{serial_of, is_revoked}
use trust_mate.Store.ClientRoles
use trust_mate.Store.ClientRoles.{holder, held_by, with_role}
use trust_mate.Store.EabTokens
use trust_mate.Store.EabTokens.{key_of}
use trust_mate.Store.Accounts
use trust_mate.Store.Orders
use trust_mate.Store.Nonces
use trust_mate.Store.Audit
use trust_mate.Store.Profiles
use trust_mate.Exec.{Result}
use trust_mate.Exec.Evolves.{IsPreorder}

-- A certificate's row changes by its revocation only, and that once: in no other column, and not before it.
pub record CertificateKept (r s : CertificateRecord) : Type 0 where
  pub serial : s.serial ≡ r.serial
  pub kind : s.kind ≡ r.kind
  pub profile_name : s.profile_name ≡ r.profile_name
  pub subject : s.subject ≡ r.subject
  pub issuer_serial : s.issuer_serial ≡ r.issuer_serial
  pub not_before : s.not_before ≡ r.not_before
  pub not_after : s.not_after ≡ r.not_after
  pub pem : s.pem ≡ r.pem
  pub key_ref : s.key_ref ≡ r.key_ref
  pub created_at : s.created_at ≡ r.created_at
  pub revoked : is_revoked r ≡ true → s ≡ r
  pub unrevoked : is_revoked s ≡ false → s ≡ r

pub record TokenKept (r s : EabTokenRecord) : Type 0 where
  pub hmac_key : s.hmac_key ≡ r.hmac_key
  pub role : s.role ≡ r.role
  pub expires_at : s.expires_at ≡ r.expires_at
  pub consumed : r.consumed ≡ true → s.consumed ≡ true

abbrev pub rank : OrderStatus → ℕ
rank ready = 0
rank processing = 1
rank valid = 2

pub record OrderKept (r s : OrderRecord) : Type 0 where
  pub account_id : s.account_id ≡ r.account_id
  pub identifier : s.identifier ≡ r.identifier
  pub forward : rank r.status ≤ rank s.status
  pub final : r.status ≡ valid → s ≡ r

abbrev pub RoleKept : ClientRoleRecord → ClientRoleRecord → Type 0
RoleKept r s = s.created_at ≡ r.created_at

-- no two profiles with the same name and version
abbrev pub IsVersioned : List ProfileRecord → Type 0
IsVersioned [] = Unit
IsVersioned (r ∷ rows) =
    (first_where (λ x. x.name == r.name && nat_eq x.version r.version) rows ≡ none)
    × IsVersioned rows

-- the ids of the entries count up from n
abbrev pub IsNumbered : ℕ → List AuditEntry → Type 0
IsNumbered n [] = Unit
IsNumbered n (e ∷ es) = (e.id ≡ n) × IsNumbered (n + 1) es

-- Primary keys and unique indices hold.
pub record IsKeyed (d : Db) : Type 0 where
  pub certificates : IsUnique serial_of d.certificates
  pub client_roles : IsUnique holder d.client_roles
  pub eab_tokens : IsUnique key_of d.eab_tokens
  pub accounts : IsUnique Accounts.id_of d.accounts
  pub thumbprints : IsUnique Accounts.thumbprint_of d.accounts
  pub orders : IsUnique Orders.id_of d.orders
  pub nonces : IsUnique Nonces.nonce_of d.nonces
  pub profiles : IsVersioned d.profiles
  pub audit_log : IsNumbered 1 d.audit_log

pub record Extends (a b : Db) : Type 0 where
  pub certificates : KeepsRows serial_of CertificateKept a.certificates b.certificates
  pub client_roles : KeepsRows holder RoleKept a.client_roles b.client_roles
  pub eab_tokens : KeepsRows key_of TokenKept a.eab_tokens b.eab_tokens
  pub accounts : KeepsRows Accounts.id_of ◌≡◌ a.accounts b.accounts
  pub orders : KeepsRows Orders.id_of OrderKept a.orders b.orders
  pub audit_log : (more : List AuditEntry) × (b.audit_log ≡ a.audit_log ++ more)
  pub keyed : IsKeyed a → IsKeyed b

pub CertificateKept-refl : (r : CertificateRecord) → CertificateKept r r
CertificateKept-refl r = ground arith

CertificateKept-trans :
    (r s t : CertificateRecord) → CertificateKept r s → CertificateKept s t → CertificateKept r t
CertificateKept-trans r s t h k = record {
  serial = k.serial ∙ h.serial;
  kind = k.kind ∙ h.kind;
  profile_name = k.profile_name ∙ h.profile_name;
  subject = k.subject ∙ h.subject;
  issuer_serial = k.issuer_serial ∙ h.issuer_serial;
  not_before = k.not_before ∙ h.not_before;
  not_after = k.not_after ∙ h.not_after;
  pem = k.pem ∙ h.pem;
  key_ref = k.key_ref ∙ h.key_ref;
  created_at = k.created_at ∙ h.created_at;
  revoked = λ e. let same = h.revoked e in k.revoked (ap is_revoked same ∙ e) ∙ same;
  unrevoked = λ e. let same = k.unrevoked e in same ∙ h.unrevoked (ap is_revoked (sym same) ∙ e);
}

pub TokenKept-refl : (r : EabTokenRecord) → TokenKept r r
TokenKept-refl r = ground arith

TokenKept-trans : (r s t : EabTokenRecord) → TokenKept r s → TokenKept s t → TokenKept r t
TokenKept-trans r s t h k = ground (arith, h.consumed, k.consumed)

pub OrderKept-refl : (r : OrderRecord) → OrderKept r r
OrderKept-refl r = ground arith

OrderKept-trans : (r s t : OrderRecord) → OrderKept r s → OrderKept s t → OrderKept r t
OrderKept-trans r s t h k = ground (arith, h.final, k.final)

pub Extends-refl : (a : Db) → Extends a a
Extends-refl a = record {
  certificates = KeepsRows-refl serial_of CertificateKept CertificateKept-refl a.certificates;
  client_roles = KeepsRows-refl holder RoleKept (λ r. refl) a.client_roles;
  eab_tokens = KeepsRows-refl key_of TokenKept TokenKept-refl a.eab_tokens;
  accounts = KeepsRows-refl Accounts.id_of ◌≡◌ (λ r. refl) a.accounts;
  orders = KeepsRows-refl Orders.id_of OrderKept OrderKept-refl a.orders;
  audit_log = ([], sym (append-nil a.audit_log));
  keyed = λ u. u;
}

Extends-trans : (a b c : Db) → Extends a b → Extends b c → Extends a c
Extends-trans a b c h k = record {
  certificates =
      KeepsRows-trans serial_of CertificateKept CertificateKept-trans a.certificates b.certificates
        c.certificates h.certificates k.certificates;
  client_roles =
      KeepsRows-trans holder RoleKept (λ r s t p q. q ∙ p) a.client_roles b.client_roles
        c.client_roles h.client_roles k.client_roles;
  eab_tokens =
      KeepsRows-trans key_of TokenKept TokenKept-trans a.eab_tokens b.eab_tokens c.eab_tokens
        h.eab_tokens k.eab_tokens;
  accounts =
      KeepsRows-trans Accounts.id_of ◌≡◌ (λ r s t p q. p ∙ q) a.accounts b.accounts c.accounts
        h.accounts k.accounts;
  orders =
      KeepsRows-trans Orders.id_of OrderKept OrderKept-trans a.orders b.orders c.orders h.orders
        k.orders;
  audit_log =
      let (xs, p) = h.audit_log in
      let (ys, q) = k.audit_log in
      (xs ++ ys, q ∙ ap (λ l. l ++ ys) p ∙ append_assoc a.audit_log xs ys);
  keyed = λ u. k.keyed (h.keyed u);
}

instance pub Extends-preorder : IsPreorder Extends
Extends-preorder = record { same = Extends-refl; then_also = Extends-trans }
