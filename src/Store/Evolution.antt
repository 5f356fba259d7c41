-- ===== src/Store/Evolution.antt =====
-- The operations of the repositories, and the relation `Extends`.
use trust_mate.Common.{ℕ, ◌<◌, String}
use trust_mate.Store.Records.{
  Time, CertKind, CertificateRecord, ClientRoleRecord, EabTokenRecord, AccountRecord, OrderRecord,
  AuditEntry, ProfileRecord, OrderStatus,
}
use trust_mate.Store.Certificates
use trust_mate.Store.ClientRoles
use trust_mate.Store.EabTokens
use trust_mate.Store.Accounts
use trust_mate.Store.Orders
use trust_mate.Store.Nonces
use trust_mate.Store.Audit
use trust_mate.Store.Profiles
use trust_mate.Store.Extends.{Extends, Extends-preorder, rank}
use trust_mate.Store.Extends.Statements.{
  insert_certificate-Extends, mark_revoked-Extends, upsert_role-Extends, insert_token-Extends,
  claim-Extends, insert_account-Extends, insert_order-Extends, compare_and_swap-Extends,
  insert_nonce-Extends, delete_nonce-Extends, insert_audit-Extends, write_profile-Extends,
}
use trust_mate.Exec.{Exec, statement}
use trust_mate.Exec.Evolves.{Evolves, Evolves-statement, Evolves-query, evolves_rules}

abbrev pub Grows : {E A : Type 0} → Exec E A → Type 0
Grows m = Evolves Extends m

pub create_certificate-Grows : (rec : CertificateRecord) → Grows (Certificates.create rec)
unfolding Certificates.create
create_certificate-Grows rec = Evolves-statement _ (λ d. (insert_certificate-Extends d rec).at)

pub assign_role-Grows : (rec : ClientRoleRecord) → Grows (ClientRoles.assign rec)
unfolding ClientRoles.assign
assign_role-Grows rec = Evolves-statement _ (λ d. (upsert_role-Extends d rec).at)

pub create_token-Grows : (rec : EabTokenRecord) → Grows (EabTokens.create rec)
unfolding EabTokens.create
create_token-Grows rec = Evolves-statement _ (λ d. (insert_token-Extends d rec).at)

pub create_account-Grows : (rec : AccountRecord) → Grows (Accounts.create rec)
unfolding Accounts.create
create_account-Grows rec = Evolves-statement _ (λ d. (insert_account-Extends d rec).at)

pub create_order-Grows : (rec : OrderRecord) → Grows (Orders.create rec)
unfolding Orders.create
create_order-Grows rec = Evolves-statement _ (λ d. (insert_order-Extends d rec).at)

pub append_audit-Grows : (entry : AuditEntry) → Grows (Audit.append entry)
unfolding Audit.append
append_audit-Grows entry = Evolves-statement _ (λ d. (insert_audit-Extends d entry).at)

pub upsert_profile-Grows : (rec : ProfileRecord) → Grows (Profiles.upsert rec)
unfolding Profiles.upsert
upsert_profile-Grows rec = Evolves-statement _ (λ d. (write_profile-Extends d rec).at)

pub get_certificate-Grows : (serial : String) → Grows (Certificates.get_by_serial serial)
unfolding Certificates.get_by_serial
get_certificate-Grows serial = Evolves-query _

pub find_by_kind-Grows : (kind : CertKind) → Grows (Certificates.find_by_kind kind)
unfolding Certificates.find_by_kind
find_by_kind-Grows kind = Evolves-query _

pub get_latest_by_profile-Grows : (name : String) → Grows (Certificates.get_latest_by_profile name)
unfolding Certificates.get_latest_by_profile
get_latest_by_profile-Grows name = Evolves-query _

pub find_revoked-Grows : Grows (Certificates.find_revoked)
unfolding Certificates.find_revoked
find_revoked-Grows = Evolves-query _

pub get_role-Grows : (serial : String) → Grows (ClientRoles.get serial)
unfolding ClientRoles.get
get_role-Grows serial = Evolves-query _

pub list_roles-Grows : Grows (ClientRoles.list)
unfolding ClientRoles.list
list_roles-Grows = Evolves-query _

pub get_token-Grows : (key_id : String) → Grows (EabTokens.get key_id)
unfolding EabTokens.get
get_token-Grows key_id = Evolves-query _

pub get_by_thumbprint-Grows : (thumbprint : String) → Grows (Accounts.get_by_thumbprint thumbprint)
unfolding Accounts.get_by_thumbprint
get_by_thumbprint-Grows thumbprint = Evolves-query _

pub get_account-Grows : (id : String) → Grows (Accounts.get_by_id id)
unfolding Accounts.get_by_id
get_account-Grows id = Evolves-query _

pub get_order-Grows : (id : String) → Grows (Orders.get id)
unfolding Orders.get
get_order-Grows id = Evolves-query _

pub list_audit-Grows : (limit : ℕ) → Grows (Audit.list limit)
unfolding Audit.list
list_audit-Grows limit = Evolves-query _

pub get_profile-Grows : (name : String) → Grows (Profiles.get name)
unfolding Profiles.get
get_profile-Grows name = Evolves-query _

mark_revoked-Grows :
    (serial reason : String) (at : Time)
    → Grows (statement (Certificates.mark_revoked serial reason at))
mark_revoked-Grows serial reason at =
    Evolves-statement _ (λ d. (mark_revoked-Extends d serial reason at).at)

pub revoke-Grows :
    (serial reason : String) (at : Time) → Grows (Certificates.revoke serial reason at)
unfolding Certificates.revoke
revoke-Grows serial reason at = search (evolves_rules, get_certificate-Grows, mark_revoked-Grows)

claim-Grows : (key_id : String) (now : Time) → Grows (statement (EabTokens.claim key_id now))
claim-Grows key_id now = Evolves-statement _ (λ d. (claim-Extends d key_id now).at)

pub mark_consumed-Grows :
    (key_id : String) (now : Time) → Grows (EabTokens.mark_consumed key_id now)
unfolding EabTokens.mark_consumed
mark_consumed-Grows key_id now = search (evolves_rules, claim-Grows) depth 7

compare_and_swap-Grows :
    (id : String) (from to : OrderStatus) (cert_serial : String)
    → rank from < rank to
    → Grows (statement (Orders.compare_and_swap id from to cert_serial))
compare_and_swap-Grows id from to cert_serial up =
    Evolves-statement _ (λ d. (compare_and_swap-Extends d id cert_serial from to up).at)

pub update_status-Grows :
    (id : String) (from to : OrderStatus) (cert_serial : String)
    → rank from < rank to
    → Grows (Orders.update_status id from to cert_serial)
unfolding Orders.update_status
update_status-Grows id from to cert_serial up =
    search (evolves_rules, compare_and_swap-Grows) depth 7

insert_nonce-Grows :
    (nonce : String) (expires_at : Time) → Grows (statement (Nonces.insert nonce expires_at))
insert_nonce-Grows nonce expires_at =
    Evolves-statement _ (λ d. (insert_nonce-Extends d nonce expires_at).at)

pub issue_nonce-Grows : (expires_at : Time) → Grows (Nonces.issue expires_at)
unfolding Nonces.issue
issue_nonce-Grows expires_at = search (evolves_rules, insert_nonce-Grows)

delete_nonce-Grows : (nonce : String) (now : Time) → Grows (statement (Nonces.delete nonce now))
delete_nonce-Grows nonce now = Evolves-statement _ (λ d. (delete_nonce-Extends d nonce now).at)

pub consume_if_valid-Grows :
    (nonce : String) (now : Time) → Grows (Nonces.consume_if_valid nonce now)
unfolding Nonces.consume_if_valid
consume_if_valid-Grows nonce now = search (evolves_rules, delete_nonce-Grows)

pub ruleset store_grows = (
  evolves_rules, create_certificate-Grows, assign_role-Grows, create_token-Grows,
  create_account-Grows, create_order-Grows, append_audit-Grows, upsert_profile-Grows,
  get_certificate-Grows, find_by_kind-Grows, get_latest_by_profile-Grows, find_revoked-Grows,
  get_role-Grows, list_roles-Grows, get_token-Grows, get_by_thumbprint-Grows, get_account-Grows,
  get_order-Grows, list_audit-Grows, get_profile-Grows, revoke-Grows, mark_consumed-Grows,
  issue_nonce-Grows, consume_if_valid-Grows,
)
