-- ===== src/Store/Extends/Tables.antt =====
-- `Extends` where a write is to one table.
use trust_mate.Common.{◌≡◌, List, ◌++◌}
use trust_mate.Store.Records.{
  CertificateRecord, ClientRoleRecord, EabTokenRecord, AccountRecord, OrderRecord, AuditEntry,
  NonceRow, ProfileRecord, Db,
}
use trust_mate.Store.Table.{KeepsRows, IsUnique}
use trust_mate.Store.Certificates.{serial_of}
use trust_mate.Store.ClientRoles.{holder}
use trust_mate.Store.EabTokens.{key_of}
use trust_mate.Store.Accounts
use trust_mate.Store.Orders
use trust_mate.Store.Nonces
use trust_mate.Store.Extends.{
  CertificateKept, TokenKept, OrderKept, RoleKept, IsVersioned, IsNumbered, Extends, Extends-refl,
}

module _ (d : Db) where
  pub Extends-certificates :
      (rows : List CertificateRecord)
      → KeepsRows serial_of CertificateKept d.certificates rows
      → (IsUnique serial_of d.certificates → IsUnique serial_of rows)
      → Extends d (record d { certificates = rows })
  Extends-certificates rows h u = record {
    certificates = h;
    client_roles = (Extends-refl d).client_roles;
    eab_tokens = (Extends-refl d).eab_tokens;
    accounts = (Extends-refl d).accounts;
    orders = (Extends-refl d).orders;
    audit_log = (Extends-refl d).audit_log;
    keyed = λ k. record {
      certificates = u k.certificates;
      client_roles = k.client_roles;
      eab_tokens = k.eab_tokens;
      accounts = k.accounts;
      thumbprints = k.thumbprints;
      orders = k.orders;
      nonces = k.nonces;
      profiles = k.profiles;
      audit_log = k.audit_log;
    };
  }

  pub Extends-client_roles :
      (rows : List ClientRoleRecord)
      → KeepsRows holder RoleKept d.client_roles rows
      → (IsUnique holder d.client_roles → IsUnique holder rows)
      → Extends d (record d { client_roles = rows })
  Extends-client_roles rows h u = record {
    certificates = (Extends-refl d).certificates;
    client_roles = h;
    eab_tokens = (Extends-refl d).eab_tokens;
    accounts = (Extends-refl d).accounts;
    orders = (Extends-refl d).orders;
    audit_log = (Extends-refl d).audit_log;
    keyed = λ k. record {
      certificates = k.certificates;
      client_roles = u k.client_roles;
      eab_tokens = k.eab_tokens;
      accounts = k.accounts;
      thumbprints = k.thumbprints;
      orders = k.orders;
      nonces = k.nonces;
      profiles = k.profiles;
      audit_log = k.audit_log;
    };
  }

  pub Extends-eab_tokens :
      (rows : List EabTokenRecord)
      → KeepsRows key_of TokenKept d.eab_tokens rows
      → (IsUnique key_of d.eab_tokens → IsUnique key_of rows)
      → Extends d (record d { eab_tokens = rows })
  Extends-eab_tokens rows h u = record {
    certificates = (Extends-refl d).certificates;
    client_roles = (Extends-refl d).client_roles;
    eab_tokens = h;
    accounts = (Extends-refl d).accounts;
    orders = (Extends-refl d).orders;
    audit_log = (Extends-refl d).audit_log;
    keyed = λ k. record {
      certificates = k.certificates;
      client_roles = k.client_roles;
      eab_tokens = u k.eab_tokens;
      accounts = k.accounts;
      thumbprints = k.thumbprints;
      orders = k.orders;
      nonces = k.nonces;
      profiles = k.profiles;
      audit_log = k.audit_log;
    };
  }

  pub Extends-accounts :
      (rows : List AccountRecord)
      → KeepsRows Accounts.id_of ◌≡◌ d.accounts rows
      → (IsUnique Accounts.id_of d.accounts → IsUnique Accounts.id_of rows)
      → (IsUnique Accounts.thumbprint_of d.accounts → IsUnique Accounts.thumbprint_of rows)
      → Extends d (record d { accounts = rows })
  Extends-accounts rows h u v = record {
    certificates = (Extends-refl d).certificates;
    client_roles = (Extends-refl d).client_roles;
    eab_tokens = (Extends-refl d).eab_tokens;
    accounts = h;
    orders = (Extends-refl d).orders;
    audit_log = (Extends-refl d).audit_log;
    keyed = λ k. record {
      certificates = k.certificates;
      client_roles = k.client_roles;
      eab_tokens = k.eab_tokens;
      accounts = u k.accounts;
      thumbprints = v k.thumbprints;
      orders = k.orders;
      nonces = k.nonces;
      profiles = k.profiles;
      audit_log = k.audit_log;
    };
  }

  pub Extends-orders :
      (rows : List OrderRecord)
      → KeepsRows Orders.id_of OrderKept d.orders rows
      → (IsUnique Orders.id_of d.orders → IsUnique Orders.id_of rows)
      → Extends d (record d { orders = rows })
  Extends-orders rows h u = record {
    certificates = (Extends-refl d).certificates;
    client_roles = (Extends-refl d).client_roles;
    eab_tokens = (Extends-refl d).eab_tokens;
    accounts = (Extends-refl d).accounts;
    orders = h;
    audit_log = (Extends-refl d).audit_log;
    keyed = λ k. record {
      certificates = k.certificates;
      client_roles = k.client_roles;
      eab_tokens = k.eab_tokens;
      accounts = k.accounts;
      thumbprints = k.thumbprints;
      orders = u k.orders;
      nonces = k.nonces;
      profiles = k.profiles;
      audit_log = k.audit_log;
    };
  }

  pub Extends-audit_log :
      (rows more : List AuditEntry)
      → rows ≡ d.audit_log ++ more
      → (IsNumbered 1 d.audit_log → IsNumbered 1 rows)
      → Extends d (record d { audit_log = rows })
  Extends-audit_log rows more h u = record {
    certificates = (Extends-refl d).certificates;
    client_roles = (Extends-refl d).client_roles;
    eab_tokens = (Extends-refl d).eab_tokens;
    accounts = (Extends-refl d).accounts;
    orders = (Extends-refl d).orders;
    audit_log = (more, h);
    keyed = λ k. record {
      certificates = k.certificates;
      client_roles = k.client_roles;
      eab_tokens = k.eab_tokens;
      accounts = k.accounts;
      thumbprints = k.thumbprints;
      orders = k.orders;
      nonces = k.nonces;
      profiles = k.profiles;
      audit_log = u k.audit_log;
    };
  }

  pub Extends-nonces :
      (rows : List NonceRow)
      → (IsUnique Nonces.nonce_of d.nonces → IsUnique Nonces.nonce_of rows)
      → Extends d (record d { nonces = rows })
  Extends-nonces rows u = record {
    certificates = (Extends-refl d).certificates;
    client_roles = (Extends-refl d).client_roles;
    eab_tokens = (Extends-refl d).eab_tokens;
    accounts = (Extends-refl d).accounts;
    orders = (Extends-refl d).orders;
    audit_log = (Extends-refl d).audit_log;
    keyed = λ k. record {
      certificates = k.certificates;
      client_roles = k.client_roles;
      eab_tokens = k.eab_tokens;
      accounts = k.accounts;
      thumbprints = k.thumbprints;
      orders = k.orders;
      nonces = u k.nonces;
      profiles = k.profiles;
      audit_log = k.audit_log;
    };
  }

  pub Extends-profiles :
      (rows : List ProfileRecord)
      → (IsVersioned d.profiles → IsVersioned rows)
      → Extends d (record d { profiles = rows })
  Extends-profiles rows u = record {
    certificates = (Extends-refl d).certificates;
    client_roles = (Extends-refl d).client_roles;
    eab_tokens = (Extends-refl d).eab_tokens;
    accounts = (Extends-refl d).accounts;
    orders = (Extends-refl d).orders;
    audit_log = (Extends-refl d).audit_log;
    keyed = λ k. record {
      certificates = k.certificates;
      client_roles = k.client_roles;
      eab_tokens = k.eab_tokens;
      accounts = k.accounts;
      thumbprints = k.thumbprints;
      orders = k.orders;
      nonces = k.nonces;
      profiles = u k.profiles;
      audit_log = k.audit_log;
    };
  }
