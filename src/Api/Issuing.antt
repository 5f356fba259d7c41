-- ===== src/Api/Issuing.antt =====
-- The parts of internal/api/certificates.go that every issuing route shares.
use trust_mate.Common.{◌+◌, String, Option, none, some, List}
use trust_mate.Store.Records.{Time, leaf, CertificateRecord, ClientRole, AuditEntry, Error}
use trust_mate.Store.Table.{by_key}
use trust_mate.Store.Certificates
use trust_mate.Store.ClientRoles
use trust_mate.Store.Audit
use trust_mate.Profiles.Types.{Profile, name_of, lookup_built_in}
use trust_mate.Pki.Types.{PublicKey, Name, Certificate}
use trust_mate.Pki.Leaf.{issue_leaf}
use trust_mate.Exec.{Exec, ◌>>=◌, ◌>>◌, pure, raise, gets, attempt, try}
use trust_mate.Api.Deps.{Deps}

-- lookupProfile: the registry, or the built-in profiles without one
unfoldable pub lookup_profile : {E : Type 0} → String → Exec E (Option Profile)
lookup_profile name = gets (λ w. elim w.registry [
  | some reg ↦ by_key name_of name reg.profiles
  | none ↦ lookup_built_in name
])

-- an entry of the audit log; its id is the datastore's
abbrev pub entry : Time → String → String → String → String → AuditEntry
entry timestamp actor action target detail = record {
  id = 0;
  timestamp = timestamp;
  actor = actor;
  action = action;
  target = target;
  detail = detail;
}

-- the ledger's record of a certificate that IssueLeaf returned
unfoldable pub leaf_record : Deps → Profile → Certificate → String → Time → CertificateRecord
leaf_record deps profile cert pem now = record {
  serial = cert.serial;
  kind = leaf;
  profile_name = profile.name;
  subject = cert.subject.text;
  issuer_serial = deps.intermediate_issuer.cert.serial;
  not_before = cert.not_before;
  not_after = cert.not_after;
  pem = pem;
  key_ref = "";
  created_at = now;
  revoked_at = none;
  revocation_reason = "";
}

unfoldable pub issue_leaf_certificate :
    Deps
    → Profile
    → Name
    → PublicKey
    → List String
    → Time
    → String
    → String
    → String
    → Exec Error CertificateRecord
issue_leaf_certificate deps profile subject key dns_names now actor action detail = do
  cert ←
      issue_leaf profile subject key deps.intermediate_issuer now (now + profile.validity) dns_names
  pem ← gets (λ w. w.env.lib.encode_cert_pem cert.raw)
  let rec = leaf_record deps profile cert pem now
  Certificates.create rec
  Audit.append (entry now actor action rec.serial detail)
  pure rec

-- the compensating revoke after a failed assignment: its own failure is only logged, and its success
-- is audited
unfoldable pub compensate : CertificateRecord → Time → Error → Exec Error (Unit {0})
compensate rec now e = do
  done ← try (Certificates.revoke rec.serial "unspecified" now)
  elim done [
    | none ↦ raise e
    | some _ ↦ (do
      try (Audit.append (entry now "system:compensating-revoke" "revoke" rec.serial "unspecified"))
      raise e)
  ]

unfoldable pub assign_role_or_revoke : CertificateRecord → ClientRole → Time → Exec Error (Unit {0})
assign_role_or_revoke rec role now =
    attempt
      (ClientRoles.assign (record { cert_serial = rec.serial; role = role; created_at = now }))
      (compensate rec now)
