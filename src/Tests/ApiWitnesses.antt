-- ===== src/Tests/ApiWitnesses.antt =====
-- The theorems on the handlers at concrete requests.
use trust_mate.Common.{◌+◌, ◌≡◌, ◌≢◌, ◌⊎◌, inr, refl, true, false, none, some, [], if_absent}
use trust_mate.Store.Records.{Error, other, CertificateRecord, manager, OrderRecord, valid}
use trust_mate.Store.Table.{by_key, first_where, update_where, count_where}
use trust_mate.Store.Certificates
use trust_mate.Store.Certificates.{serial_of, is_revoked, revoke}
use trust_mate.Store.ClientRoles
use trust_mate.Store.Orders
use trust_mate.Store.Nonces
use trust_mate.Store.Audit
use trust_mate.Store.Extends.{Extends, Extends-preorder}
use trust_mate.Store.Revoking.{revoked_as}
use trust_mate.Profiles.Types.{default, with_issuer_urls}
use trust_mate.Pki.Types.{unsupported}
use trust_mate.Pki.Leaf.{
  generate_serial, build_template, leaf_template, subject_key_id, issue_leaf, parse_csr,
  leaf_request,
}
use trust_mate.World.{World}
use trust_mate.Exec.{
  ok, err, ◌>>=◌, attempt, try, modify, now, statement, query, random_text, random_bytes,
}
use trust_mate.Api.Http.{Response, Handler, ProblemType, problem, json, revoked}
use trust_mate.Api.Http
use trust_mate.Api.Deps.{count, invalidate_crl}
use trust_mate.Api.Auth.{require_role}
use trust_mate.Api.Authorization.{
  IsAuthorized, Refusals, require_role_safe, require_role-IsAuthorized,
}
use trust_mate.Api.Issuing.{issue_leaf_certificate, leaf_record, assign_role_or_revoke, compensate}
use trust_mate.Api.Certificates.{revoke_leaf, handle_get_certificate}
use trust_mate.Api.Router.{new_nonce, serve, Run, done, served}
use trust_mate.Api.Runs.{Run-Extends, Run-revoked, Run-locked_out}
use trust_mate.Api.Acme.Requests.{acme_url, issue_nonce, attach_nonce, respond, or_problem}
use trust_mate.Api.Acme.Orders.{finalize_csr, issue_for_order, finalize_ready, order_response}
use trust_mate.Api.Ledger.Issuance.{IsRecorded, issue_leaf_certificate-ok}
use trust_mate.Api.Ledger.Revocation.{revoke_leaf-ok}
use trust_mate.Api.Ledger.Finalization.{finalize_ready_once}
use trust_mate.Api.Ledger.Enrollment.{create_account_once}
use trust_mate.Api.Acme.Enrollment.{add_account, create_account}
use trust_mate.Store.EabTokens
use trust_mate.Store.EabTokens.{mark_consumed}
use trust_mate.Store.Accounts
use trust_mate.Pki.Templates.{UsesOnce, leaf_template-ok}
use trust_mate.Pki.Types.{Template}
use trust_mate.Profiles.Types.{document_signing}
use trust_mate.Api.Ledger.Compensation.{assignment, assign_role_or_revoke-err}
use trust_mate.Tests.Fixtures.{
  start, name, ledger_row, revoked_row, role_of, order, account, token, jws, deps, db, world,
}
use trust_mate.Tests.StoreWitnesses.{db-IsKeyed, world-IsHealthy}

-- a run of one request, which writes a nonce
abbrev after : World → World
after w = (serve deps none new_nonce w).1

abbrev run_of : (w : World) → Run deps w (after w)
run_of w = served none new_nonce w (after w) (done (after w))

Run-Extends_example : Extends db (after world).db
Run-Extends_example = Run-Extends deps world (after world) (run_of world)

Run-revoked_example : by_key serial_of "7" (after world).db.certificates ≡ some revoked_row
unfolding first_where
Run-revoked_example = Run-revoked deps world (after world) "7" revoked_row (run_of world) refl refl

Run-locked_out_example :
    (p : ProblemType) × Refusals p
    × ((next : Handler)
        → ((require_role (some "7") manager next (after world)).0 ≡ err (json p.status (problem p)))
          × ((require_role (some "7") manager next (after world)).1.db ≡ (after world).db))
unfolding first_where
Run-locked_out_example =
    Run-locked_out deps world (after world) "7" revoked_row manager (run_of world) refl refl

require_role_safe_example :
    IsAuthorized (some "7") manager db
    ⊎ ((p : ProblemType) × Refusals p
        × ((next : Handler)
            → ((require_role (some "7") manager next world).0 ≡ err (json p.status (problem p)))
              × ((require_role (some "7") manager next world).1.db ≡ db)))
require_role_safe_example = require_role_safe (some "7") manager world

client-IsAuthorized : IsAuthorized (some "5") manager db
unfolding first_where
client-IsAuthorized = record {
  serial = "5";
  presented = refl;
  role = role_of "5";
  assigned = refl;
  certificate = ledger_row "5";
  issued = refl;
  standing = refl;
  satisfied = inr refl;
}

require_role-IsAuthorized_example :
    require_role (some "5") manager (handle_get_certificate "5") world
    ≡ handle_get_certificate "5" (record world { tick = world.tick + 1 + 1 })
require_role-IsAuthorized_example =
    require_role-IsAuthorized (some "5") manager (handle_get_certificate "5") world world-IsHealthy
      client-IsAuthorized

abbrev device_record : CertificateRecord
device_record = record (ledger_row "42") { subject = "CN=device-1" }

issued_one :
    (issue_leaf_certificate deps default name unsupported [] start "actor" "issue" "default"
      world).0
    ≡ ok device_record
unfolding issue_leaf_certificate leaf_record ◌>>=◌ issue_leaf leaf_template build_template
    generate_serial subject_key_id random_bytes statement Certificates.create Certificates.insert
    Audit.append Audit.insert first_where if_absent leaf_request
issued_one = refl

issue_leaf_certificate-ok_example :
    IsRecorded deps default start "actor" "issue" "default" db
      (issue_leaf_certificate deps default name unsupported [] start "actor" "issue" "default"
        world).1.db
      device_record
issue_leaf_certificate-ok_example =
    issue_leaf_certificate-ok deps default name unsupported [] start "actor" "issue" "default" world
      device_record issued_one

pub revoked_one :
    (revoke_leaf deps "5" "superseded" start "actor" world).0
    ≡ ok (json 200 (revoked "5" start "superseded"))
unfolding revoke_leaf revoke ◌>>=◌ attempt modify statement query Certificates.get_by_serial
    Certificates.mark_revoked count invalidate_crl Audit.append Audit.insert first_where count_where
    update_where
revoked_one = refl

revoke_leaf-ok_example :
    (r : CertificateRecord) × (by_key serial_of "5" world.db.certificates ≡ some r)
    × (is_revoked r ≡ false)
    × (by_key serial_of "5"
          (revoke_leaf deps "5" "superseded" start "actor" world).1.db.certificates
        ≡ some (revoked_as "superseded" start r))
    × (deps.crl_builder ≡ true
        → (revoke_leaf deps "5" "superseded" start "actor" world).1.crl.cached ≡ none)
    × (json 200 (revoked "5" start "superseded") ≡ json 200 (revoked "5" start "superseded"))
revoke_leaf-ok_example =
    revoke_leaf-ok deps "5" "superseded" "actor" start world
      (json 200 (revoked "5" start "superseded")) db-IsKeyed revoked_one

abbrev final : OrderRecord
final = record order { status = valid; cert_serial = "42" }

abbrev finalized : Response
finalized = record {
  status = 200;
  body = order_response deps final;
  location = none;
  replay_nonce = some "random";
}

finalized_one : (finalize_ready deps jws account order world).0 ≡ ok finalized
unfolding finalize_ready finalize_csr issue_for_order issue_leaf_certificate leaf_record ◌>>=◌
    issue_leaf leaf_template build_template generate_serial subject_key_id parse_csr or_problem
    random_bytes random_text statement query attempt try modify now Certificates.create
    Certificates.insert Audit.append Audit.insert assign_role_or_revoke ClientRoles.assign
    ClientRoles.upsert Orders.update_status Orders.compare_and_swap Orders.count_ids count respond
    attach_nonce issue_nonce Nonces.issue Nonces.insert first_where count_where update_where
    if_absent leaf_request with_issuer_urls
finalized_one = refl

finalize_ready_once_example :
    (finalize_ready deps jws account order (finalize_ready deps jws account order world).1).0
    ≢ ok finalized
finalize_ready_once_example =
    finalize_ready_once deps jws jws account account order order world
      (finalize_ready deps jws account order world).1 finalized finalized db-IsKeyed refl
      finalized_one (Extends-preorder.same (finalize_ready deps jws account order world).1.db)

-- a record that the ledger does not have, so that its role cannot be assigned
unassigned : (assign_role_or_revoke (ledger_row "9") manager start world).0 ≡ err other
unfolding assign_role_or_revoke compensate attempt try statement query ◌>>=◌ ClientRoles.assign
    ClientRoles.upsert revoke Certificates.get_by_serial Certificates.mark_revoked first_where
    count_where update_where if_absent
unassigned = refl

assign_role_or_revoke-err_example :
    ((ClientRoles.assign (assignment (ledger_row "9") manager start) world).0 ≡ err other)
    × (((r : CertificateRecord) × (by_key serial_of "9"
              (assign_role_or_revoke (ledger_row "9") manager start world).1.db.certificates
            ≡ some (revoked_as "unspecified" start r)))
        ⊎ ((f : Error) × ((revoke "9" "unspecified" start
                (ClientRoles.assign (assignment (ledger_row "9") manager start) world).1).0
              ≡ err f)))
assign_role_or_revoke-err_example =
    assign_role_or_revoke-err (ledger_row "9") manager start world other db-IsKeyed unassigned

abbrev enrolled : Response
enrolled = record {
  status = 201;
  body = Http.account;
  location = some "https://ca/v1/acme/account/random";
  replay_nonce = some "random";
}

enrolled_one : (create_account deps jws "print-2" token "actor" world).0 ≡ ok enrolled
unfolding create_account add_account mark_consumed EabTokens.claim ◌>>=◌ now attempt statement
    count_where random_text Accounts.create Accounts.insert if_absent first_where update_where try
    count modify respond attach_nonce issue_nonce acme_url Audit.append Audit.insert Nonces.insert
    Nonces.issue
enrolled_one = refl

create_account_once_example :
    (create_account deps jws "print-3" token "actor"
      (create_account deps jws "print-2" token "actor" world).1).0
    ≢ ok enrolled
create_account_once_example =
    create_account_once deps jws jws "print-2" "print-3" "actor" "actor" token token world
      (create_account deps jws "print-2" token "actor" world).1 enrolled enrolled db-IsKeyed refl
      enrolled_one
      (Extends-preorder.same (create_account deps jws "print-2" token "actor" world).1.db)

abbrev signing_template : Template
signing_template = record {
  serial_number = 1;
  subject = name;
  not_before = start;
  not_after = start + 1;
  key_usage = document_signing.key_usage;
  ext_key_usage = document_signing.ext_key_usage;
  extra_extensions = [];
  dns_names = [];
  is_ca = false;
  max_path_len_zero = false;
  issuing_certificate_url = [];
  ocsp_server = [];
  crl_distribution_points = [];
  subject_key_id = "";
  authority_key_id = "";
}

templated :
    (leaf_template document_signing name unsupported start (start + 1) [] world).0
    ≡ ok signing_template
unfolding leaf_template build_template leaf_request generate_serial random_bytes ◌>>=◌
templated = refl

leaf_template-ok_example :
    (false ≡ false)
    × (start ≡ start)
    × (start + 1 ≡ start + 1)
    × (document_signing.key_usage ≡ document_signing.key_usage)
    × UsesOnce document_signing signing_template
leaf_template-ok_example =
    leaf_template-ok document_signing name unsupported start (start + 1) [] world signing_template
      templated
