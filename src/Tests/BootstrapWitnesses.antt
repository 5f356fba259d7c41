-- ===== src/Tests/BootstrapWitnesses.antt =====
-- The theorems on the first run and on the service's own certificate, from an empty datastore.
use trust_mate.Common.{◌+◌, ◌≡◌, ◌≢◌, refl, true, false, [], ◌∷◌, if_absent, arith}
use trust_mate.Store.Records.{CertificateRecord, other}
use trust_mate.Store.Table.{first_where, update_where, delete_where}
use trust_mate.Store.Certificates
use trust_mate.Store.ClientRoles
use trust_mate.Store.Audit
use trust_mate.Store.Profiles
use trust_mate.Profiles.Types.{server_tls, with_issuer_urls}
use trust_mate.Pki.Types.{PublicKey, ecdsa, unsupported, Issuer}
use trust_mate.Pki.Leaf.{
  issue_leaf, leaf_template, leaf_request, build_template, generate_serial, subject_key_id, oids_of,
  ext_key_usage_oid,
}
use trust_mate.Pki.Ca.{self_signed_ca, issue_ca}
use trust_mate.World.{World}
use trust_mate.Exec.{ok, err, ◌>>=◌, query, statement, now, random_bytes}
use trust_mate.Files.{make_dir, disk, write_file, rename_file, put_file, remove_file}
use trust_mate.Keystore.Files.{new_key}
use trust_mate.Tsa.Identity.{issue_identity, identity_profile, identity_record}
use trust_mate.Config.Types.{
  defaults, root_common_name, intermediate_common_name, admin_common_name, server_common_name,
  tsa_common_name,
}
use trust_mate.Bootstrap.Generate.{
  persist_default_profiles, persist_profile, create_cert_record, generate_root,
  generate_intermediate, intermediate_request, generate_admin_leaf, generate_server_tls_leaf,
  generate_tsa_leaf,
}
use trust_mate.Bootstrap.Output.{write_output, write_all, output_files, write_bootstrap_output}
use trust_mate.Bootstrap.Run.{issued_now, append_all, tsa_part, finish, after_root, first_run, run}
use trust_mate.Bootstrap.Once.{run-abandoned}
use trust_mate.Startup.Service.{start_service}
use trust_mate.Startup.Lifetime.{over, requested, restarted, run_once}
use trust_mate.Bootstrap.Loading.{
  TlsConfig, last_of, latest_of_kind, der_from_pem, pool_entry, load_server_tls_config,
}
use trust_mate.Bootstrap.Serving.{IsPresented, load_server_tls_config-other}
use trust_mate.Api.Issuing.{issue_leaf_certificate, leaf_record}
use trust_mate.Api.Router.{done}
use trust_mate.Tests.Fixtures.{
  boot_world, ca_world, certificate, deps, memory_keys, name, root_keys, start,
}

ran : (run defaults memory_keys boot_world).0 ≡ ok false
unfolding run Certificates.find_by_kind Certificates.of_kind query statement ◌>>=◌ first_run
    persist_default_profiles persist_profile now Profiles.upsert Profiles.write if_absent
    first_where generate_root self_signed_ca build_template generate_serial random_bytes
    subject_key_id create_cert_record Certificates.create Certificates.insert after_root
    generate_intermediate intermediate_request issue_ca generate_admin_leaf new_key issue_leaf
    leaf_template leaf_request with_issuer_urls finish ClientRoles.assign ClientRoles.upsert
    generate_server_tls_leaf issued_now tsa_part generate_tsa_leaf issue_identity identity_profile
    identity_record oids_of ext_key_usage_oid write_bootstrap_output make_dir disk write_all
    write_output output_files write_file rename_file put_file remove_file update_where delete_where
    append_all Audit.append Audit.insert root_common_name intermediate_common_name admin_common_name
    server_common_name tsa_common_name
ran = refl

abbrev after : World
after = record boot_world { db = (run defaults memory_keys boot_world).1.db }

-- the tables after a run of requests and a further start
abbrev restarted_after : World
restarted_after = record after { db = (start_service defaults memory_keys after).1.db }

run_once_example :
    run defaults memory_keys restarted_after
    ≡ (ok true, record restarted_after { tick = restarted_after.tick + 1 })
run_once_example =
    run_once defaults defaults memory_keys memory_keys boot_world after restarted_after ran refl
      (requested deps after after restarted_after (done after) (
        restarted defaults memory_keys after after restarted_after refl
          (over (start_service defaults memory_keys after).1 restarted_after refl)))
      refl

abbrev root_issuer : Issuer
root_issuer = record {
  cert = record certificate { serial = "CN=TrustMate Root CA"; raw = "CN=TrustMate Root CA" };
  signer = 9;
}

made_root : (generate_root defaults root_keys boot_world).0 ≡ ok root_issuer
unfolding generate_root ◌>>=◌ now self_signed_ca build_template generate_serial random_bytes
    subject_key_id create_cert_record statement Certificates.create Certificates.insert if_absent
    first_where root_common_name
made_root = refl

abbrev stopped : World
stopped =
    (after_root defaults root_keys root_issuer (generate_root defaults root_keys boot_world).1).1

failed_then :
    (after_root defaults root_keys root_issuer (generate_root defaults root_keys boot_world).1).0
    ≡ err other
unfolding after_root generate_intermediate ◌>>=◌
failed_then = refl

abbrev recovered : World
recovered = record boot_world { db = stopped.db }

run-abandoned_example :
    run defaults memory_keys recovered ≡ (ok true, record recovered { tick = recovered.tick + 1 })
run-abandoned_example =
    run-abandoned defaults defaults root_keys memory_keys boot_world recovered root_issuer other
      made_root failed_then refl refl

-- the key of another host, and its certificate
abbrev device_key : PublicKey
device_key = ecdsa true 1 2

other_key : unsupported ≢ device_key
other_key e = ground (arith, e)

abbrev host_record : CertificateRecord
host_record =
    leaf_record deps server_tls (record certificate { serial = "CN=device-1"; raw = "CN=device-1" })
      "CN=device-1" start

issued_host :
    (issue_leaf_certificate deps server_tls name device_key [] start "actor" "issue" "server-tls"
      ca_world).0
    ≡ ok host_record
unfolding issue_leaf_certificate leaf_record ◌>>=◌ issue_leaf leaf_template build_template
    generate_serial subject_key_id random_bytes statement Certificates.create Certificates.insert
    Audit.append Audit.insert first_where if_absent leaf_request
issued_host = refl

abbrev later : World
later = record ca_world {
  db =
      (issue_leaf_certificate deps server_tls name device_key [] start "actor" "issue" "server-tls"
        ca_world).1.db;
}

abbrev presented : TlsConfig
presented = record {
  certificate = "CN=device-1" ∷ "2" ∷ [];
  private_key = 9;
  client_cas = "2" ∷ "1" ∷ [];
}

loaded : (load_server_tls_config memory_keys later).0 ≡ ok presented
unfolding load_server_tls_config Certificates.get_latest_by_profile Certificates.latest_of_profile
    query statement latest_of_kind Certificates.find_by_kind Certificates.of_kind last_of
    der_from_pem pool_entry issue_leaf_certificate leaf_record ◌>>=◌ issue_leaf leaf_template
    build_template generate_serial subject_key_id random_bytes Certificates.create
    Certificates.insert Audit.append Audit.insert first_where if_absent leaf_request
loaded = refl

load_server_tls_config-other_example :
    IsPresented memory_keys later "CN=device-1" presented
    × (later.env.lib.public_of presented.private_key ≢ device_key)
unfolding leaf_record
load_server_tls_config-other_example =
    load_server_tls_config-other deps server_tls name device_key [] start "actor" "issue"
      "server-tls" memory_keys ca_world later host_record presented refl
      (omega arith, (omega arith, (omega arith, tt))) issued_host refl loaded (λ u s e. other_key)
