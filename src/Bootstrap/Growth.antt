-- ===== src/Bootstrap/Growth.antt =====
-- The first run, and the relation `Extends`.
use trust_mate.Common.{ℕ, String, Option, List, [], ◌∷◌}
use trust_mate.Store.Records.{CertKind, AuditEntry}
use trust_mate.Store.Extends.{Extends-preorder}
use trust_mate.Store.Evolution.{Grows, append_audit-Grows, store_grows}
use trust_mate.Profiles.Types.{Profile, Algorithm}
use trust_mate.Pki.Types.{Certificate, Issuer}
use trust_mate.Pki.Leaf.{CertRequest}
use trust_mate.Pki.Reads.{issue_leaf-Evolves, build_template-Evolves, subject_key_id-Evolves}
use trust_mate.Pki.Ca.{self_signed_ca, issue_ca}
use trust_mate.Keystore.Store.{KeyStore}
use trust_mate.Keystore.Backend.{
  write_file-Evolves, rename_file-Evolves, disk-Evolves, new_key-Evolves,
}
use trust_mate.World.{FileRow}
use trust_mate.Exec.Evolves.{Evolves-bind, Evolves-pure, Evolves-same}
use trust_mate.Api.Growth.Public.{issue_identity-Grows}
use trust_mate.Config.Types.{Config}
use trust_mate.Bootstrap.Generate.{
  persist_profile, persist_default_profiles, create_cert_record, generate_root,
  generate_intermediate, generate_admin_leaf, generate_server_tls_leaf, generate_tsa_leaf,
}
use trust_mate.Files.{make_dir}
use trust_mate.Bootstrap.Output.{write_output, write_all, write_bootstrap_output}
use trust_mate.Bootstrap.Run.{issued_now, append_all, tsa_part, finish, after_root, first_run}

persist_profile-Grows : (p : Profile) → Grows (persist_profile p)
unfolding persist_profile
persist_profile-Grows p = search store_grows depth 12

create_cert_record-Grows :
    (cert : Certificate) (kind : CertKind) (profile issuer ref : String)
    → Grows (create_cert_record cert kind profile issuer ref)
unfolding create_cert_record
create_cert_record-Grows cert kind profile issuer ref = search store_grows depth 9

self_signed_ca-Grows : (req : CertRequest) (signer : ℕ) → Grows (self_signed_ca req signer)
unfolding self_signed_ca
self_signed_ca-Grows req signer =
    search (store_grows, build_template-Evolves, subject_key_id-Evolves) depth 14

issue_ca-Grows : (req : CertRequest) (issuer : Issuer) → Grows (issue_ca req issuer)
unfolding issue_ca
issue_ca-Grows req issuer =
    search (store_grows, build_template-Evolves, subject_key_id-Evolves) depth 14

generate-Grows : (ks : KeyStore) (ref : String) (alg : Algorithm) → Grows (ks.generate ref alg)
generate-Grows ks ref alg = Evolves-same _ (ks.generate_same ref alg)

ruleset identity_grows = (
  store_grows, generate-Grows, create_cert_record-Grows, self_signed_ca-Grows, issue_ca-Grows,
  issue_leaf-Evolves, new_key-Evolves, issue_identity-Grows,
)

pub generate_root-Grows : (cfg : Config) (ks : KeyStore) → Grows (generate_root cfg ks)
unfolding generate_root
generate_root-Grows cfg ks = search identity_grows depth 14

generate_intermediate-Grows :
    (cfg : Config) (ks : KeyStore) (i : Issuer) → Grows (generate_intermediate cfg ks i)
unfolding generate_intermediate
generate_intermediate-Grows cfg ks i = search identity_grows depth 16

generate_admin_leaf-Grows : (cfg : Config) (i : Issuer) → Grows (generate_admin_leaf cfg i)
unfolding generate_admin_leaf
generate_admin_leaf-Grows cfg i = search identity_grows depth 14

generate_server_tls_leaf-Grows :
    (cfg : Config) (ks : KeyStore) (i : Issuer) → Grows (generate_server_tls_leaf cfg ks i)
unfolding generate_server_tls_leaf
generate_server_tls_leaf-Grows cfg ks i = search identity_grows depth 14

generate_tsa_leaf-Grows :
    (cfg : Config) (ks : KeyStore) (i : Issuer) → Grows (generate_tsa_leaf cfg ks i)
unfolding generate_tsa_leaf
generate_tsa_leaf-Grows cfg ks i =
    Evolves-bind _ _ (issue_identity-Grows _ _ _ _) (λ (issuer, rec). Evolves-pure issuer)

issued_now-Grows : (cert : Certificate) (detail : String) → Grows (issued_now cert detail)
unfolding issued_now
issued_now-Grows cert detail = search store_grows depth 5

append_all-Grows : (es : List AuditEntry) → Grows (append_all es)
unfolding append_all
append_all-Grows [] = Evolves-pure _
append_all-Grows (e ∷ es) = Evolves-bind _ _ (append_audit-Grows e) (λ _. append_all-Grows es)

tsa_part-Grows : (cfg : Config) (ks : KeyStore) (i : Issuer) → Grows (tsa_part cfg ks i)
unfolding tsa_part
tsa_part-Grows cfg ks i = search (store_grows, generate_tsa_leaf-Grows, issued_now-Grows) depth 9

make_dir-Grows : (dir : String) → Grows (make_dir dir)
unfolding make_dir
make_dir-Grows dir = disk-Evolves _ _

write_output-Grows : (dir : String) (f : FileRow) → Grows (write_output dir f)
unfolding write_output
write_output-Grows dir f = search (store_grows, write_file-Evolves, rename_file-Evolves) depth 9

write_all-Grows : (dir : String) (files : List FileRow) → Grows (write_all dir files)
unfolding write_all
write_all-Grows dir [] = Evolves-pure _
write_all-Grows dir (f ∷ files) =
    Evolves-bind _ _ (write_output-Grows dir f) (λ _. write_all-Grows dir files)

write_bootstrap_output-Grows :
    (dir : String) (r i : Certificate) (a : Issuer) (t : Option Certificate)
    → Grows (write_bootstrap_output dir r i a t)
unfolding write_bootstrap_output
write_bootstrap_output-Grows dir r i a t =
    search (store_grows, make_dir-Grows, write_all-Grows) depth 12

finish-Grows : (cfg : Config) (ks : KeyStore) (r i a : Issuer) → Grows (finish cfg ks r i a)
unfolding finish
finish-Grows cfg ks r i a =
    search
      (
        store_grows, generate_server_tls_leaf-Grows, issued_now-Grows, tsa_part-Grows,
        write_bootstrap_output-Grows, append_all-Grows,
      )
      depth 26

pub after_root-Grows : (cfg : Config) (ks : KeyStore) (r : Issuer) → Grows (after_root cfg ks r)
unfolding after_root
after_root-Grows cfg ks r =
    search (store_grows, generate_intermediate-Grows, generate_admin_leaf-Grows, finish-Grows) depth
      9

pub first_run-Grows : (cfg : Config) (ks : KeyStore) → Grows (first_run cfg ks)
unfolding first_run persist_default_profiles
first_run-Grows cfg ks =
    search (store_grows, persist_profile-Grows, generate_root-Grows, after_root-Grows) depth 12
