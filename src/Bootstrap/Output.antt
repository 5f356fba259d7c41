-- ===== src/Bootstrap/Output.antt =====
-- internal/bootstrap/bootstrap.go: writeBootstrapOutput. The files are written in the order of the source's
-- map literal.
use Prim.Native.String
use trust_mate.Common.{String, Option, none, some, List, [], ◌∷◌}
use trust_mate.Store.Records.{Bytes, Error}
use trust_mate.Pki.Types.{Certificate, Issuer}
use trust_mate.Pki.Library.{Library}
use trust_mate.Pki.Leaf.{or_error}
use trust_mate.World.{FileRow}
use trust_mate.Exec.{Exec, ◌>>=◌, ◌>>◌, pure, lift, gets}
use trust_mate.Files.{make_dir, write_file, rename_file}
use trust_mate.Keystore.Files.{tmp_of}

-- one round of the loop over the files
unfoldable pub write_output : String → FileRow → Exec Error (Unit {0})
write_output dir f = do
  lib ← gets (λ w. w.env.lib)
  write_file (tmp_of (lib.join dir f.path)) f.contents
  rename_file (tmp_of (lib.join dir f.path)) (lib.join dir f.path)

unfoldable pub write_all : String → List FileRow → Exec Error (Unit {0})
write_all dir [] = pure tt
write_all dir (f ∷ files) = do write_output dir f; write_all dir files

abbrev file : String → Bytes → FileRow
file path contents = record { path = path; contents = contents }

abbrev pem_of : Library → Certificate → Bytes
pem_of lib cert = lib.encode_cert_pem cert.raw

unfoldable pub output_files :
    Library
    → (root_cert inter_cert admin_cert : Certificate) → Bytes
    → Option Certificate
    → List FileRow
output_files lib root_cert inter_cert admin_cert key_der tsa_cert =
    file "root.pem" (pem_of lib root_cert)
    ∷ file "intermediate.pem" (pem_of lib inter_cert)
    ∷ file "chain.pem" (String.◌++◌ (pem_of lib inter_cert) (pem_of lib root_cert))
    ∷ file "admin.pem" (pem_of lib admin_cert)
    ∷ file "admin-key.pem" (lib.encode_key_pem key_der)
    ∷ (elim tsa_cert [ none ↦ [] | some c ↦ file "tsa.pem" (pem_of lib c) ∷ [] ])

unfoldable pub write_bootstrap_output :
    String
    → (root_cert inter_cert : Certificate) → Issuer
    → Option Certificate
    → Exec Error (Unit {0})
write_bootstrap_output dir root_cert inter_cert admin_leaf tsa_cert = do
  make_dir dir
  lib ← gets (λ w. w.env.lib)
  key_der ← lift (or_error (lib.marshal_pkcs8 admin_leaf.signer))
  write_all dir (output_files lib root_cert inter_cert admin_leaf.cert key_der tsa_cert)
