-- ===== src/Pki/Reads.antt =====
-- internal/pki and the datastore, for any preorder on the tables.
use trust_mate.Common.{String, List}
use trust_mate.Store.Records.{Time, Db}
use trust_mate.Profiles.Types.{Profile}
use trust_mate.Pki.Types.{Name, PublicKey, Issuer}
use trust_mate.Pki.Leaf.{
  CertRequest, generate_serial, build_template, leaf_template, subject_key_id, issue_leaf,
  parse_csr,
}
use trust_mate.Exec.Evolves.{IsPreorder, Evolves, evolves_rules}

module _ {R : Db → Db → Type 0} ⦃pre : IsPreorder R⦄ where
  generate_serial-Evolves : Evolves R generate_serial
  unfolding generate_serial
  generate_serial-Evolves = search evolves_rules depth 7

  pub build_template-Evolves : (req : CertRequest) → Evolves R (build_template req)
  unfolding build_template
  build_template-Evolves req = search (evolves_rules, generate_serial-Evolves) depth 8

  pub subject_key_id-Evolves : (key : PublicKey) → Evolves R (subject_key_id key)
  unfolding subject_key_id
  subject_key_id-Evolves key = search evolves_rules depth 9

  pub leaf_template-Evolves :
      (profile : Profile) (subject : Name) (key : PublicKey) (from until : Time) (dns : List String)
      → Evolves R (leaf_template profile subject key from until dns)
  unfolding leaf_template
  leaf_template-Evolves profile subject key from until dns = build_template-Evolves _

  pub issue_leaf-Evolves :
      (profile : Profile) (subject : Name) (key : PublicKey) (issuer : Issuer) (from until : Time)
      (dns : List String)
      → Evolves R (issue_leaf profile subject key issuer from until dns)
  unfolding issue_leaf
  issue_leaf-Evolves profile subject key issuer from until dns =
      search (evolves_rules, leaf_template-Evolves, subject_key_id-Evolves) depth 12

  pub parse_csr-Evolves : (input : String) → Evolves R (parse_csr input)
  unfolding parse_csr
  parse_csr-Evolves input = search evolves_rules depth 9
