-- ===== src/Profiles/Config.antt =====
-- internal/profiles/registry.go: the tables of names and toProfile; internal/api/profiles.go: the names of
-- the usages of a profile.
use Prim.Native.Nat.{bit_and, bit_or}
use trust_mate.Common.{
  ℕ, String, Option, none, some, List, [], ◌∷◌, ◌==◌, nat_eq, not, if◌then◌else◌,
}
use trust_mate.Store.Table.{first_where}
use trust_mate.Profiles.Types.{Algorithm, ecdsa_p256, rsa_2048, Profile, ProfileConfig}
use trust_mate.Pki.Library.{Library}

-- a name of a table with its number
pub record Named : Type 0 where
  pub name : String
  pub number : ℕ

abbrev named : ℕ → String → Named
named number name = record { name = name; number = number }

-- keyUsageBits, and the list `names` of keyUsageStrings
abbrev pub key_usage_bits : List Named
key_usage_bits =
    named 1 "digitalSignature"
    ∷ named 2 "contentCommitment"
    ∷ named 4 "keyEncipherment"
    ∷ named 8 "dataEncipherment"
    ∷ named 16 "keyAgreement"
    ∷ named 32 "certSign"
    ∷ named 64 "crlSign"
    ∷ named 128 "encipherOnly"
    ∷ named 256 "decipherOnly"
    ∷ []

-- extKeyUsages, and the map `names` of extKeyUsageStrings
abbrev pub ext_key_usages : List Named
ext_key_usages =
    named 1 "serverAuth"
    ∷ named 2 "clientAuth"
    ∷ named 3 "codeSigning"
    ∷ named 4 "emailProtection"
    ∷ named 8 "timeStamping"
    ∷ named 9 "ocspSigning"
    ∷ []

unfoldable pub number_of : List Named → String → Option ℕ
number_of table s = elim (first_where (λ n. n.name == s) table) [
  | none ↦ none
  | some n ↦ some n.number
]

unfoldable pub name_of_number : List Named → ℕ → Option String
name_of_number table k = elim (first_where (λ n. nat_eq n.number k) table) [
  | none ↦ none
  | some n ↦ some n.name
]

unfoldable pub key_algorithm : String → Option Algorithm
key_algorithm s =
    if s == "ecdsa-p256" then some ecdsa_p256 else if s == "rsa-2048" then some rsa_2048 else none

-- the loop that ORs the bits
unfoldable pub key_usage_of : ℕ → List String → Option ℕ
key_usage_of usage [] = some usage
key_usage_of usage (s ∷ names) = elim (number_of key_usage_bits s) [
  | none ↦ none
  | some bit ↦ key_usage_of (bit_or usage bit) names
]

unfoldable pub ext_key_usage_of : List String → Option (List ℕ)
ext_key_usage_of [] = some []
ext_key_usage_of (s ∷ names) =
    let rest = ext_key_usage_of names in
    elim (number_of ext_key_usages s) [
      | none ↦ none
      | some eku ↦ (elim rest [ none ↦ none | some ekus ↦ some (eku ∷ ekus) ])
    ]

-- what toProfile returns once every text has been read
abbrev config_profile : ProfileConfig → Algorithm → ℕ → List ℕ → ℕ → Profile
config_profile c alg usage ekus validity = record {
  name = c.name;
  version = 1;
  key_algorithm = alg;
  key_usage = usage;
  ext_key_usage = ekus;
  critical_eku = c.critical_eku;
  validity = validity;
  enable_ocsp = c.enable_ocsp;
  enable_crl = c.enable_crl;
  aia_template = "";
  cdp_template = "";
  ocsp_template = "";
}

unfoldable pub to_profile : Library → ProfileConfig → Option Profile
to_profile lib c = if c.name == "" then none else elim (key_algorithm c.key_algorithm) [
  | none ↦ none
  | some alg ↦ (elim (key_usage_of 0 c.key_usage) [
    | none ↦ none
    | some usage ↦ (elim (ext_key_usage_of c.ext_key_usage) [
      | none ↦ none
      | some ekus ↦ (elim (lib.parse_duration c.validity) [
        | none ↦ none
        | some validity ↦ some (config_profile c alg usage ekus validity)
      ])
    ])
  ])
]

-- keyUsageStrings, over the rest of its table
unfoldable pub key_usage_names : List Named → ℕ → List String
key_usage_names [] usage = []
key_usage_names (n ∷ table) usage =
    let rest = key_usage_names table usage in
    if not (nat_eq (bit_and usage n.number) 0) then n.name ∷ rest else rest

unfoldable pub key_usage_strings : ℕ → List String
key_usage_strings usage = key_usage_names key_usage_bits usage

-- extKeyUsageStrings, which skips a usage that has no name
unfoldable pub ext_key_usage_strings : List ℕ → List String
ext_key_usage_strings [] = []
ext_key_usage_strings (eku ∷ ekus) =
    let rest = ext_key_usage_strings ekus in
    elim (name_of_number ext_key_usages eku) [ none ↦ rest | some name ↦ name ∷ rest ]
