-- ===== src/Keystore/Secrets.antt =====
-- internal/keystore/keystore.go: loadSecret and LoadKEK; internal/keystore/filekeystore.go: NewFileKeyStore.
-- The process's variables and strings.TrimRight of line ends are parameters.
use trust_mate.Common.{String, Option, none, some, ◌==◌, if◌then◌else◌}
use trust_mate.Store.Records.{Bytes, Error, other}
use trust_mate.Exec.{Exec, ◌>>=◌, ◌>>◌, pure, raise, attempt}
use trust_mate.Files.{read_file, make_dir}
use trust_mate.Keystore.Files.{FileKeyStore}

module _ (lookup_env : String → Option String) (trim_line_ends : String → String) where
  -- a secret that is "" is an error
  unfoldable pub not_empty : String → Exec Error String
  not_empty secret = if secret == "" then raise other else pure secret

  unfoldable pub secret_of_file : String → Exec Error String
  secret_of_file path = do
    contents ← attempt (read_file path) (λ _. raise other)
    not_empty (trim_line_ends contents)

  unfoldable pub load_secret : (file_env_var literal_env_var : String) → Exec Error String
  load_secret file_env_var literal_env_var = elim (lookup_env file_env_var) [
    | some path ↦ secret_of_file path
    | none ↦ (elim (lookup_env literal_env_var) [ none ↦ raise other | some v ↦ not_empty v ])
  ]

  unfoldable pub load_kek : Exec Error Bytes
  load_kek = load_secret "TRUSTMATE_KEK_FILE" "TRUSTMATE_KEK"

  unfoldable pub load_pkcs11_pin : Exec Error String
  load_pkcs11_pin = load_secret "TRUSTMATE_PKCS11_PIN_FILE" "TRUSTMATE_PKCS11_PIN"

-- the map of loaded keys, which starts empty, is part of the world
unfoldable pub new_file_key_store : String → Bytes → Exec Error FileKeyStore
new_file_key_store dir passphrase =
    if passphrase == ""
    then raise other
    else do make_dir dir; pure (record { dir = dir; passphrase = passphrase })
