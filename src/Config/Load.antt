-- ===== src/Config/Load.antt =====
-- internal/config/load.go. The process environment is a function of the variable's name; the YAML decoder,
-- the URL parser, strconv and the white space of package strings are parameters.
use trust_mate.Common.{
  ℕ, String, Bool, true, false, Option, none, some, List, ◌==◌, ◌&&◌, ◌||◌, not, map, select,
  if◌then◌else◌,
}
use trust_mate.Store.Records.{Bytes}
use trust_mate.Exec.{Result, ok, err}
use trust_mate.Config.Types.{Config, defaults}

-- what url.Parse makes of a text
pub record Url : Type 0 where
  pub scheme : String
  pub host : String

-- the library functions and the process's surroundings
pub record Surroundings : Type 0 where
  pub lookup_env : String → Option String
  pub read_file : String → Option Bytes
  -- yaml.Unmarshal onto a configuration
  pub unmarshal_yaml : Bytes → Config → Option Config
  pub parse_url : String → Option Url
  pub parse_bool : String → Option Bool
  pub atoi : String → Option ℕ
  -- strings.Split at a comma, strings.TrimSpace and strings.TrimRight of "/"
  pub split_comma : String → List String
  pub trim_space : String → String
  pub trim_right_slash : String → String

pub data ConfigError : Type 0 where
  unreadable not_yaml store_driver keystore_driver token_and_slot not_a_url not_absolute :
      ConfigError

module _ (s : Surroundings) where
  unfoldable pub str_var : String → String → String
  str_var key dst = elim (s.lookup_env key) [ none ↦ dst | some v ↦ v ]

  unfoldable pub str_slice_var : String → List String → List String
  str_slice_var key dst = elim (s.lookup_env key) [
    | none ↦ dst
    | some v ↦ select (λ part. not (part == "")) (map s.trim_space (s.split_comma v))
  ]

  unfoldable pub bool_var : String → Bool → Bool
  bool_var key dst = elim (s.lookup_env key) [
    | none ↦ dst
    | some v ↦ (elim (s.parse_bool v) [ none ↦ dst | some b ↦ b ])
  ]

  unfoldable pub int_ptr_var : String → Option ℕ → Option ℕ
  int_ptr_var key dst = elim (s.lookup_env key) [
    | none ↦ dst
    | some v ↦ (elim (s.atoi v) [ none ↦ dst | some n ↦ some n ])
  ]

  unfoldable pub apply_env_overrides : Config → Config
  apply_env_overrides cfg = record cfg {
    instance_name = str_var "TRUSTMATE_INSTANCE_NAME" cfg.instance_name;
    server = record {
      listen_addr = str_var "TRUSTMATE_LISTEN_ADDR" cfg.server.listen_addr;
      tls_sans = str_slice_var "TRUSTMATE_TLS_SANS" cfg.server.tls_sans;
      public_base_url = str_var "TRUSTMATE_PUBLIC_BASE_URL" cfg.server.public_base_url;
    };
    log_level = str_var "TRUSTMATE_LOG_LEVEL" cfg.log_level;
    modules = record {
      revocation = bool_var "TRUSTMATE_ENABLE_REVOCATION" cfg.modules.revocation;
      tsa = bool_var "TRUSTMATE_ENABLE_TSA" cfg.modules.tsa;
      acme = bool_var "TRUSTMATE_ENABLE_ACME" cfg.modules.acme;
      discovery = bool_var "TRUSTMATE_ENABLE_DISCOVERY" cfg.modules.discovery;
    };
    store = record {
      driver = str_var "TRUSTMATE_STORE_DRIVER" cfg.store.driver;
      dsn = str_var "TRUSTMATE_STORE_DSN" cfg.store.dsn;
    };
    keystore = record {
      driver = str_var "TRUSTMATE_KEYSTORE_DRIVER" cfg.keystore.driver;
      dir = str_var "TRUSTMATE_KEYSTORE_DIR" cfg.keystore.dir;
      vault = record {
        address = str_var "TRUSTMATE_VAULT_ADDR" cfg.keystore.vault.address;
        transit_mount = str_var "TRUSTMATE_VAULT_TRANSIT_MOUNT" cfg.keystore.vault.transit_mount;
      };
      pkcs11 = record {
        module_path = str_var "TRUSTMATE_PKCS11_MODULE_PATH" cfg.keystore.pkcs11.module_path;
        token_label = str_var "TRUSTMATE_PKCS11_TOKEN_LABEL" cfg.keystore.pkcs11.token_label;
        slot_number = int_ptr_var "TRUSTMATE_PKCS11_SLOT_NUMBER" cfg.keystore.pkcs11.slot_number;
      };
    };
    bootstrap = record cfg.bootstrap {
      output_dir = str_var "TRUSTMATE_BOOTSTRAP_OUTPUT_DIR" cfg.bootstrap.output_dir;
    };
    profiles_dir = str_var "TRUSTMATE_PROFILES_DIR" cfg.profiles_dir;
  }

  unfoldable pub is_store_driver : String → Bool
  is_store_driver d = d == "sqlite" || d == "postgres"

  unfoldable pub is_keystore_driver : String → Bool
  is_keystore_driver d = d == "file" || (d == "vault" || d == "pkcs11")

  abbrev pub is_set : Option ℕ → Bool
  is_set none = false
  is_set (some n) = true

  -- the checks of the public base URL, and its trimming
  unfoldable pub with_trimmed_url : Config → Result ConfigError Config
  with_trimmed_url cfg = elim (s.parse_url cfg.server.public_base_url) [
    | none ↦ err not_a_url
    | some u ↦
        (if u.scheme == "" || u.host == ""
          then err not_absolute
          else ok (record cfg {
            server = record cfg.server {
              public_base_url = s.trim_right_slash cfg.server.public_base_url;
            };
          }))
  ]

  unfoldable pub validate : Config → Result ConfigError Config
  validate cfg =
      if not (is_store_driver cfg.store.driver)
      then err store_driver
      else if not (is_keystore_driver cfg.keystore.driver)
      then err keystore_driver
      else if not (cfg.keystore.pkcs11.token_label == "") && is_set cfg.keystore.pkcs11.slot_number
      then err token_and_slot
      else with_trimmed_url cfg

  unfoldable pub load : String → Result ConfigError Config
  load path = if path == "" then ok defaults else elim (s.read_file path) [
    | none ↦ err unreadable
    | some contents ↦ (elim (s.unmarshal_yaml contents defaults) [
      | none ↦ err not_yaml
      | some cfg ↦ validate cfg
    ])
  ]

  unfoldable pub load_from_env : String → Result ConfigError Config
  load_from_env path = elim (load path) [
    | err e ↦ err e
    | ok cfg ↦ validate (apply_env_overrides cfg)
  ]
