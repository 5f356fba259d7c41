-- ===== src/Config/Types.antt =====
-- internal/config/config.go. A duration is a number of nanoseconds.
use Prim.Native.String
use trust_mate.Common.{ℕ, ◌*◌, String, Bool, true, false, Option, none, List, [], ◌∷◌}
use trust_mate.Profiles.Types.{hour}

pub record ServerConfig : Type 0 where
  pub listen_addr : String
  pub tls_sans : List String
  pub public_base_url : String

pub record ModulesConfig : Type 0 where
  pub revocation : Bool
  pub tsa : Bool
  pub acme : Bool
  pub discovery : Bool

pub record StoreConfig : Type 0 where
  pub driver : String
  pub dsn : String

pub record VaultKeystoreConfig : Type 0 where
  pub address : String
  pub transit_mount : String

pub record Pkcs11KeystoreConfig : Type 0 where
  pub module_path : String
  pub token_label : String
  pub slot_number : Option ℕ

pub record KeystoreConfig : Type 0 where
  pub driver : String
  pub dir : String
  pub vault : VaultKeystoreConfig
  pub pkcs11 : Pkcs11KeystoreConfig

pub record BootstrapConfig : Type 0 where
  pub output_dir : String
  pub root_validity : ℕ
  pub intermediate_validity : ℕ
  pub admin_validity : ℕ
  pub server_validity : ℕ
  pub tsa_validity : ℕ

-- `log_level` is Log.Level, `profiles_dir` Profiles.Dir
pub record Config : Type 0 where
  pub instance_name : String
  pub server : ServerConfig
  pub log_level : String
  pub modules : ModulesConfig
  pub store : StoreConfig
  pub keystore : KeystoreConfig
  pub bootstrap : BootstrapConfig
  pub profiles_dir : String

unfoldable pub root_common_name : Config → String
root_common_name c = String.◌++◌ c.instance_name " Root CA"

unfoldable pub intermediate_common_name : Config → String
intermediate_common_name c = String.◌++◌ c.instance_name " Intermediate CA"

unfoldable pub admin_common_name : Config → String
admin_common_name c = String.◌++◌ c.instance_name " Admin Access"

unfoldable pub server_common_name : Config → String
server_common_name c = String.◌++◌ c.instance_name " REST API"

unfoldable pub tsa_common_name : Config → String
tsa_common_name c = String.◌++◌ c.instance_name " TSA"

abbrev pub defaults : Config
defaults = record {
  instance_name = "TrustMate";
  server = record {
    listen_addr = ":8080";
    tls_sans = "localhost" ∷ [];
    public_base_url = "https://localhost:8080";
  };
  log_level = "INFO";
  modules = record { revocation = true; tsa = true; acme = false; discovery = true };
  store = record { driver = "sqlite"; dsn = "./data/trustmate.db" };
  keystore = record {
    driver = "file";
    dir = "./data/keys";
    vault = record { address = ""; transit_mount = "" };
    pkcs11 = record { module_path = ""; token_label = ""; slot_number = none };
  };
  bootstrap = record {
    output_dir = "./data/bootstrap";
    root_validity = 10 * 365 * 24 * hour;
    intermediate_validity = 5 * 365 * 24 * hour;
    admin_validity = 365 * 24 * hour;
    server_validity = 365 * 24 * hour;
    tsa_validity = 2 * 365 * 24 * hour;
  };
  profiles_dir = "";
}
