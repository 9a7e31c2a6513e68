-- ===== src/Start/Configuration.antt =====
-- platform/config/config.go: the settings, their checks, and what the environment puts in their place.
-- Viper's reading of the file is a parameter, and `os.Getenv` a function, empty where a variable is
-- missing. Numbers of 0 or less act as 0. An error is a constructor in place of its text.
use chat_gateway.Prelude.{
  ℕ, Option, none, some, Bool, false, ◌||◌, [], ◌++◌, ltb, leb, ◌==◌, if◌then◌else◌,
}
use chat_gateway.Prelude.Text.{Text, bytes, text_eq}

pub record MongoConfig : Type 0 where
  pub url : Text
  pub database : Text
  pub username : Text
  pub password : Text
  pub max_pool_size : ℕ
  pub min_pool_size : ℕ
  pub tls_enabled : Bool
  pub tls_ca_file : Text
  pub tls_cert_file : Text
  pub tls_key_file : Text

-- The parts of `Config` that are checked, and those that the start reads.
pub record Settings : Type 0 where
  pub app_name : Text
  pub app_version : Text
  pub debug : Bool
  pub server_host : Text
  pub server_port : Text
  pub server_timeout : ℕ
  pub mongo : MongoConfig
  pub rotation_time_hours : ℕ
  pub max_age_days : ℕ
  pub max_size_mb : ℕ
  pub encryption : Bool
  pub audit : Bool
  pub tls : Bool

pub data ConfigError : Type 0 where
  no_app_name no_app_version no_host no_port no_timeout : ConfigError
  no_mongo_url no_database no_pool pool_too_small : ConfigError
  no_rotation_time no_max_age no_max_size : ConfigError
  unreadable undecodable : ConfigError

abbrev is_empty : Text → Bool
is_empty text = text_eq text []

unfoldable pub validate_log : Settings → Option ConfigError
validate_log s =
    if leb s.rotation_time_hours 0
    then some no_rotation_time
    else if leb s.max_age_days 0
    then some no_max_age
    else if leb s.max_size_mb 0
    then some no_max_size
    else none

unfoldable pub validate_mongo : Settings → Option ConfigError
unfolding validate_log
validate_mongo s =
    if is_empty s.mongo.url
    then some no_mongo_url
    else if is_empty s.mongo.database
    then some no_database
    else if s.mongo.max_pool_size == 0
    then some no_pool
    else if ltb s.mongo.max_pool_size s.mongo.min_pool_size
    then some pool_too_small
    else validate_log s

-- The first error, if there is one.
unfoldable pub validate_config : Settings → Option ConfigError
unfolding validate_mongo
validate_config s =
    if is_empty s.app_name
    then some no_app_name
    else if is_empty s.app_version
    then some no_app_version
    else if is_empty s.server_host
    then some no_host
    else if is_empty s.server_port
    then some no_port
    else if leb s.server_timeout 0
    then some no_timeout
    else validate_mongo s

abbrev pub Environment : Type 0
Environment = Text → Text

-- A variable that is set, or what was there.
abbrev pub from_env : Text → Text → Text
from_env value old = if is_empty value then old else value

abbrev flag_from_env : Text → Bool → Bool
flag_from_env value old =
    if is_empty value then old else text_eq value (bytes "true") || text_eq value (bytes "1")

unfoldable pub override_mongo_config_from_env : Environment → MongoConfig → MongoConfig
override_mongo_config_from_env env m = record m {
  url =
      from_env (env (bytes "MONGODB_URI"))
        (from_env (env (bytes "MONGO_URL")) (from_env (env (bytes "mongoURL")) m.url));
  database = from_env (env (bytes "MONGO_DATABASE")) m.database;
  username = from_env (env (bytes "MONGO_USERNAME")) m.username;
  password = from_env (env (bytes "MONGO_PASSWORD")) m.password;
  tls_enabled = flag_from_env (env (bytes "MONGO_TLS_ENABLED")) m.tls_enabled;
  tls_ca_file = from_env (env (bytes "MONGO_TLS_CA_FILE")) m.tls_ca_file;
  tls_cert_file = from_env (env (bytes "MONGO_TLS_CERT_FILE")) m.tls_cert_file;
  tls_key_file = from_env (env (bytes "MONGO_TLS_KEY_FILE")) m.tls_key_file;
}

-- What Viper makes of the file: an error of reading, one of decoding with what is decoded, or the
-- settings.
pub data ConfigFile : Type 0 where
  missing : ConfigFile
  garbled read : Settings → ConfigFile

-- `Load` without an argument, less the name of the file: the variable `config` afterwards, and the error. The variable is set
-- before the settings are checked.
unfoldable pub load :
    Environment → ConfigFile → Option Settings → Option Settings × Option ConfigError
unfolding validate_config override_mongo_config_from_env
load env missing old = (old, some unreadable)
load env (garbled s) old = (some s, some undecodable)
load env (read s) old =
    let s' : Settings = record s { mongo = override_mongo_config_from_env env s.mongo } in
    (some s', validate_config s')

-- `Load` with settings.
unfoldable pub load_given : Settings → Option Settings × Option ConfigError
unfolding validate_config
load_given s = (some s, validate_config s)

unfoldable pub is_debug : Option Settings → Bool
is_debug none = false
is_debug (some s) = s.debug

unfoldable pub get_server_addr : Option Settings → Text
get_server_addr none = bytes "localhost:8080"
get_server_addr (some s) = s.server_host ++ bytes ":" ++ s.server_port

unfoldable pub get_mongo_url : Option Settings → Text
get_mongo_url none = []
get_mongo_url (some s) = s.mongo.url
