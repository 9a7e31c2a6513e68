-- ===== src/Start/Boot/Examples.antt =====
-- The theorems on the start at a process with a configuration and a random master key.
use chat_gateway.Prelude.{◌*◌, ◌≡◌, refl, none, some, true, false, List, [], ◌∷◌, take, ok}
use chat_gateway.Prelude.Text.{Text, bytes, text_eq}
use chat_gateway.Security.KeyManager.{KeyManager, get_or_create_room_key}
use chat_gateway.Security.KeyManager.Upkeep.{hour, new_key_manager, check_and_rotate_keys}
use chat_gateway.Security.KeyManager.Rotating.{not_rotating}
use chat_gateway.Security.MessageEncryption.{
  Inputs, encrypt_message, encrypt_with, new_message_encryption,
}
use chat_gateway.Security.Audit.{new_audit_service}
use chat_gateway.Security.Fixtures.{cipher, store, inputs}
use chat_gateway.Start.Configuration.{
  Settings, ConfigFile, load, override_mongo_config_from_env, validate_config, validate_mongo,
  validate_log,
}
use chat_gateway.Start.Boot.{Surroundings, Services, load_master_key, boot_keys, new_server, boot}
use chat_gateway.Start.Boot.Rotation.{encrypts, Use, use_all, never_rotates}

abbrev settings : Settings
settings = record {
  app_name = bytes "chat";
  app_version = bytes "1";
  debug = false;
  server_host = bytes "localhost";
  server_port = bytes "8080";
  server_timeout = 30;
  mongo = record {
    url = bytes "mongodb://localhost";
    database = bytes "chat";
    username = [];
    password = [];
    max_pool_size = 10;
    min_pool_size = 1;
    tls_enabled = false;
    tls_ca_file = [];
    tls_cert_file = [];
    tls_key_file = [];
  };
  rotation_time_hours = 24;
  max_age_days = 7;
  max_size_mb = 100;
  encryption = true;
  audit = true;
  tls = false;
}

abbrev random_key : Text
random_key = bytes "0123456789abcdef0123456789abcdef"

abbrev surroundings : Surroundings (store.State)
surroundings = record {
  logger = true;
  env = λ name. [];
  file = ConfigFile.read settings;
  database = some [];
  random = some random_key;
  certificates = false;
}

abbrev keyed_inputs : Inputs
keyed_inputs = record inputs { key_entropy = some random_key; key_iv = some (take 16 random_key) }

abbrev uses : List Use
uses = encrypts keyed_inputs (bytes "hi") (bytes "r") ∷ []

abbrev manager : KeyManager store.State
manager = record {
  heap = record { next = 0; cell = λ p. [] };
  keys = [];
  old_keys = [];
  master_key = random_key;
  store = [];
  rotation_policy = record {
    enabled = false;
    rotation_interval = 24 * hour;
    max_key_age = 30 * 24 * hour;
    keep_old_keys = 5;
  };
}

abbrev services : Services store.State
services = record {
  encryption = new_message_encryption true (some manager);
  audit = new_audit_service true;
  rotating = not_rotating;
}

abbrev loaded_settings : Settings
loaded_settings = record settings {
  mongo = override_mongo_config_from_env (λ name. []) settings.mongo;
}

starts : boot surroundings ≡ ok services
unfolding boot boot_keys new_server load validate_config validate_mongo validate_log load_master_key
    new_key_manager text_eq override_mongo_config_from_env
starts = refl

-- The manager with the key of the room that the message has made.
abbrev used : KeyManager store.State
used =
    (get_or_create_room_key cipher store 9 (some random_key) (some (take 16 random_key)) (bytes "r")
      manager).1

use_keeps : (use_all cipher store uses services.encryption).key_manager ≡ some used
unfolding encrypt_message encrypt_with new_message_encryption
use_keeps = refl

never_rotates_example :
    check_and_rotate_keys cipher store 9 (λ room. none) (λ room. none) used ≡ used
never_rotates_example =
    never_rotates cipher store surroundings services uses used 9 (λ room. none) (λ room. none)
      starts use_keeps
