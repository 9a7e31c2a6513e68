-- ===== src/Start/Boot.antt =====
-- cmd/api/main.go, with `NewServer` of grpc/server.go: the way from the settings to the services. What
-- the logger, the database and the TLS certificates do is an argument; what runs afterwards, the
-- servers and their end at a signal, is left out.
pub mod Encrypted
pub mod Rotation
mod Examples
use chat_gateway.Prelude.{
  ℕ, Option, none, some, Bool, true, false, not, ◌||◌, List, [], length, ◌==◌, if◌then◌else◌,
  Result, ok, err, ◌>>=◌,
}
use chat_gateway.Prelude.Text.{Text, bytes, text_eq}
use chat_gateway.Security.Base64
use chat_gateway.Security.KeyManager.{KeyManager}
use chat_gateway.Security.KeyManager.Upkeep.{new_key_manager}
use chat_gateway.Security.KeyManager.Rotating.{Rotating, not_rotating, start_auto_rotation}
use chat_gateway.Security.MessageEncryption.{MessageEncryption, new_message_encryption}
use chat_gateway.Security.Audit.{AuditService, new_audit_service}
use chat_gateway.Start.Configuration.{Environment, ConfigFile, Settings, ConfigError, load}

abbrev of_length_32 : Text → Option Text
of_length_32 key = if length key == 32 then some key else none

abbrev decoded_key : Option Text → Option Text
decoded_key none = none
decoded_key (some key) = of_length_32 key

-- `loadMasterKey`: the key of the environment in Base64, or a random one, `none` where `rand` fails.
unfoldable pub load_master_key : Text → Option Text → Option Text
load_master_key env random =
    if not (text_eq env []) then decoded_key (Base64.decode env) else random

pub data BootError : Type 0 where
  no_logger no_connection encryption_failed no_server : BootError
  bad_config : ConfigError → BootError

-- What the start meets. The database is connected with its key store, or not.
pub record Surroundings (S : Type 0) : Type 0 where
  pub logger : Bool
  pub env : Environment
  pub file : ConfigFile
  pub database : Option S
  -- 32 random bytes
  pub random : Option Text
  -- whether the certificates of the server can be loaded
  pub certificates : Bool

pub record Services (S : Type 0) : Type 0 where
  pub encryption : MessageEncryption S
  pub audit : AuditService
  pub rotating : Rotating

abbrev pub require : Bool → BootError → Result BootError (Unit {0})
require true e = ok tt
require false e = err e

-- The settings that `config.Load` leaves, if it reports no error.
abbrev pub loaded : Option Settings × Option ConfigError → Result BootError Settings
loaded (s, some e) = err (bad_config e)
loaded (none, none) = err (bad_config ConfigError.unreadable)
loaded (some s, none) = ok s

abbrev pub present : {A : Type 0} → BootError → Option A → Result BootError A
present e none = err e
present e (some a) = ok a

-- `KEY_ROTATION_ENABLED`
abbrev pub rotating_from : Text → Rotating
rotating_from value =
    if text_eq value (bytes "true") then start_auto_rotation not_rotating else not_rotating

module _ {S : Type 0} (o : Surroundings S) where
  -- The key manager of `mainNoExit`, and whether its rotation runs.
  unfoldable pub boot_keys : Settings → S → Result BootError (Option (KeyManager S) × Rotating)
  unfolding load_master_key
  boot_keys s db = if not s.encryption then ok (none, not_rotating) else (do
    master ← present encryption_failed (load_master_key (o.env (bytes "MASTER_KEY")) o.random)
    km ← present encryption_failed (new_key_manager master db)
    ok (some km, rotating_from (o.env (bytes "KEY_ROTATION_ENABLED"))))

  -- `NewServer`
  unfoldable pub new_server :
      Settings → Option (KeyManager S) × Rotating → Result BootError (Services S)
  new_server s (km, rotating) = do
    secured ← require (not s.tls || o.certificates) no_server
    ok (record {
      encryption = new_message_encryption s.encryption km;
      audit = new_audit_service s.audit;
      rotating = rotating;
    })

  -- `mainNoExit` up to the start of the servers.
  unfoldable pub boot : Result BootError (Services S)
  unfolding boot_keys new_server
  boot = do
    logging ← require o.logger no_logger
    s ← loaded (load o.env o.file none)
    db ← present no_connection o.database
    keys ← boot_keys s db
    new_server s keys
