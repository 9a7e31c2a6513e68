-- ===== src/Start/Boot/Encrypted.antt =====
-- main.go: what the services of a process that has started are.
use chat_gateway.Prelude.{
  ◌≡◌, ◌⊎◌, inl, inr, sym, subst, Option, none, some, Bool, true, false, not, ◌||◌, length,
  Bool-cases, Result, ok, ◌>>=◌, chain_ok, arith,
}
use chat_gateway.Prelude.Text.{Text, bytes}
use chat_gateway.Security.KeyManager.{KeyManager}
use chat_gateway.Security.KeyManager.Upkeep.{new_key_manager}
use chat_gateway.Security.KeyManager.Rotating.{Rotating}
use chat_gateway.Security.MessageEncryption.{MessageEncryption, new_message_encryption}
use chat_gateway.Security.Audit.{new_audit_service}
use chat_gateway.Start.Configuration.{Settings, ConfigError, load}
use chat_gateway.Start.Boot.{
  BootError, Surroundings, Services, load_master_key, loaded, present, require, rotating_from,
  boot_keys, no_logger, no_connection, encryption_failed, no_server, new_server, boot,
}

loaded_ok :
    (p : Option Settings × Option ConfigError) (s : Settings) → loaded p ≡ ok s → p ≡ (some s, none)
loaded_ok (s', some e) s h = cc
loaded_ok (none, none) s h = cc
loaded_ok (some s', none) s h = ground (arith, h)

present_ok : {A : Type 0} (e : BootError) (o : Option A) (a : A) → present e o ≡ ok a → o ≡ some a
present_ok e none a h = cc
present_ok e (some b) a h = ground (arith, h)

-- A manager that is made has a master key of 32 bytes, and its policy is off.
pub new_key_manager_ok :
    {S : Type 0} (master : Text) (db : S) (km : KeyManager S)
    → new_key_manager master db ≡ some km
    → (length km.master_key ≡ 32) × (km.rotation_policy.enabled ≡ false)
unfolding new_key_manager
new_key_manager_ok master db km h = ground (arith, h)

-- The manager that a start makes, if it makes one.
pub record IsFresh {S : Type 0} (km : KeyManager S) : Type 0 where
  pub size : length km.master_key ≡ 32
  pub off : km.rotation_policy.enabled ≡ false

-- What the settings ask for.
pub data Fits {S : Type 0} (on : Bool) : Option (KeyManager S) → Type 0 where
  plain : on ≡ false → Fits on none
  keyed : (km : KeyManager S) → on ≡ true → IsFresh km → Fits on (some km)

module _ {S : Type 0} (o : Surroundings S) where
  -- The parts of the chains.
  abbrev with_km : KeyManager S → Result BootError (Option (KeyManager S) × Rotating)
  with_km km = ok (some km, rotating_from (o.env (bytes "KEY_ROTATION_ENABLED")))

  abbrev with_master : S → Text → Result BootError (Option (KeyManager S) × Rotating)
  with_master db master = present encryption_failed (new_key_manager master db) >>= with_km

  abbrev with_database : Settings → S → Result BootError (Services S)
  with_database s db = boot_keys o s db >>= new_server o s

  abbrev with_settings : Settings → Result BootError (Services S)
  with_settings s = present no_connection o.database >>= with_database s

  abbrev made : Settings → Option (KeyManager S) × Rotating → Services S
  made s keys = record {
    encryption = new_message_encryption s.encryption keys.0;
    audit = new_audit_service s.audit;
    rotating = keys.1;
  }

  boot_keys_ok :
      (s : Settings) (db : S) (keys : Option (KeyManager S) × Rotating)
      → boot_keys o s db ≡ ok keys
      → Fits s.encryption keys.0
  unfolding boot_keys
  boot_keys_ok s db keys h = elim (Bool-cases s.encryption) [
    | inr off ↦
        let h' = rw (off, boot_keys) at h in
        let same : keys.0 ≡ none = ground (arith, h') in
        subst (λ (k : Option (KeyManager S)). Fits s.encryption k) (sym same) (plain off)
    | inl on ↦
        let h' = rw (on, boot_keys) at h in
        let (master, m, h2) =
          chain_ok
            (present encryption_failed (load_master_key (o.env (bytes "MASTER_KEY")) o.random))
            (with_master db) h' in
        let (km, k, h3) =
          chain_ok (present encryption_failed (new_key_manager master db)) with_km h2 in
        let fresh =
          new_key_manager_ok master db km
            (present_ok encryption_failed (new_key_manager master db) km k) in
        let same : keys.0 ≡ some km = ground (arith, h3) in
        subst (λ (k : Option (KeyManager S)). Fits s.encryption k) (sym same)
          (keyed km on (record { size = fresh.0; off = fresh.1 }))
  ]

  new_server_ok :
      (s : Settings) (keys : Option (KeyManager S) × Rotating) (v : Services S)
      → new_server o s keys ≡ ok v
      → (v.encryption ≡ new_message_encryption s.encryption keys.0)
        × (v.audit.enabled ≡ s.audit)
        × (v.rotating ≡ keys.1)
  unfolding new_server new_audit_service
  new_server_ok s (km, r) v h =
      let (secured, c, h2) =
        chain_ok (require (not s.tls || o.certificates) no_server) (λ done. ok (made s (km, r)))
          h in
      ground (arith, h2)

  -- The settings that a start has loaded, and the manager that fits them.
  pub record Started (v : Services S) : Type 0 where
    pub settings : Settings
    pub manager : Option (KeyManager S)
    pub from_file : load o.env o.file none ≡ (some settings, none)
    pub fits : Fits settings.encryption manager
    pub encrypts : v.encryption ≡ new_message_encryption settings.encryption manager
    pub audits : v.audit.enabled ≡ settings.audit

  pub boot-Started : (v : Services S) → boot o ≡ ok v → Started v
  unfolding boot
  boot-Started v h =
      let (logging, l, h1) =
        chain_ok (require o.logger no_logger)
          (λ done. loaded (load o.env o.file none) >>= with_settings) h in
      let (s, c, h2) = chain_ok (loaded (load o.env o.file none)) with_settings h1 in
      let (db, d, h3) = chain_ok (present no_connection o.database) (with_database s) h2 in
      let (keys, k, h4) = chain_ok (boot_keys o s db) (new_server o s) h3 in
      let same = new_server_ok s keys v h4 in
      record {
        settings = s;
        manager = keys.0;
        from_file = loaded_ok (load o.env o.file none) s c;
        fits = boot_keys_ok s db keys k;
        encrypts = same.0;
        audits = same.1;
      }

-- What the settings ask of the encryption.
abbrev AsAsked : {S : Type 0} → Bool → MessageEncryption S → Type 0
AsAsked {S = S} on e =
    (e.enabled ≡ on)
    × ((on ≡ false)
        ⊎ ((km : KeyManager S) × (e.key_manager ≡ some km) × (length km.master_key ≡ 32)))
