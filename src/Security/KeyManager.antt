-- ===== src/Security/KeyManager.antt =====
-- internal/security/keymanager/key_manager_v2.go and types.go: room keys, cached in memory and saved
-- in the key store. The byte slices of the keys are shared and wiped, so they are buffers on a heap
-- and a key holds an address. An operation runs under the mutex from start to end; what it reads from
-- the clock and from `rand` is an argument, `none` where `rand` fails.
pub mod Buffers
pub mod Sealing
pub mod Creation
pub mod Restart
pub mod Rotation
pub mod Upkeep
pub mod Rotating
mod Examples
use chat_gateway.Prelude.{
  ℕ, ◌+◌, ◌-◌, Option, none, some, Bool, true, false, ◌&&◌, ◌||◌, List, [], ◌∷◌, ◌++◌, length, take,
  drop, ltb, leb, if◌then◌else◌, Result, ok, err,
}
use chat_gateway.Prelude.Text.{Text, text_eq}
use chat_gateway.Prelude.Dict.{Dict, lookup, insert}
use chat_gateway.Security.Base64
use chat_gateway.Security.Cipher.{BlockCipher, valid_key, block_size, xor_key_stream}
use chat_gateway.Security.KeyStore.{KeyDocument, save_key, get_active_key}
use chat_gateway.Storage.Collection.{Collection}
use Buffers.{Heap, alloc, wipe}

pub data KeyStatus : Type 0 where
  active archived revoked : KeyStatus

pub record Key : Type 0 where
  pub id : Text
  pub value : ℕ
  pub created_at : ℕ
  pub rotated_at : ℕ
  pub version : ℕ
  pub status : KeyStatus

pub record RotationPolicy : Type 0 where
  pub enabled : Bool
  pub rotation_interval : ℕ
  pub max_key_age : ℕ
  pub keep_old_keys : ℕ

pub record KeyManager (S : Type 0) : Type 0 where
  pub heap : Heap
  pub keys : Dict Key
  pub old_keys : Dict (List Key)
  pub master_key : Text
  pub store : S
  pub rotation_policy : RotationPolicy

pub data KeyError : Type 0 where
  empty_room loading_error decryption_error generation_error : KeyError
  encryption_error persistence_error not_found : KeyError

-- `key, exists := km.keys[roomID]; exists && key.Status == KeyStatusActive`
abbrev pub if_active : Key → KeyStatus → Option Key
if_active k active = some k
if_active k archived = none
if_active k revoked = none

abbrev pub active_key : Option Key → Option Key
active_key none = none
active_key (some k) = if_active k k.status

abbrev pub entries_of : Option (List Key) → List Key
entries_of none = []
entries_of (some ks) = ks

-- `cleanupOldKeys` on a room's list: the newest keys stay. A negative number of keys to keep, with which
-- the source would panic, is not covered.
unfoldable pub cleanup_old_keys : ℕ → List Key → List Key
cleanup_old_keys keep_old_keys ks =
    if leb (length ks) keep_old_keys then ks else drop (length ks - keep_old_keys) ks

-- `now.Sub(t) > d`
abbrev older : ℕ → ℕ → ℕ → Bool
older now t d = ltb (t + d) now

unfoldable pub should_rotate_key : RotationPolicy → ℕ → Key → Bool
should_rotate_key p now k =
    p.enabled
    && (ltb 0 p.max_key_age && older now k.created_at p.max_key_age
        || ltb 0 p.rotation_interval && older now k.rotated_at p.rotation_interval)

module _ (aes : BlockCipher) where
  -- `encryptRoomKey`: `none` is an error.
  unfoldable pub encrypt_room_key : Text → Option Text → Text → Option Text
  encrypt_room_key master none room_key = none
  encrypt_room_key master (some iv) room_key =
      if valid_key master
      then some (Base64.encode (iv ++ xor_key_stream aes master iv room_key))
      else none

  abbrev decrypt_decoded : Text → Option Text → Option Text
  decrypt_decoded master none = none
  decrypt_decoded master (some sealed) =
      if ltb (length sealed) block_size
      then none
      else if valid_key master
      then some (xor_key_stream aes master (take block_size sealed) (drop block_size sealed))
      else none

  unfoldable pub decrypt_room_key : Text → Text → Option Text
  decrypt_room_key master encrypted_key = decrypt_decoded master (Base64.decode encrypted_key)

module _ (aes : BlockCipher) (c : Collection KeyDocument) where
  abbrev pub Manager : Type 0
  Manager = KeyManager c.State

  abbrev pub document : Text → ℕ → Text → ℕ → ℕ → ℕ → KeyDocument
  document room version encrypted created now max_key_age = record {
    room_id = room;
    key_version = version;
    encrypted_key = encrypted;
    created_at = created;
    rotated_at = now;
    is_active = true;
    expires_at = now + max_key_age;
  }

  abbrev pub fresh_key : Text → ℕ → ℕ → ℕ → ℕ → Key
  fresh_key room value created now version = record {
    id = room;
    value = value;
    created_at = created;
    rotated_at = now;
    version = version;
    status = active;
  }

  -- The end of `createRoomKeyUnsafe`, once the new key at `value` and its copy at `cached` are made:
  -- a second copy is returned, and the first buffer is wiped on every way out.
  unfoldable pub persist_new :
      ℕ → Text → Text → ℕ → ℕ → Option Text → Manager → Result KeyError ℕ × Manager
  persist_new now room bytes value cached none m =
      (err encryption_error, record m { heap = wipe value m.heap })
  persist_new now room bytes value cached (some encrypted) m =
      let (db, saved) =
        save_key c (document room 1 encrypted now now m.rotation_policy.max_key_age) m.store in
      let (copy, h) = alloc bytes m.heap in
      if saved
      then (
        ok copy,
        record m {
          heap = wipe value h;
          keys = insert room (fresh_key room cached now now 1) m.keys;
          store = db;
        },
      )
      else (err persistence_error, record m { heap = wipe value m.heap; store = db })

  unfoldable pub create_room_key :
      ℕ → Option Text → Option Text → Text → Manager → Result KeyError ℕ × Manager
  unfolding persist_new
  create_room_key now none iv room m = elim (active_key (lookup room m.keys)) [
    | some k ↦ (ok k.value, m)
    | none ↦ (err generation_error, m)
  ]
  create_room_key now (some bytes) iv room m = elim (active_key (lookup room m.keys)) [
    | some k ↦ (ok k.value, m)
    | none ↦
        let (value, h) = alloc bytes m.heap in
        let (cached, h') = alloc bytes h in
        persist_new now room bytes value cached (encrypt_room_key aes m.master_key iv bytes)
          (record m { heap = h' })
  ]

  -- Loading a key that the store holds.
  unfoldable pub load_key : Text → KeyDocument → Option Text → Manager → Result KeyError ℕ × Manager
  load_key room doc none m = (err decryption_error, m)
  load_key room doc (some bytes) m =
      let (value, h) = alloc bytes m.heap in
      (
        ok value,
        record m {
          heap = h;
          keys =
              insert room
                (record {
                  id = room;
                  value = value;
                  created_at = doc.created_at;
                  rotated_at = doc.rotated_at;
                  version = doc.key_version;
                  status = active;
                })
                m.keys;
        },
      )

  -- `GetOrCreateRoomKey` under the write lock: the second check, the store, a new key.
  unfoldable pub slow_path :
      ℕ → Option Text → Option Text → Text → Manager → Result KeyError ℕ × Manager
  unfolding load_key create_room_key
  slow_path now entropy iv room m = elim (active_key (lookup room m.keys)) [
    | some k ↦ (ok k.value, m)
    | none ↦ elim (get_active_key c room m.store) [
      | err e ↦ (err loading_error, m)
      | ok (some doc) ↦ load_key room doc (decrypt_room_key aes m.master_key doc.encrypted_key) m
      | ok none ↦ create_room_key now entropy iv room m
    ]
  ]

  unfoldable pub get_or_create_room_key :
      ℕ → Option Text → Option Text → Text → Manager → Result KeyError ℕ × Manager
  unfolding slow_path
  get_or_create_room_key now entropy iv room m =
      if text_eq room [] then (err empty_room, m) else elim (active_key (lookup room m.keys)) [
        | some k ↦ (ok k.value, m)
        | none ↦ slow_path now entropy iv room m
      ]

  -- The end of `rotateKey`: the buffer at `value` is the new key's own, and it is wiped on every way
  -- out; the old key's buffer is wiped when the new key is saved.
  unfoldable pub persist_rotated :
      ℕ → Text → Key → ℕ → Option Text → Manager → Result KeyError (Unit {0}) × Manager
  persist_rotated now room old value none m =
      (err encryption_error, record m { heap = wipe value m.heap })
  persist_rotated now room old value (some encrypted) m =
      let (db, saved) =
        save_key c
          (document room (old.version + 1) encrypted old.created_at now
            m.rotation_policy.max_key_age)
          m.store in
      if saved
      then (
        ok tt,
        record m {
          heap = wipe value (wipe old.value m.heap);
          keys = insert room (fresh_key room value old.created_at now (old.version + 1)) m.keys;
          old_keys =
              insert room
                (cleanup_old_keys m.rotation_policy.keep_old_keys
                  (entries_of (lookup room m.old_keys) ++ record old { status = archived } ∷ []))
                m.old_keys;
          store = db;
        },
      )
      else (err persistence_error, record m { heap = wipe value m.heap; store = db })

  unfoldable pub rotate_key :
      ℕ → Option Text → Option Text → Text → Manager → Result KeyError (Unit {0}) × Manager
  unfolding persist_rotated
  rotate_key now entropy iv room m = elim (lookup room m.keys) [
    | none ↦ (err not_found, m)
    | some old ↦ elim entropy [
      | none ↦ (err generation_error, m)
      | some bytes ↦
          let (value, h) = alloc bytes m.heap in
          persist_rotated now room old value (encrypt_room_key aes m.master_key iv bytes)
            (record m { heap = h })
    ]
  ]
