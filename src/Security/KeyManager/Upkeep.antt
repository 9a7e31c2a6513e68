-- ===== src/Security/KeyManager/Upkeep.antt =====
-- key_manager_v2.go: start, loading, reports, and the rotation of the keys that are due.
pub mod Due
pub mod Loading
use chat_gateway.Prelude.{
  ℕ, ◌+◌, ◌-◌, ◌*◌, Option, none, some, Bool, true, false, List, [], ◌∷◌, ◌++◌, length, ◌==◌,
  if◌then◌else◌, Result, ok, err,
}
use chat_gateway.Prelude.Text.{Text}
use chat_gateway.Prelude.Dict.{Dict, lookup, insert}
use chat_gateway.Storage.Collection.{Collection}
use chat_gateway.Security.Cipher.{BlockCipher}
use chat_gateway.Security.KeyStore.{KeyDocument, get_all_keys}
use chat_gateway.Security.KeyManager.{
  KeyManager, Key, KeyStatus, KeyError, RotationPolicy, active, archived, revoked, not_found,
  loading_error, decryption_error, entries_of, should_rotate_key, rotate_key, decrypt_room_key,
}
use chat_gateway.Security.KeyManager.Buffers.{alloc}

abbrev pub hour : ℕ
hour = 3600 * 1000000000

-- The manager copies the master key, so its bytes are a value here. The deletion of expired keys that
-- starts beside it is `delete_expired_keys` of the store.
unfoldable pub new_key_manager : {S : Type 0} → Text → S → Option (KeyManager S)
new_key_manager master store =
    if length master == 32
    then some (record {
      heap = record { next = 0; cell = λ p. [] };
      keys = [];
      old_keys = [];
      master_key = master;
      store = store;
      rotation_policy = record {
        enabled = false;
        rotation_interval = 24 * hour;
        max_key_age = 30 * 24 * hour;
        keep_old_keys = 5;
      };
    })
    else none

pub record KeyInfo : Type 0 where
  pub room_id : Text
  pub version : ℕ
  pub created_at : ℕ
  pub rotated_at : ℕ
  pub status : KeyStatus
  pub age : ℕ

pub record KeyManagerStats : Type 0 where
  pub total_keys : ℕ
  pub active_keys : ℕ
  pub archived_keys : ℕ
  pub revoked_keys : ℕ

abbrev info : ℕ → Key → KeyInfo
info now k = record {
  room_id = k.id;
  version = k.version;
  created_at = k.created_at;
  rotated_at = k.rotated_at;
  status = k.status;
  age = now - k.created_at;
}

unfoldable pub get_key_info : {S : Type 0} → ℕ → Text → KeyManager S → Result KeyError KeyInfo
get_key_info now room m = elim (lookup room m.keys) [
  | none ↦ err not_found
  | some k ↦ ok (info now k)
]

unfoldable pub set_rotation_policy : {S : Type 0} → RotationPolicy → KeyManager S → KeyManager S
set_rotation_policy policy m = record m { rotation_policy = policy }

abbrev count_status : KeyManagerStats → KeyStatus → KeyManagerStats
count_status s active = record s { active_keys = s.active_keys + 1 }
count_status s archived = s
count_status s revoked = record s { revoked_keys = s.revoked_keys + 1 }

-- The two loops of `Stats`.
unfoldable pub count_keys : Dict Key → KeyManagerStats → KeyManagerStats
count_keys [] s = s
count_keys ((room, k) ∷ ks) s = count_keys ks (count_status s k.status)

unfoldable pub count_archived : Dict (List Key) → ℕ
count_archived [] = 0
count_archived ((room, ks) ∷ rest) = length ks + count_archived rest

unfoldable pub stats : {S : Type 0} → KeyManager S → KeyManagerStats
unfolding count_keys count_archived
stats m =
    let counted = count_keys m.keys (record {
      total_keys = length m.keys;
      active_keys = 0;
      archived_keys = 0;
      revoked_keys = 0;
    }) in
    record counted { archived_keys = count_archived m.old_keys }

-- The rooms whose key is due.
unfoldable pub due_rooms : RotationPolicy → ℕ → Dict Key → List Text
due_rooms p now [] = []
due_rooms p now ((room, k) ∷ ks) =
    let rest = due_rooms p now ks in if should_rotate_key p now k then room ∷ rest else rest

module _ (aes : BlockCipher) (c : Collection KeyDocument) where
  -- One document of `LoadAllKeys`, once it is decrypted.
  unfoldable pub load_document : Text → KeyDocument → Text → KeyManager c.State → KeyManager c.State
  load_document room doc bytes m =
      let (value, h) = alloc bytes m.heap in
      let key : Key = record {
        id = doc.room_id;
        value = value;
        created_at = doc.created_at;
        rotated_at = doc.rotated_at;
        version = doc.key_version;
        status = active;
      } in
      if doc.is_active then record m { heap = h; keys = insert room key m.keys } else record m {
        heap = h;
        old_keys =
            insert room
              (entries_of (lookup room m.old_keys) ++ record key { status = archived } ∷ [])
              m.old_keys;
      }

  unfoldable pub load_documents :
      Text → List KeyDocument → KeyManager c.State → Result KeyError (Unit {0}) × KeyManager c.State
  unfolding load_document
  load_documents room [] m = (ok tt, m)
  load_documents room (doc ∷ docs) m = elim (decrypt_room_key aes m.master_key doc.encrypted_key) [
    | none ↦ (err decryption_error, m)
    | some bytes ↦ load_documents room docs (load_document room doc bytes m)
  ]

  unfoldable pub load_all_keys :
      Text → KeyManager c.State → Result KeyError (Unit {0}) × KeyManager c.State
  unfolding load_documents
  load_all_keys room m = elim (get_all_keys c room m.store) [
    | none ↦ (err loading_error, m)
    | some docs ↦ load_documents room docs m
  ]

  -- Each room reads the random source for itself; a rotation that fails is only reported.
  unfoldable pub rotate_rooms :
      ℕ
      → (Text → Option Text)
      → (Text → Option Text)
      → List Text
      → KeyManager c.State
      → KeyManager c.State
  rotate_rooms now entropy iv [] m = m
  rotate_rooms now entropy iv (room ∷ rooms) m =
      rotate_rooms now entropy iv rooms (rotate_key aes c now (entropy room) (iv room) room m).1

  unfoldable pub check_and_rotate_keys :
      ℕ → (Text → Option Text) → (Text → Option Text) → KeyManager c.State → KeyManager c.State
  unfolding rotate_rooms due_rooms
  check_and_rotate_keys now entropy iv m =
      rotate_rooms now entropy iv (due_rooms m.rotation_policy now m.keys) m

  unfoldable pub force_rotate_key :
      ℕ
      → Option Text
      → Option Text
      → Text
      → KeyManager c.State
      → Result KeyError (Unit {0}) × KeyManager c.State
  force_rotate_key now entropy iv room m = elim (lookup room m.keys) [
    | none ↦ (err not_found, m)
    | some k ↦ rotate_key aes c now entropy iv room m
  ]
