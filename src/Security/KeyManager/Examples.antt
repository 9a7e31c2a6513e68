-- ===== src/Security/KeyManager/Examples.antt =====
-- The theorems on the key manager at a room with one key.
use chat_gateway.Prelude.Text.{text_eq}
use chat_gateway.Security.KeyStore.{save_key_with_context, save_key}
use chat_gateway.Prelude.Dict.{lookup}
use chat_gateway.Prelude.{refl, some}
use chat_gateway.Security.KeyManager.{rotate_key, encrypt_room_key}
use chat_gateway.Security.KeyManager.Rotation.{IsRotated, rotated}
use chat_gateway.Security.Cipher.{valid_key}
use chat_gateway.Security.Fixtures.{cipher, store, room, room_key, secret, iv, keyed}

rotated_example :
    IsRotated cipher store 9 secret
      (some iv)
      room
      keyed
      room_key
      (rotate_key cipher store 9 (some secret) (some iv) room keyed).1
unfolding lookup text_eq rotate_key encrypt_room_key valid_key save_key save_key_with_context
rotated_example = rotated cipher store 9 secret (some iv) room keyed room_key refl refl
