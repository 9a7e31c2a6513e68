-- ===== src/Security/MessageEncryption/Examples.antt =====
-- The theorems on messages at a room whose key is in the cache.
use chat_gateway.Prelude.Dict.{lookup}
use chat_gateway.Prelude.{List, ◌≡◌, refl, false, none, some, ok, ◌>>=◌, arith}
use chat_gateway.Prelude.Text.{text_eq}
use chat_gateway.Security.Cipher.{valid_key, xor_key_stream}
use chat_gateway.Security.AesCtr.RoundTrip.{cipher_text}
use chat_gateway.Security.KeyStore.{save_key_with_context, save_key, KeyDocument}
use chat_gateway.Security.KeyManager.{encrypt_room_key, rotate_key}
use chat_gateway.Security.KeyManager.Buffers.{zeros}
use chat_gateway.Security.MessageEncryption.{MessageEncryption, encrypt_message, decrypt_message}
use chat_gateway.Security.MessageEncryption.RoundTrip.{enabled_with, HasKey, enabled_round_trip}
use chat_gateway.Security.MessageEncryption.AfterRotation.{
  encrypt_message-rotate_key, decrypt_message-rotate_key,
}
use chat_gateway.Security.Fixtures.{cipher, store, room, room_key, secret, iv, hello, keyed, inputs}

abbrev disabled : MessageEncryption (List KeyDocument)
disabled = record { enabled = false; key_manager = none }

keyed-HasKey : HasKey cipher store room secret keyed
unfolding lookup text_eq
keyed-HasKey = record { named = λ e. cc; key = room_key; cached = refl; value = refl; size = refl }

enabled_round_trip_example :
    (let (r, s) =
        encrypt_message cipher store inputs hello room (enabled_with cipher store keyed) in
      r >>= (λ text. (decrypt_message cipher store inputs text room s).0))
    ≡ ok hello
enabled_round_trip_example =
    enabled_round_trip cipher store inputs inputs hello room secret iv keyed keyed-HasKey refl refl
      (ground arith) (ground arith) (λ e. cc)

encrypt_message-rotate_key_example :
    encrypt_message cipher store inputs hello room
      (enabled_with cipher store (rotate_key cipher store 9 (some secret) (some iv) room keyed).1)
    ≡ (
      ok (cipher_text iv (xor_key_stream cipher (zeros 32) iv hello)),
      enabled_with cipher store (rotate_key cipher store 9 (some secret) (some iv) room keyed).1,
    )
unfolding lookup text_eq rotate_key encrypt_room_key valid_key save_key save_key_with_context
encrypt_message-rotate_key_example =
    encrypt_message-rotate_key cipher store 9 secret (some iv) room keyed room_key inputs hello iv
      (λ e. cc) refl refl refl refl (λ e. cc)

decrypt_message-rotate_key_example :
    ((encrypt_message cipher store inputs hello room (enabled_with cipher store keyed)).0
      >>= (λ text.
          (decrypt_message cipher store inputs text room (
            enabled_with cipher store
              (rotate_key cipher store 9 (some secret) (some iv) room keyed).1)).0))
    ≡ ok (xor_key_stream cipher (zeros 32) iv (xor_key_stream cipher secret iv hello))
unfolding lookup text_eq rotate_key encrypt_room_key valid_key save_key save_key_with_context
decrypt_message-rotate_key_example =
    decrypt_message-rotate_key cipher store 9 secret (some iv) room keyed room_key inputs inputs
      hello secret iv keyed-HasKey (λ e. cc) refl refl refl refl refl (ground arith) (ground arith)
      (λ e. cc)
