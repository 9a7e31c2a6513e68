-- ===== src/Security/MessageEncryption/AfterRotation.antt =====
-- message_encryption.go over key_manager_v2.go: messages after a rotation of their room's key.
use chat_gateway.Prelude.{refl, ◌>>=◌, Option, ℕ, ◌<◌, ◌≡◌, ◌≢◌, ◌∙◌, ap, some, [], length, All, ok}
use chat_gateway.Prelude.Text.{Text}
use chat_gateway.Prelude.Dict.{lookup}
use chat_gateway.Storage.Collection.{Collection}
use chat_gateway.Security.Cipher.{xor_key_stream-bytes, BlockCipher, block_size, xor_key_stream}
use chat_gateway.Security.AesCtr.RoundTrip.{cipher_text}
use chat_gateway.Security.KeyStore.{KeyDocument}
use chat_gateway.Security.KeyManager.{KeyManager, Key, active, active_key, if_active, rotate_key}
use chat_gateway.Security.KeyManager.Buffers.{zeros}
use chat_gateway.Security.KeyManager.Rotation.{rotated}
use chat_gateway.Security.MessageEncryption.{Inputs, encrypt_message, decrypt_message}
use chat_gateway.Security.MessageEncryption.RoundTrip.{
  enabled_with, HasKey, encrypt_message_text, decrypt_message_text,
}

module _ (aes : BlockCipher) (c : Collection KeyDocument) (now : ℕ) (fresh : Text)
    (key_iv : Option Text) (room : Text) (m : KeyManager c.State) (old : Key) where
  -- The state after the rotation.
  abbrev after : KeyManager c.State
  after = (rotate_key aes c now (some fresh) key_iv room m).1

  active_cached : (k : Key) → k.status ≡ active → if_active k k.status ≡ some k
  active_cached k h = ap (if_active k) h

  zero_key :
      room ≢ []
      → length fresh ≡ 32
      → lookup room m.keys ≡ some old
      → (rotate_key aes c now (some fresh) key_iv room m).0 ≡ ok tt
      → HasKey aes c room (zeros 32) after
  zero_key named size cached h =
      let r = rotated aes c now fresh key_iv room m old cached h in
      record {
        named = named;
        key = r.key;
        cached = ap active_key r.cached ∙ active_cached r.key r.is_active;
        value = r.new_bytes ∙ ap zeros size;
        size = refl;
      }

  -- After a rotation that reports no error, a message is encrypted under a key of 32 zero bytes, not
  -- under the random key that was generated and saved.
  pub encrypt_message-rotate_key :
      (i : Inputs) (content iv : Text)
      → room ≢ []
      → length fresh ≡ 32
      → lookup room m.keys ≡ some old
      → (rotate_key aes c now (some fresh) key_iv room m).0 ≡ ok tt
      → i.iv ≡ some iv
      → content ≢ []
      → encrypt_message aes c i content room (enabled_with aes c after)
        ≡ (ok (cipher_text iv (xor_key_stream aes (zeros 32) iv content)), enabled_with aes c after)
  encrypt_message-rotate_key i content iv named size cached h e ne =
      encrypt_message_text aes c i content room (zeros 32) iv after (zero_key named size cached h) e
        ne

  -- After such a rotation a message that was encrypted before it, under any key, is decrypted
  -- without an error, to its stream under a key of 32 zero bytes: the archived key is not tried.
  pub decrypt_message-rotate_key :
      (i j : Inputs) (content secret iv : Text)
      → HasKey aes c room secret m
      → room ≢ []
      → length fresh ≡ 32
      → lookup room m.keys ≡ some old
      → (rotate_key aes c now (some fresh) key_iv room m).0 ≡ ok tt
      → i.iv ≡ some iv
      → length iv ≡ block_size
      → All (λ b. b < 256) iv
      → All (λ b. b < 256) content
      → content ≢ []
      → ((encrypt_message aes c i content room (enabled_with aes c m)).0
          >>= (λ text. (decrypt_message aes c j text room (enabled_with aes c after)).0))
        ≡ ok (xor_key_stream aes (zeros 32) iv (xor_key_stream aes secret iv content))
  decrypt_message-rotate_key i j content secret iv before named size cached h e hi bi bc ne =
      rw (encrypt_message_text aes c i content room secret iv m before e ne) (
        decrypt_message_text aes c j room (zeros 32) iv (xor_key_stream aes secret iv content) after
          (zero_key named size cached h) hi bi (xor_key_stream-bytes aes secret iv content bc))
