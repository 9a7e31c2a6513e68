-- ===== src/Security/MessageEncryption/Keyed.antt =====
-- message_encryption.go: what the operations leave of the service where the room's key is in the cache.
use chat_gateway.Prelude.{◌≡◌, refl, inl, inr, ◌&&◌, length, take, ltb, Bool-cases}
use chat_gateway.Prelude.Text.{Text, text_eq}
use chat_gateway.Storage.Collection.{Collection}
use chat_gateway.Security.Cipher.{BlockCipher}
use chat_gateway.Security.AesCtr.{plaintext_prefix, encrypted_prefix}
use chat_gateway.Security.KeyStore.{KeyDocument}
use chat_gateway.Security.KeyManager.{KeyManager}
use chat_gateway.Security.MessageEncryption.{
  Inputs, encrypt_message, decrypt_message, decrypt_enabled,
}
use chat_gateway.Security.MessageEncryption.RoundTrip.{
  enabled_with, HasKey, encrypt_with_key, decrypt_with_key,
}

module _ (aes : BlockCipher) (c : Collection KeyDocument) (i : Inputs) (content room secret : Text)
    (km : KeyManager c.State) (h : HasKey aes c room secret km) where
  pub encrypt_message_state :
      (encrypt_message aes c i content room (enabled_with aes c km)).1 ≡ enabled_with aes c km
  unfolding encrypt_message
  encrypt_message_state = rw (encrypt_with_key aes c i content room secret km h) refl

  pub decrypt_message_state :
      (decrypt_message aes c i content room (enabled_with aes c km)).1 ≡ enabled_with aes c km
  unfolding decrypt_message decrypt_enabled
  decrypt_message_state =
      rw (decrypt_with_key aes c i content room secret km h)
        (elim (Bool-cases (ltb 10 (length content) && text_eq (take 10 content) plaintext_prefix)) [
          | inl e ↦ rw e refl
          | inr e ↦
              rw e
                (elim (Bool-cases
                  (ltb 10 (length content) && text_eq (take 10 content) encrypted_prefix)) [
                    | inl d ↦ rw d refl
                    | inr d ↦ rw d refl
                  ])
        ])
