-- ===== src/Security/MessageEncryption.antt =====
-- internal/security/encryption/message_encryption.go: messages under their room's key. The service
-- holds the key manager, so its operations return the service too.
pub mod RoundTrip
pub mod Keyed
pub mod AfterRotation
mod Examples
use chat_gateway.Prelude.{
  ℕ, Option, none, some, Bool, true, false, not, ◌&&◌, List, [], ◌∷◌, ◌++◌, length, take, drop, ltb,
  leb, if◌then◌else◌, Result, ok, err,
}
use chat_gateway.Prelude.Text.{Text, text_eq, bytes}
use chat_gateway.Storage.Collection.{Collection}
use chat_gateway.Security.Cipher.{BlockCipher}
use chat_gateway.Security.AesCtr.{
  AesError, AesCtrEncryption, new_aes_ctr, plaintext_prefix, encrypted_prefix,
}
use chat_gateway.Security.AesCtr
use chat_gateway.Security.KeyStore.{KeyDocument}
use chat_gateway.Security.KeyManager.{KeyManager, KeyError, get_or_create_room_key}
use chat_gateway.Security.KeyManager.Buffers.{Heap}

pub record MessageEncryption (S : Type 0) : Type 0 where
  pub enabled : Bool
  pub key_manager : Option (KeyManager S)

pub data MessageError : Type 0 where
  no_key_manager old_format : MessageError
  room_key : KeyError → MessageError
  cipher : AesError → MessageError

-- Without a key manager the service is disabled.
unfoldable pub new_message_encryption :
    {S : Type 0} → Bool → Option (KeyManager S) → MessageEncryption S
new_message_encryption enabled none = record { enabled = false; key_manager = none }
new_message_encryption enabled (some km) = record { enabled = enabled; key_manager = some km }

-- What the random source and the clock give to one call.
pub record Inputs : Type 0 where
  pub now : ℕ
  pub key_entropy : Option Text
  pub key_iv : Option Text
  pub iv : Option Text

abbrev pub cipher_result : Result AesError Text → Result MessageError Text
cipher_result (ok t) = ok t
cipher_result (err e) = err (cipher e)

unfoldable pub is_encrypted : Text → Bool
is_encrypted content =
    if ltb (length content) 10
    then false
    else if text_eq (take 10 content) (bytes "aes256ctr:")
    then true
    else false

module _ (aes : BlockCipher) (c : Collection KeyDocument) where
  -- The end of both operations: the cipher of the room's key, on the bytes that the address holds.
  unfoldable pub with_room_key :
      (AesCtrEncryption → Result AesError Text)
      → Result KeyError ℕ
      → KeyManager c.State
      → Result MessageError Text
  with_room_key f (err e) km = err (room_key e)
  with_room_key f (ok a) km = elim (new_aes_ctr (km.heap.cell a)) [
    | err e ↦ err (cipher e)
    | ok e ↦ cipher_result (f e)
  ]

  unfoldable pub encrypt_with :
      Inputs
      → Text
      → Text
      → KeyManager c.State
      → Result MessageError Text × MessageEncryption c.State
  unfolding with_room_key
  encrypt_with i content room km =
      let (key, km') = get_or_create_room_key aes c i.now i.key_entropy i.key_iv room km in
      (
        with_room_key (λ e. AesCtr.encrypt aes e i.iv content) key km',
        record { enabled = true; key_manager = some km' },
      )

  unfoldable pub encrypt_message :
      Inputs
      → Text
      → Text
      → MessageEncryption c.State
      → Result MessageError Text × MessageEncryption c.State
  encrypt_message i content room s =
      if not s.enabled then (ok (plaintext_prefix ++ content), s) else elim s.key_manager [
        | none ↦ (err no_key_manager, s)
        | some km ↦ encrypt_with i content room km
      ]

  unfoldable pub decrypt_with :
      Inputs
      → Text
      → Text
      → KeyManager c.State
      → Result MessageError Text × MessageEncryption c.State
  unfolding with_room_key
  decrypt_with i content room km =
      let (key, km') = get_or_create_room_key aes c i.now i.key_entropy i.key_iv room km in
      (
        with_room_key (λ e. AesCtr.decrypt aes e content) key km',
        record { enabled = true; key_manager = some km' },
      )

  -- Contents with the prefix of an older format are not decrypted.
  unfoldable pub decrypt_enabled :
      Inputs
      → Text
      → Text
      → KeyManager c.State
      → Result MessageError Text × MessageEncryption c.State
  decrypt_enabled i content room km =
      let s : MessageEncryption c.State = record { enabled = true; key_manager = some km } in
      if ltb 10 (length content) && text_eq (take 10 content) plaintext_prefix
      then (ok (drop 10 content), s)
      else if ltb 10 (length content) && text_eq (take 10 content) encrypted_prefix
      then (err old_format, s)
      else decrypt_with i content room km

  unfoldable pub decrypt_message :
      Inputs
      → Text
      → Text
      → MessageEncryption c.State
      → Result MessageError Text × MessageEncryption c.State
  decrypt_message i content room s =
      if not s.enabled
      then if ltb (length plaintext_prefix) (length content)
          && text_eq (take (length plaintext_prefix) content) plaintext_prefix
        then (ok (drop (length plaintext_prefix) content), s)
        else (ok content, s)
      else elim s.key_manager [
        | none ↦ (err no_key_manager, s)
        | some km ↦ decrypt_enabled i content room km
      ]
