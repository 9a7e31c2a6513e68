-- ===== src/Security/MessageEncryption/RoundTrip.antt =====
-- message_encryption.go: a message is read back as it was written.
use chat_gateway.Prelude.{
  ◌>>=◌, ℕ, ◌<◌, ◌≡◌, ◌≢◌, refl, ap, ◌∙◌, Option, some, Bool, true, false, [], ◌∷◌, ◌&&◌,
  if◌then◌else◌, length, ltb, ◌==◌, All, Result, ok, arith,
}
use chat_gateway.Prelude.Text.{Text, text_eq, text_eq_of_ne, bytes}
use chat_gateway.Prelude.Dict.{lookup}
use chat_gateway.Storage.Collection.{Collection}
use chat_gateway.Security.Cipher.{
  BlockCipher, block_size, xor_key_stream, xor_key_stream-twice, xor_key_stream-bytes,
}
use chat_gateway.Security.AesCtr.{AesCtrEncryption, AesError, new_aes_ctr, aes256ctr_prefix}
use chat_gateway.Security.AesCtr
use chat_gateway.Security.AesCtr.RoundTrip.{cipher_text, encrypt_text, decrypt_text}
use chat_gateway.Security.KeyStore.{KeyDocument}
use chat_gateway.Security.KeyManager.{KeyManager, Key, active_key, get_or_create_room_key}
use chat_gateway.Security.MessageEncryption.{
  MessageEncryption, MessageError, Inputs, encrypt_message, decrypt_message, encrypt_with,
  decrypt_with, decrypt_enabled, with_room_key, cipher_result,
}

size_test : (secret : Text) → length secret ≡ 32 → (length secret == 32) ≡ true
size_test secret h = ground (arith, h)

and_false : (b : Bool) → (b && false) ≡ false
and_false true = refl
and_false false = refl

-- With encryption off, a message that is not empty comes back as it was. The empty message does not:
-- it comes back as the prefix.
pub disabled_round_trip :
    (aes : BlockCipher) (c : Collection KeyDocument) (i j : Inputs) (content room : Text)
    (s : MessageEncryption c.State) (text : Text)
    → s.enabled ≡ false
    → (encrypt_message aes c i content room s).0 ≡ ok text
    → (decrypt_message aes c j text room (encrypt_message aes c i content room s).1).0
      ≡ (if text_eq content [] then ok (bytes "plaintext:") else ok content)
unfolding encrypt_message decrypt_message text_eq
disabled_round_trip aes c i j [] room s text off h = ground (arith, off)
disabled_round_trip aes c i j (b ∷ bs) room s text off h = ground (arith, off)

module _ (aes : BlockCipher) (c : Collection KeyDocument) where
  -- With an active key in the cache the manager answers with the key's own buffer.
  pub cached_key :
      (now : ℕ) (entropy iv : Option Text) (room : Text) (m : KeyManager c.State) (k : Key)
      → room ≢ []
      → active_key (lookup room m.keys) ≡ some k
      → get_or_create_room_key aes c now entropy iv room m ≡ (ok k.value, m)
  unfolding get_or_create_room_key
  cached_key now entropy iv room m k named e =
      rw (text_eq_of_ne room [] named) (rw (e, get_or_create_room_key))

  abbrev pub enabled_with : KeyManager c.State → MessageEncryption c.State
  enabled_with km = record { enabled = true; key_manager = some km }

  -- The room's key is the active one of the cache, 32 bytes long.
  pub record HasKey (room secret : Text) (km : KeyManager c.State) : Type 0 where
    pub named : room ≢ []
    pub key : Key
    pub cached : active_key (lookup room km.keys) ≡ some key
    pub value : km.heap.cell key.value ≡ secret
    pub size : length secret ≡ 32

  with_cached_key :
      (f : AesCtrEncryption → Result AesError Text) (room secret : Text) (km : KeyManager c.State)
      (h : HasKey room secret km)
      → with_room_key aes c f (ok h.key.value) km ≡ cipher_result (f (record { key = secret }))
  unfolding with_room_key new_aes_ctr
  with_cached_key f room secret km h = rw (h.value, with_room_key) (rw (size_test secret h.size))

  pub encrypt_with_key :
      (i : Inputs) (content room secret : Text) (km : KeyManager c.State)
      → HasKey room secret km
      → encrypt_with aes c i content room km ≡ (
        cipher_result (AesCtr.encrypt aes (record { key = secret }) i.iv content),
        enabled_with km,
      )
  unfolding encrypt_with
  encrypt_with_key i content room secret km h =
      rw (cached_key i.now i.key_entropy i.key_iv room km h.key h.named h.cached) (
        ap (λ (r : Result MessageError Text). (r, enabled_with km))
          (with_cached_key (λ e. AesCtr.encrypt aes e i.iv content) room secret km h))

  pub decrypt_with_key :
      (i : Inputs) (content room secret : Text) (km : KeyManager c.State)
      → HasKey room secret km
      → decrypt_with aes c i content room km
        ≡ (cipher_result (AesCtr.decrypt aes (record { key = secret }) content), enabled_with km)
  unfolding decrypt_with
  decrypt_with_key i content room secret km h =
      rw (cached_key i.now i.key_entropy i.key_iv room km h.key h.named h.cached) (
        ap (λ (r : Result MessageError Text). (r, enabled_with km))
          (with_cached_key (λ e. AesCtr.decrypt aes e content) room secret km h))

  pub encrypt_message_text :
      (i : Inputs) (content room secret iv : Text) (km : KeyManager c.State)
      → HasKey room secret km
      → i.iv ≡ some iv
      → content ≢ []
      → encrypt_message aes c i content room (enabled_with km)
        ≡ (ok (cipher_text iv (xor_key_stream aes secret iv content)), enabled_with km)
  unfolding encrypt_message
  encrypt_message_text i content room secret iv km h e ne =
      rw
        (
          encrypt_with_key i content room secret km h,
          e,
          encrypt_text aes secret iv content h.size ne,
        )
        refl

  pub decrypt_message_text :
      (i : Inputs) (room secret iv stream : Text) (km : KeyManager c.State)
      → HasKey room secret km
      → length iv ≡ block_size
      → All (λ b. b < 256) iv
      → All (λ b. b < 256) stream
      → (decrypt_message aes c i (cipher_text iv stream) room (enabled_with km)).0
        ≡ ok (xor_key_stream aes secret iv stream)
  unfolding decrypt_message decrypt_enabled text_eq
  decrypt_message_text i room secret iv stream km h hi bi bs =
      rw
        (
          decrypt_with_key i (cipher_text iv stream) room secret km h,
          decrypt_text aes secret iv stream h.size hi bi bs,
        )
        (rw (and_false (ltb 10 (length (cipher_text iv stream)))) refl)

  -- With an active key of 32 bytes for the room in the cache and an IV of 16 bytes, encrypting a
  -- message that is not empty succeeds, and decrypting the result in the state that is left succeeds
  -- with the message. Bytes are below 256; the clock and the random source of the two calls differ.
  pub enabled_round_trip :
      (i j : Inputs) (content room secret iv : Text) (km : KeyManager c.State)
      → HasKey room secret km
      → i.iv ≡ some iv
      → length iv ≡ block_size
      → All (λ b. b < 256) iv
      → All (λ b. b < 256) content
      → content ≢ []
      → (let (r, s) = encrypt_message aes c i content room (enabled_with km) in
          r >>= (λ text. (decrypt_message aes c j text room s).0))
        ≡ ok content
  enabled_round_trip i j content room secret iv km h e hi bi bc ne =
      rw (encrypt_message_text i content room secret iv km h e ne) (
        decrypt_message_text j room secret iv (xor_key_stream aes secret iv content) km h hi bi
          (xor_key_stream-bytes aes secret iv content bc)
        ∙ ap ok (xor_key_stream-twice aes secret iv content))
