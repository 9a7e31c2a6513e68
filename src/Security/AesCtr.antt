-- ===== src/Security/AesCtr.antt =====
-- internal/security/encryption/aes_ctr.go: AES-256-CTR over texts and over byte slices. The random
-- IV that a call reads is an argument, `none` where `rand.Reader` fails. The wiping of temporary
-- buffers touches no buffer that is returned, and is left out.
pub mod RoundTrip
use chat_gateway.Prelude.{
  ℕ, Option, none, some, Bool, true, false, not, ◌||◌, ◌&&◌, List, [], ◌∷◌, ◌++◌, length, take,
  drop, ltb, leb, ◌==◌, if◌then◌else◌, Result, ok, err,
}
use chat_gateway.Prelude.Text.{Text, text_eq, bytes}
use chat_gateway.Security.Base64
use chat_gateway.Security.Cipher.{BlockCipher, valid_key, block_size, xor_key_stream}

pub data AesError : Type 0 where
  bad_key_length empty_plaintext cipher_failed no_entropy : AesError
  empty_ciphertext missing_prefix bad_base64 too_short : AesError

abbrev pub aes256ctr_prefix : Text
aes256ctr_prefix = bytes "aes256ctr:"

abbrev pub plaintext_prefix : Text
plaintext_prefix = bytes "plaintext:"

abbrev pub encrypted_prefix : Text
encrypted_prefix = bytes "encrypted:"

pub record AesCtrEncryption : Type 0 where
  pub key : Text

unfoldable pub new_aes_ctr : Text → Result AesError AesCtrEncryption
new_aes_ctr key = if length key == 32 then ok (record { key = key }) else err bad_key_length

-- `len(text) >= len(prefix) && text[:len(prefix)] == prefix`
abbrev pub is_encrypted : AesCtrEncryption → Text → Bool
is_encrypted e text =
    leb (length aes256ctr_prefix) (length text)
    && text_eq (take (length aes256ctr_prefix) text) aes256ctr_prefix

module _ (aes : BlockCipher) where
  -- The IV in front of the encrypted bytes.
  unfoldable pub seal : Text → Option Text → Text → Result AesError Text
  seal key none plaintext = if valid_key key then err no_entropy else err cipher_failed
  seal key (some iv) plaintext =
      if valid_key key then ok (iv ++ xor_key_stream aes key iv plaintext) else err cipher_failed

  unfoldable pub open_sealed : Text → Text → Result AesError Text
  open_sealed key sealed =
      if valid_key key
      then ok (xor_key_stream aes key (take block_size sealed) (drop block_size sealed))
      else err cipher_failed

  -- `Encrypt`: the prefix and the Base64 of IV and ciphertext.
  unfoldable pub encrypt : AesCtrEncryption → Option Text → Text → Result AesError Text
  encrypt e entropy plaintext =
      if text_eq plaintext [] then err empty_plaintext else elim (seal e.key entropy plaintext) [
        | ok result ↦ ok (aes256ctr_prefix ++ Base64.encode result)
        | err x ↦ err x
      ]

  -- What `Decrypt` does with the bytes that the text holds.
  unfoldable pub decrypt_decoded : AesCtrEncryption → Option Text → Result AesError Text
  decrypt_decoded e none = err bad_base64
  decrypt_decoded e (some sealed) =
      if ltb (length sealed) block_size then err too_short else open_sealed e.key sealed

  unfoldable pub decrypt : AesCtrEncryption → Text → Result AesError Text
  decrypt e text =
      if text_eq text []
      then err empty_ciphertext
      else if ltb (length text) (length aes256ctr_prefix)
          || not (text_eq (take (length aes256ctr_prefix) text) aes256ctr_prefix)
      then err missing_prefix
      else decrypt_decoded e (Base64.decode (drop (length aes256ctr_prefix) text))

  unfoldable pub encrypt_bytes : AesCtrEncryption → Option Text → Text → Result AesError Text
  encrypt_bytes e entropy plaintext =
      if length plaintext == 0 then err empty_plaintext else seal e.key entropy plaintext

  unfoldable pub decrypt_bytes : AesCtrEncryption → Text → Result AesError Text
  decrypt_bytes e sealed =
      if ltb (length sealed) block_size then err too_short else open_sealed e.key sealed
