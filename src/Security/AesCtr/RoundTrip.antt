-- ===== src/Security/AesCtr/RoundTrip.antt =====
-- aes_ctr.go: what was encrypted is decrypted to the same text, and what is refused.
use chat_gateway.Prelude.{
  ◌∙◌, ◌∷◌, ◌<◌, ◌≡◌, ◌≢◌, refl, some, true, false, [], ◌++◌, length, All, take_exact, All-append,
  ◌==◌, drop_exact, length-append, ap, ltb, ok, ◌>>=◌, arith,
}
use chat_gateway.Prelude.Text.{Text, text_eq, text_eq_of_ne}
use chat_gateway.Security.Base64
use chat_gateway.Security.Base64.{decode-encode}
use chat_gateway.Security.Cipher.{
  BlockCipher, valid_key, block_size, xor_key_stream, xor_key_stream-twice, xor_key_stream-bytes,
}
use chat_gateway.Security.AesCtr.{
  aes256ctr_prefix, encrypt, decrypt, decrypt_decoded, encrypt_bytes, decrypt_bytes, seal,
  open_sealed,
}

length_ne : (bs : Text) → bs ≢ [] → (length bs == 0) ≡ false
length_ne [] h = absurd (h refl)
length_ne (b ∷ bs) h = ground arith

prefix_long :
    (text : Text) → ltb (length (aes256ctr_prefix ++ text)) (length aes256ctr_prefix) ≡ false
prefix_long text = ground arith

abbrev pub cipher_text : Text → Text → Text
cipher_text iv stream = aes256ctr_prefix ++ Base64.encode (iv ++ stream)

valid_32 : (key : Text) → length key ≡ 32 → valid_key key ≡ true
unfolding valid_key
valid_32 key h = ground (arith, h)

sealed_long :
    (iv stream : Text) → length iv ≡ block_size → ltb (length (iv ++ stream)) block_size ≡ false
sealed_long iv stream h = ground (arith, h, length-append iv stream)

module _ (aes : BlockCipher) where
  open_sealed-seal :
      (key iv stream : Text)
      → valid_key key ≡ true
      → length iv ≡ block_size
      → open_sealed aes key (iv ++ stream) ≡ ok (xor_key_stream aes key iv stream)
  unfolding open_sealed
  open_sealed-seal key iv stream valid h =
      rw (valid, take_exact block_size iv stream h, drop_exact block_size iv stream h)

  -- What `Encrypt` makes of a text that is not empty.
  pub encrypt_text :
      (key iv plaintext : Text)
      → length key ≡ 32
      → plaintext ≢ []
      → encrypt aes (record { key = key }) (some iv) plaintext
        ≡ ok (cipher_text iv (xor_key_stream aes key iv plaintext))
  unfolding encrypt seal
  encrypt_text key iv plaintext hk ne = rw (text_eq_of_ne plaintext [] ne, valid_32 key hk)

  -- Nothing in a cipher text tells its key: under any key of 32 bytes it is decrypted without an
  -- error, to the stream of that key applied to what stands behind the IV.
  pub decrypt_text :
      (key iv stream : Text)
      → length key ≡ 32
      → length iv ≡ block_size
      → All (λ b. b < 256) iv
      → All (λ b. b < 256) stream
      → decrypt aes (record { key = key }) (cipher_text iv stream)
        ≡ ok (xor_key_stream aes key iv stream)
  unfolding decrypt decrypt_decoded text_eq
  decrypt_text key iv stream hk hi bi bs =
      rw
        (
          prefix_long (Base64.encode (iv ++ stream)),
          decode-encode (iv ++ stream) (All-append _ iv stream bi bs),
          sealed_long iv stream hi,
        )
        (open_sealed-seal key iv stream (valid_32 key hk) hi)

  -- A text that is not empty, encrypted under a key of 32 bytes with any IV of 16 bytes, is decrypted
  -- to itself under that key: both calls succeed. Bytes are below 256.
  pub decrypt-encrypt :
      (key iv plaintext : Text)
      → length key ≡ 32
      → length iv ≡ block_size
      → All (λ b. b < 256) iv
      → All (λ b. b < 256) plaintext
      → plaintext ≢ []
      → (encrypt aes (record { key = key }) (some iv) plaintext
          >>= decrypt aes (record { key = key }))
        ≡ ok plaintext
  decrypt-encrypt key iv plaintext hk hi bi bp ne = rw (encrypt_text key iv plaintext hk ne) (
      decrypt_text key iv (xor_key_stream aes key iv plaintext) hk hi bi
        (xor_key_stream-bytes aes key iv plaintext bp)
      ∙ ap ok (xor_key_stream-twice aes key iv plaintext))

  -- The same for byte slices.
  pub decrypt_bytes-encrypt_bytes :
      (key iv plaintext : Text)
      → length key ≡ 32
      → length iv ≡ block_size
      → plaintext ≢ []
      → (encrypt_bytes aes (record { key = key }) (some iv) plaintext
          >>= decrypt_bytes aes (record { key = key }))
        ≡ ok plaintext
  unfolding encrypt_bytes decrypt_bytes seal
  decrypt_bytes-encrypt_bytes key iv plaintext hk hi ne =
      let stream : Text = xor_key_stream aes key iv plaintext in
      rw (length_ne plaintext ne, valid_32 key hk)
        (rw (sealed_long iv stream hi) (
          open_sealed-seal key iv stream (valid_32 key hk) hi
          ∙ ap ok (xor_key_stream-twice aes key iv plaintext)))
