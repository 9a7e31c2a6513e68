-- ===== src/Security/KeyManager/Sealing.antt =====
-- key_manager_v2.go, `encryptRoomKey` and `decryptRoomKey`: a saved key is read back.
use chat_gateway.Prelude.{
  ◌<◌, ◌≡◌, ◌++◌, ap, Bool-cases, inl, inr, some, true, false, length, All, All-append,
  length-append, take_exact, drop_exact, ltb, arith,
}
use chat_gateway.Prelude.Text.{Text}
use chat_gateway.Security.Base64
use chat_gateway.Security.Base64.{decode-encode}
use chat_gateway.Security.Cipher.{
  BlockCipher, valid_key, block_size, xor_key_stream, xor_key_stream-twice, xor_key_stream-bytes,
}
use chat_gateway.Security.KeyManager.{encrypt_room_key, decrypt_room_key}

module _ (aes : BlockCipher) where
  decrypt_sealed :
      (master iv bytes : Text)
      → valid_key master ≡ true
      → length iv ≡ block_size
      → All (λ b. b < 256) iv
      → All (λ b. b < 256) bytes
      → decrypt_room_key aes master (Base64.encode (iv ++ xor_key_stream aes master iv bytes))
        ≡ some bytes
  unfolding decrypt_room_key
  decrypt_sealed master iv bytes valid hi bi bb =
      let stream : Text = xor_key_stream aes master iv bytes in
      let long : ltb (length (iv ++ stream)) block_size ≡ false =
        ground (arith, hi, length-append iv stream) in
      rw
        (decode-encode (iv ++ stream)
          (All-append _ iv stream bi (xor_key_stream-bytes aes master iv bytes bb)))
        (rw (long, valid, take_exact block_size iv stream hi, drop_exact block_size iv stream hi)
          (ap some (xor_key_stream-twice aes master iv bytes)))

  -- A room key that was encrypted under the master key, with any IV of 16 bytes, is decrypted to the
  -- same bytes.
  pub decrypt_room_key-encrypt_room_key :
      (master iv bytes encrypted : Text)
      → length iv ≡ block_size
      → All (λ b. b < 256) iv
      → All (λ b. b < 256) bytes
      → encrypt_room_key aes master (some iv) bytes ≡ some encrypted
      → decrypt_room_key aes master encrypted ≡ some bytes
  unfolding encrypt_room_key
  decrypt_room_key-encrypt_room_key master iv bytes encrypted hi bi bb e =
      elim (Bool-cases (valid_key master)) [
        | inl valid ↦
            let text : Base64.encode (iv ++ xor_key_stream aes master iv bytes) ≡ encrypted =
              ground (arith, valid) in
            rw (← text) (decrypt_sealed master iv bytes valid hi bi bb)
        | inr invalid ↦ ground (arith, invalid)
      ]
