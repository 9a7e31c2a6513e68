-- ===== src/Security/Signal/Header.antt =====
-- signal_protocol.go: the header of a message, written and read.
use chat_gateway.Prelude.{
  length-append, length-take, ℕ, ◌<◌, ◌≡◌, ◌∙◌, refl, arith, ok, length, take, drop, ◌++◌, ◌^◌, ltb,
  false, append_assoc, take_exact, drop_exact,
}
use chat_gateway.Prelude.Text.{Text}
use chat_gateway.Security.Signal.{
  Primitives, MessageKey, put_uint32, uint32, parse_message_header, compute_mac,
  create_message_header,
}

pub uint32-put_uint32 : (n : ℕ) → n < 2 ^ 32 → uint32 (put_uint32 n) ≡ n
unfolding uint32 put_uint32
uint32-put_uint32 n h = omega arith

length-put_uint32 : (n : ℕ) → length (put_uint32 n) ≡ 4
unfolding put_uint32
length-put_uint32 n = refl

module _ (crypto : Primitives) where
  length-compute_mac : (key id : Text) (n : ℕ) → length (compute_mac crypto key id n) ≡ 32
  unfolding compute_mac
  length-compute_mac key id n =
      length-take 32 (crypto.sha512 (key ++ id ++ put_uint32 n))
      ∙ omega (arith, crypto.length_sha512 (key ++ id ++ put_uint32 n))

  pub length-create_message_header :
      (id : Text) (n : ℕ) (k : MessageKey)
      → length k.iv ≡ 12
      → length (create_message_header crypto id n k) ≡ 48
  unfolding create_message_header put_uint32
  length-create_message_header id n k h =
      length-append (put_uint32 n) (compute_mac crypto k.mac_key id n ++ k.iv)
      ∙ omega (
        arith,
        length-append (compute_mac crypto k.mac_key id n) k.iv,
        length-compute_mac k.mac_key id n,
        length-put_uint32 n,
      )

  -- A message that begins with a header for a number below 2 ^ 32 and a nonce of 12 bytes is parsed
  -- into that number, the authentication code, the nonce and what follows.
  pub parse_message_header-create_message_header :
      (id ciphertext : Text) (n : ℕ) (k : MessageKey)
      → n < 2 ^ 32
      → length k.iv ≡ 12
      → parse_message_header (create_message_header crypto id n k ++ ciphertext)
        ≡ ok (
          record { message_number = n; mac = compute_mac crypto k.mac_key id n; iv = k.iv },
          ciphertext,
        )
  unfolding parse_message_header create_message_header put_uint32
  parse_message_header-create_message_header id ciphertext n k small h =
      let mac : Text = compute_mac crypto k.mac_key id n in
      let both : length (mac ++ k.iv) ≡ 44 =
        length-append mac k.iv ∙ omega (arith, length-compute_mac k.mac_key id n, h) in
      let long : ltb (length (put_uint32 n ++ (mac ++ k.iv) ++ ciphertext)) 48 ≡ false =
        ground (arith, length-append (mac ++ k.iv) ciphertext, both) in
      let first : take 32 ((mac ++ k.iv) ++ ciphertext) ≡ mac =
        rw (append_assoc mac k.iv ciphertext)
          (take_exact 32 mac (k.iv ++ ciphertext) (length-compute_mac k.mac_key id n)) in
      let second : take 12 (drop 32 ((mac ++ k.iv) ++ ciphertext)) ≡ k.iv =
        rw
          (
            append_assoc mac k.iv ciphertext,
            drop_exact 32 mac (k.iv ++ ciphertext) (length-compute_mac k.mac_key id n),
          )
          (take_exact 12 k.iv ciphertext h) in
      rw
        (
          long,
          first,
          second,
          drop_exact 44 (mac ++ k.iv) ciphertext both,
          uint32-put_uint32 n small,
        )
        refl
