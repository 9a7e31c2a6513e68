-- ===== src/Security/Cipher.antt =====
-- Go's `crypto/aes` and `crypto/cipher` in CTR mode. The block function of AES is a parameter; the
-- counter mode over it, which aes_ctr.go and key_manager_v2.go use, is written out.
use mathlib.Core.List.{reverse}
use chat_gateway.Prelude.{
  ℕ, zero, suc, ◌+◌, ◌/◌, ◌%◌, ◌<◌, ◌≡◌, refl, ap, Bool, ◌||◌, [], ◌∷◌, length, All, ◌==◌,
  if◌then◌else◌, arith,
}
use Prim.Native.Nat.{bit_xor}
use mathlib.Core.Path.{ap₂}
use chat_gateway.Prelude.Bits.{xor_cancel, bit_xor_lt}
use chat_gateway.Prelude.Text.{Text}

-- AES: the encryption of one block under a key, 16 bytes long.
pub record BlockCipher : Type 0 where
  pub encrypt_block : Text → Text → Text
  pub block_bytes : (key block : Text) → All (λ b. b < 256) (encrypt_block key block)

abbrev pub block_size : ℕ
block_size = 16

-- `aes.NewCipher` takes keys of 16, 24 or 32 bytes.
unfoldable pub valid_key : Text → Bool
valid_key key = length key == 16 || length key == 24 || length key == 32

-- The counter, lowest byte first, goes up by one and wraps around.
unfoldable pub increment : Text → Text
increment [] = []
increment (b ∷ bs) = if b == 255 then 0 ∷ increment bs else (b + 1) ∷ bs

unfoldable pub counter_block : Text → ℕ → Text
unfolding increment
counter_block iv zero = iv
counter_block iv (suc n) = reverse (increment (reverse (counter_block iv n)))

-- The byte at a position, 0 beyond the end.
abbrev pub get_or : Text → ℕ → ℕ
get_or [] i = 0
get_or (b ∷ bs) zero = b
get_or (b ∷ bs) (suc i) = get_or bs i

module _ (aes : BlockCipher) where
  -- The byte of the key stream at a position.
  unfoldable pub key_byte : Text → Text → ℕ → ℕ
  key_byte key iv i =
      get_or (aes.encrypt_block key (counter_block iv (i / block_size))) (i % block_size)

  -- `XORKeyStream`, from a position on.
  unfoldable pub xor_from : Text → Text → ℕ → Text → Text
  xor_from key iv i [] = []
  xor_from key iv i (b ∷ bs) = bit_xor b (key_byte key iv i) ∷ xor_from key iv (i + 1) bs

  unfoldable pub xor_key_stream : Text → Text → Text → Text
  unfolding xor_from
  xor_key_stream key iv src = xor_from key iv 0 src

  xor_from-twice :
      (key iv : Text) (i : ℕ) (bs : Text) → xor_from key iv i (xor_from key iv i bs) ≡ bs
  unfolding xor_from
  xor_from-twice key iv i [] = refl
  xor_from-twice key iv i (b ∷ bs) =
      ap₂ ◌∷◌ (xor_cancel b (key_byte key iv i)) (xor_from-twice key iv (i + 1) bs)

  -- The same key stream applied twice gives the text back.
  pub xor_key_stream-twice :
      (key iv bs : Text) → xor_key_stream key iv (xor_key_stream key iv bs) ≡ bs
  unfolding xor_key_stream
  xor_key_stream-twice key iv bs = xor_from-twice key iv 0 bs

  length-xor_from : (key iv : Text) (i : ℕ) (bs : Text) → length (xor_from key iv i bs) ≡ length bs
  unfolding xor_from
  length-xor_from key iv i [] = refl
  length-xor_from key iv i (b ∷ bs) = ap suc (length-xor_from key iv (i + 1) bs)

  pub length-xor_key_stream : (key iv bs : Text) → length (xor_key_stream key iv bs) ≡ length bs
  unfolding xor_key_stream
  length-xor_key_stream key iv bs = length-xor_from key iv 0 bs

  get_or_byte : (bs : Text) (i : ℕ) → All (λ b. b < 256) bs → get_or bs i < 256
  get_or_byte [] i h = omega arith
  get_or_byte (b ∷ bs) zero h = h.0
  get_or_byte (b ∷ bs) (suc i) h = get_or_byte bs i h.1

  xor_from-bytes :
      (key iv : Text) (i : ℕ) (bs : Text)
      → All (λ b. b < 256) bs
      → All (λ b. b < 256) (xor_from key iv i bs)
  unfolding xor_from key_byte
  xor_from-bytes key iv i [] h = tt
  xor_from-bytes key iv i (b ∷ bs) h = (
    bit_xor_lt 8 b _ h.0 (get_or_byte _ (i % block_size) (aes.block_bytes key _)),
    xor_from-bytes key iv (i + 1) bs h.1,
  )

  pub xor_key_stream-bytes :
      (key iv bs : Text) → All (λ b. b < 256) bs → All (λ b. b < 256) (xor_key_stream key iv bs)
  unfolding xor_key_stream
  xor_key_stream-bytes key iv bs h = xor_from-bytes key iv 0 bs h
