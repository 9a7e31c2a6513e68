-- ===== src/Security/Base64.antt =====
-- Go's `encoding/base64`, `StdEncoding`, as aes_ctr.go and key_manager_v2.go use it: padded, and the
-- decoder skips line breaks.
use chat_gateway.Prelude.{
  refl, All, true, ℕ, ◌+◌, ◌-◌, ◌*◌, ◌/◌, ◌%◌, ◌<◌, ◌≡◌, Bool, false, not, ◌&&◌, ◌&&◌, ◌||◌, Option,
  none, some, [], ◌∷◌, keep, ltb, leb, ◌==◌, if◌then◌else◌, arith,
}
use chat_gateway.Prelude.Text.{Text}

-- The alphabet.
unfoldable pub encode_digit : ℕ → ℕ
encode_digit n =
    if ltb n 26
    then b'A' + n
    else if ltb n 52
    then b'a' + (n - 26)
    else if ltb n 62
    then b'0' + (n - 52)
    else if n == 62
    then b'+'
    else b'/'

unfoldable pub decode_digit : ℕ → Option ℕ
decode_digit c =
    if leb b'A' c && leb c b'Z'
    then some (c - b'A')
    else if leb b'a' c && leb c b'z'
    then some (c - b'a' + 26)
    else if leb b'0' c && leb c b'9'
    then some (c - b'0' + 52)
    else if c == b'+'
    then some 62
    else if c == b'/'
    then some 63
    else none

unfoldable pub encode : Text → Text
unfolding encode_digit
encode [] = []
encode (a ∷ []) = encode_digit (a / 4) ∷ encode_digit (a % 4 * 16) ∷ b'=' ∷ b'=' ∷ []
encode (a ∷ b ∷ []) =
    encode_digit (a / 4)
    ∷ encode_digit (a % 4 * 16 + b / 16)
    ∷ encode_digit (b % 16 * 4)
    ∷ b'='
    ∷ []
encode (a ∷ b ∷ c ∷ rest) =
    encode_digit (a / 4)
    ∷ encode_digit (a % 4 * 16 + b / 16)
    ∷ encode_digit (b % 16 * 4 + c / 64)
    ∷ encode_digit (c % 64)
    ∷ encode rest

-- The bytes of one group of four characters, by the digits that it holds.
abbrev one_byte : Option ℕ → Option ℕ → Option Text
one_byte (some w) (some x) = some ((w * 4 + x / 16) ∷ [])
one_byte _ _ = none

abbrev two_bytes : Option ℕ → Option ℕ → Option ℕ → Option Text
two_bytes (some w) (some x) (some y) = some ((w * 4 + x / 16) ∷ (x % 16 * 16 + y / 4) ∷ [])
two_bytes _ _ _ = none

abbrev three_bytes : Option ℕ → Option ℕ → Option ℕ → Option ℕ → Option Text → Option Text
three_bytes (some w) (some x) (some y) (some z) (some rest) =
    some ((w * 4 + x / 16) ∷ (x % 16 * 16 + y / 4) ∷ (y % 4 * 64 + z) ∷ rest)
three_bytes _ _ _ _ _ = none

abbrev is_empty : Text → Bool
is_empty [] = true
is_empty _ = false

-- A group with padding is the last one.
unfoldable pub decode_groups : Text → Option Text
unfolding decode_digit
decode_groups [] = some []
decode_groups (w ∷ x ∷ y ∷ z ∷ rest) =
    let others = decode_groups rest in
    if y == b'='
    then if z == b'=' && is_empty rest then one_byte (decode_digit w) (decode_digit x) else none
    else if z == b'='
    then if is_empty rest
      then two_bytes (decode_digit w) (decode_digit x) (decode_digit y)
      else none
    else three_bytes (decode_digit w) (decode_digit x) (decode_digit y) (decode_digit z) others
decode_groups _ = none

abbrev pub is_break : ℕ → Bool
is_break c = c == 10 || c == 13

unfoldable pub decode : Text → Option Text
unfolding decode_groups
decode s = decode_groups (keep (λ c. not (is_break c)) s)

-- A digit is decoded as it was encoded, and its character is neither padding nor a line break.
digit_back : (n : ℕ) → n < 64 → decode_digit (encode_digit n) ≡ some n
unfolding encode_digit decode_digit
digit_back n h = ground arith

digit_plain :
    (n : ℕ) → n < 64 → ((encode_digit n == b'=') ≡ false) × (is_break (encode_digit n) ≡ false)
unfolding encode_digit
digit_plain n h = (ground arith, ground arith)

decode_groups-encode : (bs : Text) → All (λ b. b < 256) bs → decode_groups (encode bs) ≡ some bs
unfolding encode decode_groups
decode_groups-encode [] h = refl
decode_groups-encode (a ∷ []) h =
    ground (arith, digit_back (a / 4) (omega arith), digit_back (a % 4 * 16) (omega arith))
decode_groups-encode (a ∷ b ∷ []) h = ground (
  arith,
  digit_back (a / 4) (omega arith),
  digit_back (a % 4 * 16 + b / 16) (omega arith),
  digit_back (b % 16 * 4) (omega arith),
  digit_plain (b % 16 * 4) (omega arith),
)
decode_groups-encode (a ∷ b ∷ c ∷ rest) h = ground (
  arith,
  digit_back (a / 4) (omega arith),
  digit_back (a % 4 * 16 + b / 16) (omega arith),
  digit_back (b % 16 * 4 + c / 64) (omega arith),
  digit_back (c % 64) (omega arith),
  digit_plain (b % 16 * 4 + c / 64) (omega arith),
  digit_plain (c % 64) (omega arith),
  decode_groups-encode rest h.1.1.1,
)

encode_plain :
    (bs : Text) → All (λ b. b < 256) bs → keep (λ c. not (is_break c)) (encode bs) ≡ encode bs
unfolding encode
encode_plain [] h = refl
encode_plain (a ∷ []) h =
    ground (arith, digit_plain (a / 4) (omega arith), digit_plain (a % 4 * 16) (omega arith))
encode_plain (a ∷ b ∷ []) h = ground (
  arith,
  digit_plain (a / 4) (omega arith),
  digit_plain (a % 4 * 16 + b / 16) (omega arith),
  digit_plain (b % 16 * 4) (omega arith),
)
encode_plain (a ∷ b ∷ c ∷ rest) h = ground (
  arith,
  digit_plain (a / 4) (omega arith),
  digit_plain (a % 4 * 16 + b / 16) (omega arith),
  digit_plain (b % 16 * 4 + c / 64) (omega arith),
  digit_plain (c % 64) (omega arith),
  encode_plain rest h.1.1.1,
)

pub decode-encode : (bs : Text) → All (λ b. b < 256) bs → decode (encode bs) ≡ some bs
unfolding decode
decode-encode bs h = rw (encode_plain bs h) (decode_groups-encode bs h)
