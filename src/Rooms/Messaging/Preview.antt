-- ===== src/Rooms/Messaging/Preview.antt =====
-- grpc/server.go, `generateLastMessagePreview`: how long a preview is.
use chat_gateway.Prelude.{
  ℕ, zero, suc, ◌+◌, ◌*◌, ◌-◌, ◌≤◌, ◌≡◌, List, [], ◌∷◌, ◌++◌, length, take, arith,
}
use chat_gateway.Prelude.Text.{Text, encode_rune, bytes}
use chat_gateway.Prelude.Utf8.{size, runes, runes_from, encode_runes}
use chat_gateway.Rooms.Messaging.{generate_last_message_preview}

size_bound : (t : Text) → size t ≤ 4
size_bound [] = ground arith
size_bound (a ∷ []) = ground arith
size_bound (a ∷ b ∷ []) = ground arith
size_bound (a ∷ b ∷ c ∷ []) = ground arith
size_bound (a ∷ b ∷ c ∷ d ∷ bs) = ground arith

length-runes_from : (skip : ℕ) (t : Text) → length t ≤ skip + 4 * length (runes_from skip t)
unfolding runes_from
length-runes_from skip [] = omega arith
length-runes_from (suc skip) (a ∷ bs) = omega (arith, length-runes_from skip bs)
length-runes_from zero (a ∷ bs) =
    omega (arith, length-runes_from (size (a ∷ bs) - 1) bs, size_bound (a ∷ bs))

length-encode_rune : (c : ℕ) → length (encode_rune c) ≤ 4
length-encode_rune c = ground arith

length-append : (s t : Text) → length (s ++ t) ≡ length s + length t
length-append [] t = omega arith
length-append (a ∷ s) t = omega (arith, length-append s t)

length-encode_runes : (n : ℕ) (rs : List ℕ) → length (encode_runes (take n rs)) ≤ 4 * n
unfolding encode_runes
length-encode_runes zero rs = omega arith
length-encode_runes (suc n) [] = omega arith
length-encode_runes (suc n) (r ∷ rs) = omega (
  arith,
  length-append (encode_rune r) (encode_runes (take n rs)),
  length-encode_rune r,
  length-encode_runes n rs,
)

-- Whatever the type and the content of a message, its preview has at most 123 bytes: thirty code
-- points of at most four bytes, and three dots.
pub length-generate_last_message_preview :
    (kind content : Text) → length (generate_last_message_preview kind content) ≤ 123
unfolding generate_last_message_preview runes
length-generate_last_message_preview kind content = ground (
  arith,
  length-runes_from 0 content,
  length-encode_runes 30 (runes content),
  length-append (encode_runes (take 30 (runes content))) (bytes "..."),
)
