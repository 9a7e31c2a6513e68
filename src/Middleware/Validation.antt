-- ===== src/Middleware/Validation.antt =====
-- internal/platform/middleware/validation.go: the checks of a request's fields. An error is a
-- constructor in place of its text. `strings.TrimSpace` only serves to tell whether a text is blank:
-- the least length of a room's name is one.
pub mod RoomId
use chat_gateway.Prelude.{
  ℕ, Option, none, some, Bool, true, false, not, ◌&&◌, ◌||◌, List, [], ◌∷◌, any, all, keep, length,
  ltb, leb, ◌==◌, if◌then◌else◌, Result, ok, err,
}
use chat_gateway.Prelude.Text.{Text, bytes, text_eq}
use chat_gateway.Prelude.Utf8.{runes, encode_runes}

-- `unicode.IsSpace`
abbrev is_space : ℕ → Bool
is_space r =
    (leb 9 r && leb r 13)
    || (r == 32)
    || (r == 0x85)
    || (r == 0xa0)
    || (r == 0x1680)
    || (leb 0x2000 r && leb r 0x200a)
    || (r == 0x2028)
    || (r == 0x2029)
    || (r == 0x202f)
    || (r == 0x205f)
    || (r == 0x3000)

-- `strings.TrimSpace(t) == ""`
abbrev pub is_blank : Text → Bool
is_blank t = all is_space (runes t)

abbrev contains : Text → ℕ → Bool
contains t b = any (λ c. c == b) t

pub data ValidationError : Type 0 where
  is_empty too_long bad_characters bad_format : ValidationError

-- The configured maximum, if one is set, or the default.
abbrev max_length : Option ℕ → ℕ → ℕ
max_length none default = default
max_length (some n) default = if ltb 0 n then n else default

unfoldable pub validate_message_content : Option ℕ → Text → Result ValidationError (Unit {0})
validate_message_content cfg content =
    if is_blank content
    then err is_empty
    else if ltb (max_length cfg 10000) (length content)
    then err too_long
    else if contains content 0
    then err bad_characters
    else ok tt

unfoldable pub validate_room_name : Option ℕ → Text → Result ValidationError (Unit {0})
validate_room_name cfg name =
    if is_blank name
    then err is_empty
    else if ltb (max_length cfg 100) (length name)
    then err too_long
    else if contains name 0
    then err bad_characters
    else ok tt

-- `strings.ContainsAny(userID, "\x00${}[]")`
abbrev is_special : ℕ → Bool
is_special b = (b == 0) || (b == 0x24) || (b == 0x7b) || (b == 0x7d) || (b == 0x5b) || (b == 0x5d)

unfoldable pub validate_user_id : Text → Result ValidationError (Unit {0})
validate_user_id user =
    if is_blank user
    then err is_empty
    else if ltb 100 (length user)
    then err bad_format
    else if any is_special user
    then err bad_characters
    else ok tt

abbrev pub is_hex : ℕ → Bool
is_hex c = (leb 0x30 c && leb c 0x39) || (leb 0x61 c && leb c 0x66) || (leb 0x41 c && leb c 0x46)

-- The loop is over the code points.
unfoldable pub validate_room_id : Text → Result ValidationError (Unit {0})
validate_room_id room =
    if is_blank room
    then err is_empty
    else if not (length room == 24)
    then err bad_format
    else if not (all is_hex (runes room))
    then err bad_format
    else ok tt

abbrev is_allowed : ℕ → Bool
is_allowed r = leb 32 r || (r == 10) || (r == 9)

unfoldable pub sanitize_input : Text → Text
sanitize_input input = encode_runes (keep is_allowed (runes (keep (λ b. not (b == 0)) input)))

-- Whether the request goes on; the length of a body that is not known is -1 in Go.
unfoldable pub request_size_limiter : ℕ → Option ℕ → Bool
request_size_limiter max none = true
request_size_limiter max (some n) = not (ltb max n)
