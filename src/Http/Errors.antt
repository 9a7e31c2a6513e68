-- ===== src/Http/Errors.antt =====
-- internal/httputil/error_handler.go: the answers of the handlers, and which errors a client is shown.
-- `strings.ToLower` goes by code points; from 0x80 on its table is the parameter `wide`.
pub mod Hiding
mod Examples
use chat_gateway.Prelude.{
  ℕ, ◌+◌, Option, none, some, Bool, true, false, not, ◌&&◌, ◌||◌, List, [], ◌∷◌, ◌++◌, map, any,
  ltb, leb, if◌then◌else◌,
}
use chat_gateway.Prelude.Text.{Text, bytes, has_prefix, text_eq}
use chat_gateway.Prelude.Utf8.{runes, encode_runes}
use chat_gateway.Storage.Paging.{Page}
use chat_gateway.Middleware.Validation.{ValidationError}
use chat_gateway.Rooms.World.{Notice, GrpcMember, GrpcRoom, ChatMessage}

-- The text of an "error" field: a fixed one, that of a failed check, or that of another error.
pub data Explanation : Type 0 where
  says : Text → Explanation
  fails : ValidationError → Explanation

-- The room of the answer of `createRoom`.
pub record RoomSummary : Type 0 where
  pub id : Text
  pub name : Text
  pub kind : Text
  pub owner_id : Text
  pub created_at : ℕ

-- A room of the answer of `listUserRooms`.
pub record ListedRoom : Type 0 where
  pub id : Text
  pub name : Text
  pub kind : Text
  pub owner_id : Text
  pub created_at : ℕ
  pub updated_at : ℕ
  pub members : List GrpcMember
  pub last_message : Text
  pub last_message_time : ℕ
  pub unread_count : ℕ

-- The message of the answer of `sendMessage`.
pub record MessageSummary : Type 0 where
  pub id : Text
  pub room_id : Text
  pub sender_id : Text
  pub content : Text
  pub kind : Text
  pub created_at : ℕ

-- The answer of the health check.
pub record HealthReport : Type 0 where
  pub status : Text
  pub app_name : Text
  pub version : Text
  pub debug : Bool
  pub database_status : Text
  pub database_error : Text
  pub database_name : Option Text
  pub system_status : Text

-- The JSON objects of the answers, by their fields.
pub data Body : Type 0 where
  blank : Body
  -- "error"
  complaint : Explanation → Body
  -- "error", "success" (false) and "request_id"
  traced : Explanation → Text → Body
  -- "error" and "success" (false)
  refused : Explanation → Body
  -- "success" and "message"
  told : Bool → Notice → Body
  -- "success", "message" and "data"
  room_data : Bool → Notice → RoomSummary → Body
  message_data : Bool → Notice → MessageSummary → Body
  -- "success", "message", "data", "cursor" or "next_cursor", and "has_more"
  rooms_data : Bool → Notice → List ListedRoom → Text → Bool → Body
  messages_data : Bool → Notice → List ChatMessage → Text → Bool → Body
  health_data : HealthReport → Body

-- What a handler does: it writes a status and a body, goes over to the stream of a room's messages for
-- a user, or panics.
pub data Outcome : Type 0 where
  answer : ℕ → Body → Outcome
  streamed : Text → Text → Outcome
  panic : Outcome

-- `unicode.ToLower`
abbrev pub lower_rune : (ℕ → ℕ) → ℕ → ℕ
lower_rune wide r = if ltb r 0x80 then if leb 65 r && leb r 90 then r + 32 else r else wide r

unfoldable pub to_lower : (ℕ → ℕ) → Text → Text
to_lower wide s = encode_runes (map (lower_rune wide) (runes s))

-- `strings.Contains(s, part)`
unfoldable pub contains : Text → Text → Bool
contains part [] = has_prefix part []
contains part (c ∷ s) = has_prefix part (c ∷ s) || contains part s

abbrev pub dangerous_keywords : List Text
dangerous_keywords =
    bytes "mongo"
    ∷ bytes "database"
    ∷ bytes "connection"
    ∷ bytes "password"
    ∷ bytes "token"
    ∷ bytes "secret"
    ∷ bytes "credential"
    ∷ bytes "grpc"
    ∷ bytes "internal"
    ∷ bytes "stack"
    ∷ bytes "panic"
    ∷ []

-- `none` is the nil error.
unfoldable pub should_show_error : (ℕ → ℕ) → Option Text → Bool
unfolding to_lower contains
should_show_error wide none = false
should_show_error wide (some error) =
    not (any (λ keyword. contains keyword (to_lower wide error)) dangerous_keywords)

abbrev shown_text : Option Text → Text
shown_text none = []
shown_text (some error) = error

-- `SafeError`, with the request's id; the log is left out.
unfoldable pub safe_error : (ℕ → ℕ) → Text → ℕ → Option Text → Text → Outcome
unfolding should_show_error
safe_error wide id status error message =
    answer status
      (traced (says (if should_show_error wide error then shown_text error else message)) id)

abbrev pub server_failed : Text
server_failed = bytes "服務器內部錯誤，請稍後再試"

unfoldable pub internal_server_error : (ℕ → ℕ) → Text → Text → Outcome
unfolding safe_error
internal_server_error wide id error = safe_error wide id 500 (some error) server_failed

unfoldable pub bad_request : Text → Explanation → Outcome
bad_request id message = answer 400 (traced message id)

-- The empty message stands for the default.
abbrev or_default : Text → Text → Text
or_default message default = if text_eq message [] then default else message

unfoldable pub unauthorized : Text → Text → Outcome
unauthorized id message = answer 401 (traced (says (or_default message (bytes "未授權訪問"))) id)

unfoldable pub forbidden : Text → Text → Outcome
forbidden id message = answer 403 (traced (says (or_default message (bytes "禁止訪問"))) id)

unfoldable pub not_found_error : Text → Text → Outcome
not_found_error id message = answer 404 (traced (says (or_default message (bytes "資源不存在"))) id)

unfoldable pub rate_limit_exceeded : Text → Outcome
rate_limit_exceeded id = answer 429 (traced (says (bytes "請求過於頻繁，請稍後再試")) id)

-- `ValidationError`, with the field and the message.
unfoldable pub validation_error : Text → Text → Text → Outcome
validation_error id field message = answer 400 (traced (says (field ++ bytes ": " ++ message)) id)
