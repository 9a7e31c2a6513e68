-- ===== src/Http/MessageHandlers.antt =====
-- platform/server/http.go: the handlers of messages, `sendMessage`, `getMessages` and `markAsRead`.
use chat_gateway.Prelude.{
  [], ℕ, Option, none, some, false, not, ◌||◌, if◌then◌else◌, Result, ok, ◌>>=◌,
}
use chat_gateway.Prelude.Text.{Text, bytes, text_eq}
use chat_gateway.Prelude.Dict.{Dict}
use chat_gateway.Prelude.Int.{ℤ, pos_part}
use chat_gateway.Middleware.Validation.{
  validate_room_id, validate_user_id, validate_message_content, sanitize_input,
}
use chat_gateway.Rooms.World.{Platform, Reply, ChatMessage}
use chat_gateway.Rooms.Messaging.{SendMessageRequest, send_message, get_messages}
use chat_gateway.Rooms.Reading.{mark_as_read_reply}
use chat_gateway.Storage.Paging.{Page}
use chat_gateway.Storage.Messages.{Limits, setting}
use chat_gateway.Http.Errors.{Outcome, answer, MessageSummary, told, message_data, messages_data}
use chat_gateway.Http.Setup.{Config, Gateway, Turn, query, field_of}
use chat_gateway.Http.Calling.{
  parse_int32, checked_by, unless, bound, bad_format, invoke, after_checks,
}

pub record MessageForm : Type 0 where
  pub room_id : Text
  pub sender_id : Text
  pub content : Text
  pub kind : Text

-- The checks of `sendMessage`, and the request that it makes.
unfoldable pub message_request :
    Option Config → Text → Result Text MessageForm → Result Outcome SendMessageRequest
message_request cfg id body = do
  form ← bound bad_format body
  roomed ← checked_by id (validate_room_id form.room_id)
  sent ← checked_by id (validate_user_id form.sender_id)
  filled ←
      checked_by id
        (validate_message_content (field_of cfg (λ c. c.max_message_length)) form.content)
  ok (record {
    room_id = form.room_id;
    sender_id = form.sender_id;
    content = sanitize_input form.content;
    kind = form.kind;
  })

abbrev pub summary : ChatMessage → MessageSummary
summary m = record {
  id = m.id;
  room_id = m.room_id;
  sender_id = m.sender_id;
  content = m.content;
  kind = m.kind;
  created_at = m.created_at;
}

abbrev sent_body : Reply (Option ChatMessage) → Option ChatMessage → Outcome
sent_body r none = answer 500 (told false r.message)
sent_body r (some m) = answer 200 (message_data r.success r.message (summary m))

unfoldable pub sent_answer : Reply (Option ChatMessage) → Outcome
sent_answer r = if not r.success then answer 500 (told false r.message) else sent_body r r.body

abbrev page_size : Option Limits → ℕ
page_size none = 20
page_size (some limits) = setting limits.default_page_size 20

abbrev limit_or : ℕ → Option ℤ → ℕ
limit_or default none = default
limit_or default (some n) = pos_part n

-- The limit of a page of messages: a number of 32 bits, if the client gives one. The service takes
-- the negative ones as it takes 0.
unfoldable pub messages_limit : Option Limits → Text → ℕ
unfolding parse_int32
messages_limit limits text =
    if text_eq text [] then page_size limits else limit_or (page_size limits) (parse_int32 text)

abbrev pub page_answer : Reply (Page ChatMessage) → Outcome
page_answer r =
    answer 200
      (messages_data r.success r.message r.body.messages r.body.next_cursor r.body.has_more)

pub record ReadForm : Type 0 where
  pub room_id : Text
  pub user_id : Text
  pub message_id : Text

module _ (p : Platform) (wide : ℕ → ℕ) (cfg : Option Config) (id : Text) (t : Turn) where
  unfoldable pub post_message : Result Text MessageForm → Gateway p → Outcome × Gateway p
  unfolding message_request invoke sent_answer
  post_message body =
      after_checks p wide cfg id (message_request cfg id body)
        λ req. invoke p wide cfg id t (send_message p t.moment req) sent_answer

  unfoldable pub get_page : Dict Text → Gateway p → Outcome × Gateway p
  unfolding invoke messages_limit
  get_page q =
      let room = query (bytes "room_id") q in
      let user = query (bytes "user_id") q in
      after_checks p wide cfg id (unless (text_eq room [] || text_eq user []) (bytes "缺少必要參數"))
        λ done.
          let limit = messages_limit p.limits (query (bytes "limit") q) in
          invoke p wide cfg id t (get_messages p t.moment room limit (query (bytes "cursor") q))
            page_answer

  unfoldable pub post_read : Result Text ReadForm → Gateway p → Outcome × Gateway p
  unfolding invoke
  post_read body = after_checks p wide cfg id (bound (λ error. error) body) λ form.
      invoke p wide cfg id t
        (mark_as_read_reply p t.moment form.room_id form.user_id form.message_id)
        λ r. answer 200 (told r.success r.message)
