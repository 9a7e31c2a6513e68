-- ===== src/Http/Sending/Examples.antt =====
-- The theorems on sent messages at a form.
use chat_gateway.Prelude.{◌≡◌, ◌++◌, refl, ok, some, true, [], ◌∷◌, arith}
use chat_gateway.Prelude.Text.{Text, bytes, text_eq}
use chat_gateway.Prelude.Dict.{lookup}
use chat_gateway.Prelude.Utf8.{runes, runes_from, encode_runes}
use chat_gateway.Security.Fixtures.{secret, iv, hello, room_key}
use chat_gateway.Rooms.World.{Notice}
use chat_gateway.Rooms.Fixtures.{platform, moment}
use chat_gateway.Rooms.Messaging.Sending.{Sendable, stored_message, sent_message, sealed_content}
use chat_gateway.Http.Errors.{answer, message_data}
use chat_gateway.Http.Fixtures.{config, wide, gateway, turn, room_id, manager}
use chat_gateway.Http.MessageHandlers.{MessageForm, summary, post_message}
use chat_gateway.Http.Setup.{get_connection}
use chat_gateway.Http.Router.{new_gateway}
use chat_gateway.Middleware.Validation.{
  validate_room_id, validate_user_id, validate_message_content, sanitize_input,
}
use chat_gateway.Http.Sending.{request_of, IsValid, IsServed, with_key, post_message_lem}

abbrev form : MessageForm
form = record { room_id = room_id; sender_id = bytes "alice"; content = hello; kind = bytes "text" }

form-IsValid : IsValid (some config) form
unfolding validate_room_id validate_user_id validate_message_content runes runes_from
form-IsValid = record { room = refl; sender = refl; content = refl }

gateway-IsServed : IsServed platform (some config) turn gateway
unfolding get_connection new_gateway
gateway-IsServed = record { connected = refl; delivered = refl }

form-Sendable : Sendable platform moment (request_of form) secret iv manager
unfolding lookup text_eq sanitize_input runes runes_from encode_runes
form-Sendable = record {
  key = record { named = λ e. cc; key = room_key; cached = refl; value = refl; size = refl };
  given = refl;
  iv_size = refl;
  iv_bytes = ground arith;
  content_bytes = ground arith;
  not_empty = λ e. cc;
  not_system = refl;
}

abbrev sealed : Text
sealed = sealed_content platform moment (request_of form) secret iv manager form-Sendable

post_message_lem_example :
    ((post_message platform wide
        (some config)
        []
        turn
        (ok form)
        (with_key platform manager gateway)).0
      ≡ answer 200 (
          message_data true Notice.sent (summary (sent_message platform moment (request_of form)))))
    × (platform.messages.contents
          (post_message platform wide
            (some config)
            []
            turn
            (ok form)
            (with_key platform manager gateway)).1.world.messages
        ≡ platform.messages.contents gateway.world.messages
          ++ stored_message platform moment (request_of form) sealed ∷ [])
post_message_lem_example =
    post_message_lem platform wide (some config) [] turn form secret iv manager gateway form-IsValid
      gateway-IsServed form-Sendable refl
