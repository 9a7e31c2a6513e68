-- ===== src/Rooms/Messaging/Examples.antt =====
-- The theorems on messages at a server with one room, whose key is in the cache.
use chat_gateway.Storage.Paging.{cursor_time, process_pagination_result}
use chat_gateway.Prelude.{false, ◌≡◌, ◌++◌, refl, inl, some, true, [], ◌∷◌, arith}
use chat_gateway.Prelude.Text.{Text, bytes, text_eq}
use chat_gateway.Prelude.Utf8.{valid}
use chat_gateway.Prelude.Dict.{lookup}
use chat_gateway.Security.MessageEncryption.RoundTrip.{enabled_with}
use chat_gateway.Security.Fixtures.{cipher, store, secret, iv, hello, keyed, room_key}
use chat_gateway.Storage.Collection.{In}
use chat_gateway.Storage.Messages.{build_message_filter, normalize_pagination_limit, get_by_room_id}
use chat_gateway.Rooms.World.{Notice}
use chat_gateway.Rooms.Fixtures.{platform, world, r1, moment}
use chat_gateway.Rooms.Messaging.{World, SendMessageRequest, send_message, get_messages}
use chat_gateway.Rooms.Messaging.Sending.{
  Sendable, stored_message, sent_message, sealed_content, send_message_lem,
}
use chat_gateway.Rooms.Messaging.Showing.{get_messages-stored}

abbrev request : SendMessageRequest
request = record { room_id = r1; sender_id = bytes "alice"; content = hello; kind = bytes "text" }

request-Sendable : Sendable platform moment request secret iv keyed
unfolding lookup text_eq
request-Sendable = record {
  key = record { named = λ e. cc; key = room_key; cached = refl; value = refl; size = refl };
  given = refl;
  iv_size = refl;
  iv_bytes = ground arith;
  content_bytes = ground arith;
  not_empty = λ e. cc;
  not_system = refl;
}

abbrev sealed : Text
sealed = sealed_content platform moment request secret iv keyed request-Sendable

send_message_lem_example :
    ((send_message platform moment request world).0 ≡ record {
      success = true;
      message = Notice.sent;
      body = some (sent_message platform moment request);
    })
    × (platform.messages.contents (send_message platform moment request world).1.messages
        ≡ platform.messages.contents world.messages
          ++ stored_message platform moment request sealed ∷ [])
    × ((send_message platform moment request world).1.encryption ≡ enabled_with cipher store keyed)
send_message_lem_example =
    send_message_lem platform moment request secret iv keyed request-Sendable world refl

abbrev after : World platform
after = record world { messages = stored_message platform moment request sealed ∷ [] }

get_messages-stored_example :
    ((get_messages platform moment r1 5 [] after).0.success ≡ true)
    × In
        (sent_message platform moment request)
        (get_messages platform moment r1 5 [] after).0.body.messages
unfolding text_eq valid get_by_room_id process_pagination_result normalize_pagination_limit
    build_message_filter cursor_time
get_messages-stored_example =
    get_messages-stored platform moment request secret iv keyed request-Sendable moment 5 [] after
      (record {
        messages = stored_message platform moment request sealed ∷ [];
        next_cursor = [];
        has_more = false;
      })
      refl (inl refl) refl
