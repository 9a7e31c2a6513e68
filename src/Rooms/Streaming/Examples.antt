-- ===== src/Rooms/Streaming/Examples.antt =====
-- The theorems on streams at a room with one message, to which another is added.
use chat_gateway.Prelude.Dict.{insert, lookup}
use chat_gateway.Storage.Paging.{cursor_time, process_pagination_result}
use chat_gateway.Storage.Messages.{build_message_filter, normalize_pagination_limit, get_by_room_id}
use chat_gateway.Prelude.{◌≡◌, ◌+◌, refl, inl, true, [], ◌∷◌}
use chat_gateway.Prelude.Text.{text_eq}
use chat_gateway.Storage.Fixtures.{message}
use chat_gateway.Rooms.Streaming.{Poll, initialize_seen_messages, stream_messages}
use chat_gateway.Rooms.Streaming.NoRepeats.{flag, marked, times}
use chat_gateway.Rooms.Streaming.Delivery.{IsListed, stream_messages-listed}
use chat_gateway.Rooms.Fixtures.{platform, world, r1, moment}

abbrev poll : Poll platform
poll = record { store = message 1 ∷ message 2 ∷ []; sends = λ m. true; inputs = moment.showing }

second-IsListed : IsListed platform (2 ∷ []) r1 (message 2) poll
unfolding text_eq get_by_room_id process_pagination_result normalize_pagination_limit
    build_message_filter cursor_time
second-IsListed = record { page = _; fetched = refl; listed = inl refl }

stream_messages-listed_example :
    flag (marked (2 ∷ []) (initialize_seen_messages platform r1 world.messages))
      + times
          (2 ∷ [])
          (stream_messages platform r1 world.messages world.encryption (poll ∷ poll ∷ [])).sent
    ≡ 1
unfolding text_eq stream_messages get_by_room_id process_pagination_result
    normalize_pagination_limit build_message_filter cursor_time lookup insert
stream_messages-listed_example =
    stream_messages-listed platform r1 world.messages world.encryption (message 2) poll
      (poll ∷ poll ∷ []) (inl refl) second-IsListed refl
