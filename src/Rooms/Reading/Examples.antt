-- ===== src/Rooms/Reading/Examples.antt =====
-- The theorems on read marks at a server with one room.
use chat_gateway.Prelude.{◌≡◌, refl, []}
use chat_gateway.Prelude.Text.{bytes, text_eq}
use chat_gateway.Storage.MessageStore.{mark_as_read}
use chat_gateway.Rooms.Fixtures.{platform, world, r1, moment}
use chat_gateway.Rooms.Reading.{mark_as_read_reply, get_unread_count_reply}
use chat_gateway.Rooms.Reading.Unread.{get_unread_count_reply-mark_as_read_reply}

get_unread_count_reply-mark_as_read_reply_example :
    (get_unread_count_reply platform r1
      (bytes "bob")
      (mark_as_read_reply platform moment r1 (bytes "bob") [] world).1).body
    ≡ 0
unfolding mark_as_read_reply mark_as_read text_eq
get_unread_count_reply-mark_as_read_reply_example =
    get_unread_count_reply-mark_as_read_reply platform moment r1 (bytes "bob") world refl
