-- ===== src/Storage/ChatRoomStore/Walk.antt =====
-- chatroom.go, `ListUserRooms`: all pages of a user's rooms.
use mathlib.Core.List.{reverse}
use chat_gateway.Prelude.{ℕ, suc, ◌<◌, ◌≡◌, refl, Option, none, some, Bool, List, [], length, keep}
use chat_gateway.Prelude.Text.{Text, text_eq}
use chat_gateway.Storage.Paging.{Rfc3339, cursor_time}
use chat_gateway.Storage.Paging.Cursors.{cursor_time-format}
use chat_gateway.Storage.Paging.Walk.{IsApart, text_at, after, walk, walk_complete}
use chat_gateway.Storage.ChatRoomStore.{
  ChatRoom, RoomView, activity, has_member, room_filter, list_user_rooms,
}

filters :
    (time : Rfc3339) (user : Text) (cursor : Option ℕ) (r : ChatRoom)
    → room_filter time user (text_at time cursor) r ≡ after activity (has_member user) cursor r
unfolding room_filter cursor_time text_eq
filters time user none r = refl
filters time user (some t) r = rw (cursor_time-format time t, room_filter) refl

-- A client that follows the cursors gets every room of the user, the latest activity first and each
-- once, with any positive limit, as long as the server answers from one state and no two of the
-- user's rooms have their last messages within one second.
pub walk-list_user_rooms :
    (time : Rfc3339) (c : RoomView) (user : Text) (limit fuel : ℕ)
    → ((g : ChatRoom → Bool) (k : ℕ) → (rs : List ChatRoom) × (c.find_down g k ≡ some rs))
    → IsApart activity (keep (has_member user) (reverse c.documents))
    → length (keep (has_member user) (reverse c.documents)) < fuel
    → walk (list_user_rooms time c user (suc limit)) fuel []
      ≡ some (keep (has_member user) (reverse c.documents))
unfolding list_user_rooms
walk-list_user_rooms time c user limit fuel answers apart enough =
    walk_complete activity time c (room_filter time user) (has_member user) limit answers
      (filters time user) fuel apart enough
