-- ===== src/Rooms/Creating/Examples.antt =====
-- A direct chat that is asked for again.
use chat_gateway.Storage.Paging.{cursor_time, process_pagination_result}
use chat_gateway.Prelude.{◌≡◌, refl, some, true, [], ◌∷◌}
use chat_gateway.Prelude.Text.{bytes, text_eq}
use chat_gateway.Prelude.Dict.{lookup, insert}
use chat_gateway.Storage.Fixtures.{settings, member}
use chat_gateway.Storage.ChatRoomStore.{list_user_rooms, ChatRoom}
use chat_gateway.Rooms.{all_set, has_same_members}
use chat_gateway.Rooms.World.{World, convert_room_to_grpc}
use chat_gateway.Rooms.Fixtures.{platform, world, team, moment}
use chat_gateway.Rooms.Creating.{CreateRoomRequest, find_existing_direct_chat, create_room}
use chat_gateway.Rooms.Creating.Direct.{is_direct_of, create_room-exists}

abbrev chat : ChatRoom
chat = record team {
  kind = bytes "direct";
  members = member (bytes "alice") ∷ member (bytes "bob") ∷ [];
}

abbrev chatting : World platform
chatting = record world { rooms = chat ∷ [] }

abbrev request : CreateRoomRequest
request = record {
  name = bytes "us";
  kind = bytes "direct";
  owner_id = bytes "bob";
  member_ids = bytes "bob" ∷ bytes "alice" ∷ [];
  settings = settings;
}

create_room-exists_example :
    (r : ChatRoom) × ((create_room platform moment request chatting).0.body
      ≡ some (convert_room_to_grpc r))
    × (is_direct_of request.member_ids r ≡ true)
    × ((create_room platform moment request chatting).1 ≡ chatting)
unfolding create_room find_existing_direct_chat has_same_members all_set lookup insert text_eq
    list_user_rooms process_pagination_result cursor_time
create_room-exists_example = create_room-exists platform moment request chatting refl
