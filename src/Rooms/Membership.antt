-- ===== src/Rooms/Membership.antt =====
-- grpc/server.go, `JoinRoom`, `LeaveRoom` and the system messages that they leave.
pub mod Touching
pub mod Once
pub mod Joining
pub mod Results
pub mod Roster
mod Examples
use chat_gateway.Prelude.{
  ℕ, zero, suc, ◌/◌, Option, none, some, Bool, true, false, not, ◌&&◌, ◌||◌, List, [], ◌∷◌, ◌++◌,
  length, ltb, leb, ◌==◌, if◌then◌else◌, Result, ok, err,
}
use chat_gateway.Prelude.Text.{Text, text_eq, bytes}
use chat_gateway.Prelude.Utf8.{valid}
use chat_gateway.Prelude.Dict.{Dict, insert}
use chat_gateway.Security.Audit.{log_room_creation, log_room_join, log_room_leave}
use chat_gateway.Security.MessageEncryption.{
  MessageEncryption, MessageError, Inputs, is_encrypted, decrypt_message,
}
use chat_gateway.Storage.Paging.{Page, second}
use chat_gateway.Storage.Messages.{Message, Limits, setting}
use chat_gateway.Storage.MessageStore.{new_message}
use chat_gateway.Storage.MessageStore
use chat_gateway.Storage.ChatRoomStore.{
  ChatRoom, RoomMember, RoomSettings, RoomError, is_member, add_member, remove_member,
  list_user_rooms,
}
use chat_gateway.Storage.ChatRoomStore
use chat_gateway.Rooms.{ensure_owner_in_members, create_room_members, has_same_members}
use chat_gateway.Rooms.World.{
  Platform, World, Moment, Notice, Reply, GrpcRoom, convert_members_to_grpc, plain,
}

abbrev pub last_message_fields : Text → ℕ → ChatRoom → ChatRoom
last_message_fields content time r = record r {
  last_message = content;
  last_message_time = time;
  last_message_at = time;
  updated_at = time;
}

-- `s.repos.ChatRoom.Update` with the fields of the last message.
abbrev pub touch_room : (p : Platform) → Moment → Text → Text → ℕ → World p → World p
touch_room p i room content time w = record w {
  rooms =
      (ChatRoomStore.update p.ids p.rooms i.updated room (last_message_fields content time)
        w.rooms).0;
}

-- A failure of either step is only logged.
unfoldable pub create_system_message_and_update_room :
    (p : Platform) → Moment → Text → Text → World p → World p
create_system_message_and_update_room p i room content w =
    let message : Message = record (new_message p.ids i.first i.made) {
      room_id = room;
      sender_id = bytes "system";
      content = content;
      kind = bytes "system";
    } in
    let (message', messages, done) =
      MessageStore.create p.ids p.messages i.now i.new message w.messages in
    let w' : World p = record w { messages = messages } in
    if not done then w' else touch_room p i room message'.content message'.created_at w'

abbrev pub new_member : Text → RoomMember
new_member user = record {
  user_id = user;
  username = [];
  display_name = [];
  avatar_url = [];
  role = bytes "member";
  status = [];
  joined_at = 0;
  last_seen = 0;
  last_read_at = 0;
}

-- `JoinRoom` after a successful addition.
unfoldable pub announce_join : (p : Platform) → Moment → Text → Text → World p → World p
unfolding create_system_message_and_update_room
announce_join p i room user w =
    let w' = create_system_message_and_update_room p i room (user ++ bytes " 已加入群組") w in
    record w' { audit = log_room_join i.logged user room w'.audit }

-- `JoinRoom` of a user who is no member.
unfoldable pub join_new :
    (p : Platform) → Moment → Text → Text → World p → Reply (Unit {0}) × World p
unfolding announce_join
join_new p i room user w =
    let (rooms, result) = add_member p.ids p.rooms i.changed room (new_member user) w.rooms in
    elim result [
      | err e ↦ (plain false Notice.join_failed, record w { rooms = rooms })
      | ok done ↦
          (plain true Notice.joined, announce_join p i room user (record w { rooms = rooms }))
    ]

unfoldable pub join_room :
    (p : Platform) → Moment → Text → Text → World p → Reply (Unit {0}) × World p
unfolding join_new
join_room p i room user w = elim (is_member p.ids p.rooms room user w.rooms) [
  | none ↦ (plain false Notice.check_failed, w)
  | some there ↦ if there then (plain true Notice.already_member, w) else join_new p i room user w
]

unfoldable pub leave_room :
    (p : Platform) → Moment → Text → Text → World p → Reply (Unit {0}) × World p
unfolding create_system_message_and_update_room
leave_room p i room user w =
    let (rooms, done) = remove_member p.ids p.rooms i.changed room user w.rooms in
    let w' : World p = record w { rooms = rooms } in
    if not done
    then (plain false Notice.leave_failed, w')
    else let w'' = create_system_message_and_update_room p i room (user ++ bytes " 已離開群組") w' in
      (plain true Notice.left, record w'' { audit = log_room_leave i.logged user room w''.audit })
