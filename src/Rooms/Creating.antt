-- ===== src/Rooms/Creating.antt =====
-- grpc/server.go, `CreateRoom` and `findExistingDirectChat`. A request that the code would panic on, a
-- new room without settings, does not occur.
pub mod Direct
mod Examples
use chat_gateway.Prelude.{
  ℕ, Option, none, some, Bool, true, false, not, ◌&&◌, ◌||◌, List, [], ◌∷◌, length, ◌==◌,
  if◌then◌else◌,
}
use chat_gateway.Prelude.Text.{Text, text_eq, bytes}
use chat_gateway.Prelude.Dict.{Dict, insert}
use chat_gateway.Security.Audit.{log_room_creation}
use chat_gateway.Storage.Paging.{Page}
use chat_gateway.Storage.Messages.{Limits, setting}
use chat_gateway.Storage.ChatRoomStore.{
  ChatRoom, RoomMember, RoomSettings, RoomError, is_member, add_member, remove_member,
  list_user_rooms,
}
use chat_gateway.Storage.ChatRoomStore
use chat_gateway.Rooms.{ensure_owner_in_members, create_room_members, has_same_members}
use chat_gateway.Rooms.World.{
  Platform, World, Moment, Notice, Reply, GrpcRoom, convert_room_to_grpc,
}

-- The map of a request's member ids.
unfoldable pub id_map : Dict Bool → List Text → Dict Bool
id_map seen [] = seen
id_map seen (id ∷ ids) = id_map (insert id true seen) ids

-- The loop of `findExistingDirectChat`.
unfoldable pub find_same : Dict Bool → List ChatRoom → Option ChatRoom
find_same ids [] = none
find_same ids (r ∷ rs) =
    let rest = find_same ids rs in
    if not (text_eq r.kind (bytes "direct")) || not (length r.members == 2)
    then rest
    else if has_same_members r.members ids
    then some r
    else rest

abbrev pub check_limit : Option Limits → ℕ
check_limit none = 100
check_limit (some cfg) = setting cfg.max_query_limit 100

pub record CreateRoomRequest : Type 0 where
  pub name : Text
  pub kind : Text
  pub owner_id : Text
  pub member_ids : List Text
  pub settings : RoomSettings

abbrev pub found_in : Dict Bool → Option (Page ChatRoom) → Option ChatRoom
found_in ids none = none
found_in ids (some page) = find_same ids page.messages

unfoldable pub find_existing_direct_chat :
    (p : Platform) → Text → List Text → World p → Option ChatRoom
unfolding find_same id_map
find_existing_direct_chat p owner members w =
    found_in (id_map [] members)
      (list_user_rooms p.time (p.ordered_rooms w.rooms) owner (check_limit p.limits) [])

-- The room of a request, as it goes to the store.
abbrev pub requested_room : Moment → CreateRoomRequest → ChatRoom
requested_room i req = record {
  object_id = 0;
  id = [];
  name = req.name;
  kind = req.kind;
  owner_id = req.owner_id;
  settings = req.settings;
  created_at = i.made;
  updated_at = i.made;
  last_message_at = 0;
  last_message = [];
  last_message_time = 0;
  members = create_room_members i.changed (ensure_owner_in_members req.owner_id req.member_ids);
}

-- `CreateRoom` after the search for an existing room.
unfoldable pub create_new_room :
    (p : Platform) → Moment → CreateRoomRequest → World p → Reply (Option GrpcRoom) × World p
create_new_room p i req w =
    let (room', rooms, done) =
      ChatRoomStore.create p.ids p.rooms i.now i.new (requested_room i req) w.rooms in
    let w' : World p = record w { rooms = rooms } in
    if not done
    then (record { success = false; message = Notice.create_failed; body = none }, w')
    else (
      record {
        success = true;
        message = Notice.room_created;
        body = some (record (convert_room_to_grpc room') { settings = some room'.settings });
      },
      record w' { audit = log_room_creation i.logged req.owner_id room'.id req.kind w'.audit },
    )

-- Only a direct chat of two is looked for.
abbrev pub existing_room : (p : Platform) → CreateRoomRequest → World p → Option ChatRoom
existing_room p req w =
    if text_eq req.kind (bytes "direct") && (length req.member_ids == 2)
    then find_existing_direct_chat p req.owner_id req.member_ids w
    else none

unfoldable pub create_room :
    (p : Platform) → Moment → CreateRoomRequest → World p → Reply (Option GrpcRoom) × World p
unfolding create_new_room
create_room p i req w = elim (existing_room p req w) [
  | none ↦ create_new_room p i req w
  | some r ↦ (
    record { success = true; message = Notice.room_exists; body = some (convert_room_to_grpc r) },
    w,
  )
]
