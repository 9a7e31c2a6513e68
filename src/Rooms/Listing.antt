-- ===== src/Rooms/Listing.antt =====
-- grpc/server.go, `ListUserRooms` and `GetRoomInfo`.
use chat_gateway.Prelude.{
  ℕ, suc, ◌/◌, Option, none, some, Bool, true, false, not, ◌&&◌, List, [], ◌∷◌, leb, if◌then◌else◌,
  Result, ok, err,
}
use chat_gateway.Prelude.Text.{Text, text_eq, bytes}
use chat_gateway.Prelude.Utf8.{valid}
use chat_gateway.Security.MessageEncryption.{
  MessageEncryption, MessageError, Inputs, is_encrypted, decrypt_message,
}
use chat_gateway.Storage.Paging.{second}
use chat_gateway.Storage.Messages.{Limits, setting}
use chat_gateway.Storage.ChatRoomStore.{ChatRoom, list_user_rooms}
use chat_gateway.Rooms.World.{
  Platform, World, Moment, Notice, Reply, GrpcRoom, convert_room_to_grpc,
}

-- `limit <= 0` takes the default.
abbrev pub list_limit : Option Limits → ℕ → ℕ
list_limit none limit = if leb limit 0 then 10 else limit
list_limit (some cfg) limit = if leb limit 0 then setting cfg.default_page_size 10 else limit

pub record RoomList : Type 0 where
  pub rooms : List GrpcRoom
  pub cursor : Text
  pub has_more : Bool

abbrev no_rooms : RoomList
no_rooms = record { rooms = []; cursor = []; has_more = false }

-- An example room, whatever the id.
unfoldable pub get_room_info : Text → Reply GrpcRoom
get_room_info room = record {
  success = true;
  message = Notice.info_found;
  body = record {
    id = room;
    name = bytes "示例聊天室";
    kind = bytes "group";
    owner_id = [];
    members = [];
    settings = none;
    created_at = 1234567890;
    updated_at = 0;
    last_message = [];
    last_message_time = 0;
  };
}

abbrev pub shown_preview : Result MessageError Text → Text
shown_preview (err e) = bytes "[訊息]"
shown_preview (ok text) = if not (valid text) then bytes "[訊息]" else text

module _ (p : Platform) where
  abbrev with_preview :
      Result MessageError Text × MessageEncryption p.keys.State
      → Text × MessageEncryption p.keys.State
  with_preview (result, e) = (shown_preview result, e)

  -- The last message of a room in a list.
  unfoldable pub show_last_message :
      Inputs → ChatRoom → MessageEncryption p.keys.State → Text × MessageEncryption p.keys.State
  show_last_message i r e =
      if not (text_eq r.last_message []) && is_encrypted r.last_message
      then with_preview (decrypt_message p.aes p.keys i r.last_message r.id e)
      else (r.last_message, e)

  unfoldable pub show_rooms :
      (ℕ → Inputs)
      → List ChatRoom
      → MessageEncryption p.keys.State
      → List GrpcRoom × MessageEncryption p.keys.State
  unfolding show_last_message
  show_rooms inputs [] e = ([], e)
  show_rooms inputs (r ∷ rs) e =
      let (text, e') = show_last_message (inputs 0) r e in
      let room : GrpcRoom = record (convert_room_to_grpc r) {
        last_message = text;
        last_message_time = r.last_message_time / second;
      } in
      let (rooms, e'') = show_rooms (λ n. inputs (suc n)) rs e' in (room ∷ rooms, e'')

  unfoldable pub list_user_rooms_reply :
      Moment → Text → ℕ → Text → World p → Reply RoomList × World p
  unfolding show_rooms
  list_user_rooms_reply i user limit cursor w =
      elim (list_user_rooms p.time (p.ordered_rooms w.rooms) user (list_limit p.limits limit)
        cursor) [
          | none ↦ (record { success = false; message = Notice.rooms_failed; body = no_rooms }, w)
          | some page ↦
              let (rooms, e) = show_rooms i.showing page.messages w.encryption in
              (
                record {
                  success = true;
                  message = Notice.rooms_listed;
                  body = record {
                    rooms = rooms;
                    cursor = page.next_cursor;
                    has_more = page.has_more;
                  };
                },
                record w { encryption = e },
              )
        ]
