-- ===== src/Http/RoomHandlers.antt =====
-- platform/server/http.go: the handlers of rooms and their members, `createRoom`, `listUserRooms`,
-- `addRoomMember` and `removeRoomMember`.
use chat_gateway.Prelude.{
  ℕ, suc, Option, none, some, true, false, List, [], ◌∷◌, length, ltb, if◌then◌else◌, Result, ok,
  err, ◌>>=◌,
}
use chat_gateway.Prelude.Text.{Text, bytes, text_eq}
use chat_gateway.Prelude.Dict.{Dict}
use chat_gateway.Middleware.Validation.{validate_room_name, validate_user_id, sanitize_input}
use chat_gateway.Rooms.World.{Platform, World, Reply, GrpcRoom}
use chat_gateway.Rooms.Creating.{CreateRoomRequest, create_room}
use chat_gateway.Rooms.Membership.{join_room, leave_room}
use chat_gateway.Rooms.Listing.{RoomList, list_user_rooms_reply}
use chat_gateway.Rooms.Reading.{get_unread_count_reply}
use chat_gateway.Storage.Messages.{Limits, setting}
use chat_gateway.Http.Errors.{
  Outcome, answer, panic, complaint, says, ListedRoom, told, room_data, rooms_data,
}
use chat_gateway.Http.Setup.{
  Config, Fate, through, lost, Gateway, Turn, query, configured, field_of,
}
use chat_gateway.Http.Calling.{checked_by, unless, bound, bad_format, invoke, after_checks}

pub record MemberForm : Type 0 where
  pub user_id : Text
  pub role : Text

pub record RoomForm : Type 0 where
  pub name : Text
  pub kind : Text
  pub owner_id : Text
  pub members : List MemberForm

-- The loop over the members of a form.
unfoldable pub member_ids : List MemberForm → Result Outcome (List Text)
member_ids [] = ok []
member_ids (m ∷ ms) = elim (validate_user_id m.user_id) [
  | err e ↦ err (answer 400 (complaint (says (bytes "成員 ID 格式錯誤"))))
  | ok done ↦ member_ids ms >>= λ ids. ok (m.user_id ∷ ids)
]

abbrev pub max_members : Option Config → ℕ
max_members cfg = configured cfg (λ c. c.max_members) 1000

-- The checks of `createRoom`, and the request that it makes.
unfoldable pub room_request :
    Option Config → Text → Result Text RoomForm → Result Outcome CreateRoomRequest
unfolding member_ids
room_request cfg id body = do
  form ← bound bad_format body
  named ← checked_by id (validate_room_name (field_of cfg (λ c. c.max_name_length)) form.name)
  owned ← checked_by id (validate_user_id form.owner_id)
  few ← unless (ltb (max_members cfg) (length form.members)) (bytes "成員數量超過限制")
  ids ← member_ids form.members
  ok (record {
    name = sanitize_input form.name;
    kind = form.kind;
    owner_id = form.owner_id;
    member_ids = ids;
    settings = record {
      allow_invite = true;
      allow_edit_messages = true;
      allow_delete_messages = true;
      allow_pin_messages = false;
      max_members = max_members cfg;
      welcome_message = [];
    };
  })

-- `resp.Room.Id` and the other fields: without a room a nil dereference.
unfoldable pub room_answer : Reply (Option GrpcRoom) → Outcome
room_answer r = elim r.body [
  | none ↦ panic
  | some room ↦ answer 200 (
      room_data r.success r.message (record {
        id = room.id;
        name = room.name;
        kind = room.kind;
        owner_id = room.owner_id;
        created_at = room.created_at;
      }))
]

-- The limit of a page of rooms: the configuration's, whatever the client asks for.
abbrev pub rooms_limit : Option Limits → ℕ
rooms_limit none = 10
rooms_limit (some limits) = setting limits.default_page_size 10

abbrev pub unread_of : Fate → Reply ℕ → ℕ
unread_of through r = if r.success then r.body else 0
unread_of (lost served error) r = 0

abbrev pub rooms_answer : Reply RoomList × List ListedRoom → Outcome
rooms_answer (r, rooms) =
    answer 200 (rooms_data r.success r.message rooms r.body.cursor r.body.has_more)

abbrev pub told_answer : Reply (Unit {0}) → Outcome
told_answer r = answer 200 (told r.success r.message)

-- The loop over the rooms of a page, each with its unread count.
unfoldable pub with_unread :
    (p : Platform) → World p → Text → (ℕ → Fate) → List GrpcRoom → List ListedRoom
with_unread p w user fates [] = []
with_unread p w user fates (r ∷ rs) =
    record {
      id = r.id;
      name = r.name;
      kind = r.kind;
      owner_id = r.owner_id;
      created_at = r.created_at;
      updated_at = r.updated_at;
      members = r.members;
      last_message = r.last_message;
      last_message_time = r.last_message_time;
      unread_count = unread_of (fates 0) (get_unread_count_reply p r.id user w);
    }
    ∷ with_unread p w user (λ n. fates (suc n)) rs

-- The page, and the unread counts at the state that the call leaves.
abbrev pub listed_rooms :
    (p : Platform)
    → Turn
    → Text
    → Reply RoomList × World p
    → (Reply RoomList × List ListedRoom) × World p
listed_rooms p t user (r, w) = ((r, with_unread p w user t.later r.body.rooms), w)

module _ (p : Platform) (wide : ℕ → ℕ) (cfg : Option Config) (id : Text) (t : Turn) where
  unfoldable pub post_room : Result Text RoomForm → Gateway p → Outcome × Gateway p
  unfolding room_request invoke room_answer
  post_room body =
      after_checks p wide cfg id (room_request cfg id body)
        λ req. invoke p wide cfg id t (create_room p t.moment req) room_answer

  unfoldable pub get_rooms : Dict Text → Gateway p → Outcome × Gateway p
  unfolding invoke with_unread
  get_rooms q =
      let user = query (bytes "user_id") q in
      after_checks p wide cfg id (unless (text_eq user []) (bytes "缺少 user_id 參數")) λ done.
        invoke p wide cfg id t
          (λ w. listed_rooms p t user (
            list_user_rooms_reply p t.moment user (rooms_limit p.limits) (query (bytes "cursor") q)
              w))
          rooms_answer

  -- The body of the request is the user's id.
  unfoldable pub post_member : Text → Result Text Text → Gateway p → Outcome × Gateway p
  unfolding invoke
  post_member room body =
      after_checks p wide cfg id (bound (λ error. error) body)
        λ user. invoke p wide cfg id t (join_room p t.moment room user) told_answer

  unfoldable pub delete_member : Text → Text → Gateway p → Outcome × Gateway p
  unfolding invoke
  delete_member room user = invoke p wide cfg id t (leave_room p t.moment room user) told_answer
