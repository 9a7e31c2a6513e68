-- ===== src/Storage/ChatRoomStore.antt =====
-- internal/storage/database/chatroom/chatroom.go: the operations of `ChatRoomStore` on the collection
-- `chat_rooms`. As with messages, `_ID` is not stored and the driver gives each document an `_id`. A
-- call reads the clock once; a document keeps its times as they are given, where BSON cuts them to
-- milliseconds.
pub mod Membership
pub mod Walk
use chat_gateway.Prelude.{
  ℕ, ◌+◌, Option, none, some, Bool, true, false, not, ◌&&◌, List, [], ◌∷◌, ◌++◌, any, keep, map,
  length, ltb, ◌==◌, if◌then◌else◌, Result, ok, err,
}
use chat_gateway.Prelude.Text.{Text, text_eq}
use chat_gateway.Storage.Collection.{Collection, Counts, Found, missing, found, failed}
use chat_gateway.Storage.Paging.{Rfc3339, View, Page, cursor_time, before, page_of}
use chat_gateway.Storage.MessageStore.{ObjectIds, NewIds}

pub record RoomMember : Type 0 where
  pub user_id : Text
  pub username : Text
  pub display_name : Text
  pub avatar_url : Text
  pub role : Text
  pub status : Text
  pub joined_at : ℕ
  pub last_seen : ℕ
  -- 0 is Go's zero time.
  pub last_read_at : ℕ

pub record RoomSettings : Type 0 where
  pub allow_invite : Bool
  pub allow_edit_messages : Bool
  pub allow_delete_messages : Bool
  pub allow_pin_messages : Bool
  pub max_members : ℕ
  pub welcome_message : Text

-- Without the metadata and the avatar, which no code sets. `kind` is the `Type`.
pub record ChatRoom : Type 0 where
  pub object_id : ℕ
  pub id : Text
  pub name : Text
  pub kind : Text
  pub owner_id : Text
  pub settings : RoomSettings
  pub created_at : ℕ
  pub updated_at : ℕ
  pub last_message_at : ℕ
  pub last_message : Text
  pub last_message_time : ℕ
  pub members : List RoomMember

abbrev pub activity : ChatRoom → ℕ
activity r = r.last_message_at

abbrev pub RoomView : Type 0
RoomView = View ChatRoom activity

abbrev pub is_user : Text → RoomMember → Bool
is_user user m = text_eq m.user_id user

abbrev pub has_member : Text → ChatRoom → Bool
has_member user r = any (is_user user) r.members

abbrev pub has_id : Text → ChatRoom → Bool
has_id id r = text_eq r.id id

abbrev has_object_id : ℕ → ChatRoom → Bool
has_object_id n r = r.object_id == n

pub data RoomError : Type 0 where
  update_failed room_not_found no_changes bad_id query_failed : RoomError

abbrev pub push_member : ℕ → RoomMember → ChatRoom → ChatRoom
push_member now m r = record r { members = r.members ++ m ∷ []; updated_at = now }

abbrev pub pull_member : ℕ → Text → ChatRoom → ChatRoom
pull_member now user r = record r {
  members = keep (λ m. not (is_user user m)) r.members;
  updated_at = now;
}

-- What `UpdateOne` reports, as `AddMember` reads it.
abbrev added : Option Counts → Result RoomError (Unit {0})
added none = err update_failed
added (some n) =
    if n.matched == 0 then err room_not_found else if n.modified == 0 then err no_changes else ok tt

abbrev pub done : {S : Type 0} → S × Option Counts → S × Bool
done (s, none) = (s, false)
done (s, some n) = (s, true)

module _ (ids : ObjectIds) (c : Collection ChatRoom) where
  unfoldable pub create : ℕ → NewIds → ChatRoom → c.State → ChatRoom × c.State × Bool
  create now new r s =
      let r' : ChatRoom = record r {
        object_id = new.stored;
        id = ids.hex new.own;
        created_at = now;
        updated_at = now;
        last_message_at = now;
      } in
      let (s', done) = c.insert_one r' s in (r', s', done)

  unfoldable pub get_by_id : Text → c.State → Found ChatRoom
  get_by_id id s = elim (ids.from_hex id) [
    | none ↦ failed
    | some n ↦ c.find_one (has_object_id n) s
  ]

  -- `g` sets the fields of the update.
  unfoldable pub update : ℕ → Text → (ChatRoom → ChatRoom) → c.State → c.State × Bool
  update now id g s = done (c.update_one (has_id id) (λ r. record (g r) { updated_at = now }) s)

  unfoldable pub delete : Text → c.State → c.State × Bool
  delete id s = elim (ids.from_hex id) [
    | none ↦ (s, false)
    | some n ↦ c.delete_one (has_object_id n) s
  ]

  unfoldable pub is_member : Text → Text → c.State → Option Bool
  is_member room user s = elim (c.count_documents (λ r. has_id room r && has_member user r) s) [
    | none ↦ none
    | some n ↦ some (ltb 0 n)
  ]

  unfoldable pub add_member :
      ℕ → Text → RoomMember → c.State → c.State × Result RoomError (Unit {0})
  add_member now room m s =
      let m' : RoomMember = record m { joined_at = now; last_seen = now; last_read_at = now } in
      let (s', result) = c.update_one (has_id room) (push_member now m') s in (s', added result)

  unfoldable pub remove_member : ℕ → Text → Text → c.State → c.State × Bool
  remove_member now room user s = done (c.update_one (has_id room) (pull_member now user) s)

  abbrev members_of : Found ChatRoom → Result RoomError (List RoomMember)
  members_of missing = err room_not_found
  members_of failed = err query_failed
  members_of (found r) = ok r.members

  unfoldable pub get_members : Text → c.State → Result RoomError (List RoomMember)
  get_members id s = elim (ids.from_hex id) [
    | none ↦ err bad_id
    | some n ↦ members_of (c.find_one (has_object_id n) s)
  ]

  unfoldable pub get_member_count : Text → c.State → Result RoomError ℕ
  unfolding get_members
  get_member_count id s = elim (get_members id s) [ err e ↦ err e | ok ms ↦ ok (length ms) ]

module _ (time : Rfc3339) where
  abbrev user_at : Text → Option ℕ → ChatRoom → Bool
  user_at user none r = has_member user r
  user_at user (some t) r = has_member user r && before activity t r

  unfoldable pub room_filter : Text → Text → ChatRoom → Bool
  room_filter user cursor r = user_at user (cursor_time time cursor) r

  unfoldable pub list_user_rooms : RoomView → Text → ℕ → Text → Option (Page ChatRoom)
  unfolding room_filter
  list_user_rooms c user limit cursor =
      page_of activity time limit (c.find_down (room_filter user cursor) (limit + 1))
