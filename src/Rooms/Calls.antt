-- ===== src/Rooms/Calls.antt =====
-- grpc/server.go: calls of the service one after the other.
pub mod Entries
pub mod Trail
mod Examples
use chat_gateway.Prelude.{
  ◌≡◌, refl, ap, ◌∙◌, inl, inr, none, Option-cases, Bool-cases, ℕ, Bool, true, false, List, [], ◌∷◌,
  all, ok, err, Result, Result-cases,
}
use chat_gateway.Prelude.Text.{Text}
use chat_gateway.Security.MessageEncryption.{MessageEncryption, MessageError, encrypt_message}
use chat_gateway.Rooms.Readers.{once}
use chat_gateway.Storage.Messages.{Message, get_by_room_id}
use chat_gateway.Storage.MessageStore.{mark_as_read}
use chat_gateway.Storage.ChatRoomStore.{list_user_rooms}
use chat_gateway.Rooms.World.{Platform, World, Moment, Notice}
use chat_gateway.Rooms.Membership.{join_room, leave_room}
use chat_gateway.Rooms.Creating.{CreateRoomRequest, create_room}
use chat_gateway.Rooms.Listing.{list_user_rooms_reply, list_limit}
use chat_gateway.Rooms.Membership.Touching.{contents-touch_room}
use chat_gateway.Rooms.Membership.Once.{
  Once, one_each, one_each-IsUntouched, create_room-Once, join_room-Once, leave_room-Once,
}
use chat_gateway.Rooms.Messaging.{
  SendMessageRequest, create_encrypted_message, update_room_last_message, preview_to_store,
  send_message, answer_sent, store_message, get_messages,
}
use chat_gateway.Rooms.Reading.{mark_as_read_reply, message_of}

-- A call that changes the state of the service, with its request.
pub data Call : Type 0 where
  create_call : CreateRoomRequest → Call
  join_call leave_call : Text → Text → Call
  rooms_call : Text → ℕ → Text → Call
  send_call : SendMessageRequest → Call
  messages_call : Text → ℕ → Text → Call
  mark_call : Text → Text → Text → Call

-- A new room is asked for with different members.
abbrev pub IsFit : Call → Type 0
IsFit (create_call req) = once req.member_ids ≡ true
IsFit (join_call room user) = Unit
IsFit (leave_call room user) = Unit
IsFit (rooms_call user limit cursor) = Unit
IsFit (send_call req) = Unit
IsFit (messages_call room limit cursor) = Unit
IsFit (mark_call room user id) = Unit

module _ (p : Platform) where
  abbrev pub serve : Moment → Call → World p → World p
  serve i (create_call req) w = (create_room p i req w).1
  serve i (join_call room user) w = (join_room p i room user w).1
  serve i (leave_call room user) w = (leave_room p i room user w).1
  serve i (rooms_call user limit cursor) w = (list_user_rooms_reply p i user limit cursor w).1
  serve i (send_call req) w = (send_message p i req w).1
  serve i (messages_call room limit cursor) w = (get_messages p i room limit cursor w).1
  serve i (mark_call room user id) w = (mark_as_read_reply p i room user id w).1

  abbrev pub serve_all : List (Moment × Call) → World p → World p
  serve_all [] w = w
  serve_all ((i, c) ∷ cs) w = serve_all cs (serve i c w)

  abbrev pub AreFit : List (Moment × Call) → Type 0
  AreFit [] = Unit
  AreFit ((i, c) ∷ cs) = IsFit c × AreFit cs

  rooms-store_message :
      (i : Moment) (req : SendMessageRequest)
      (r : Result MessageError Text × MessageEncryption p.keys.State) (w : World p)
      → (store_message p i req r w).1.rooms ≡ w.rooms
  rooms-store_message i req (ok text, e) w = refl
  rooms-store_message i req (err x, e) w = refl

  answer_sent-Once :
      (i : Moment) (req : SendMessageRequest) (r : Result Notice Message) (w : World p)
      → Once p w
      → Once p (answer_sent p i req (r, w)).1
  unfolding update_room_last_message
  answer_sent-Once i req (err n) w a = a
  answer_sent-Once i req (ok m) w a =
      let (text, e) = preview_to_store p i req w.encryption in
      contents-touch_room p req.room_id (all one_each) (one_each-IsUntouched req.room_id) i text
        m.created_at (record w { encryption = e })
      ∙ a

  send_message-Once :
      (i : Moment) (req : SendMessageRequest) (w : World p)
      → Once p w
      → Once p (send_message p i req w).1
  unfolding send_message create_encrypted_message
  send_message-Once i req w a =
      let r =
        store_message p i req
          (encrypt_message p.aes p.keys i.sealing req.content req.room_id w.encryption) w in
      answer_sent-Once i req r.0 r.1 (
        ap (λ (s : p.rooms.State). all one_each (p.rooms.contents s))
          (rooms-store_message i req _ w)
        ∙ a)

  list_user_rooms_reply-Once :
      (i : Moment) (user : Text) (limit : ℕ) (cursor : Text) (w : World p)
      → Once p w
      → Once p (list_user_rooms_reply p i user limit cursor w).1
  unfolding list_user_rooms_reply
  list_user_rooms_reply-Once i user limit cursor w a =
      elim (Option-cases (
        list_user_rooms p.time (p.ordered_rooms w.rooms) user (list_limit p.limits limit) cursor)) [
          | inl e ↦ rw (e, list_user_rooms_reply) a
          | inr (page, e) ↦ rw (e, list_user_rooms_reply) a
        ]

  get_messages-Once :
      (i : Moment) (room : Text) (limit : ℕ) (cursor : Text) (w : World p)
      → Once p w
      → Once p (get_messages p i room limit cursor w).1
  unfolding get_messages
  get_messages-Once i room limit cursor w a =
      elim (Option-cases (
        get_by_room_id p.time p.limits (p.ordered_messages w.messages) room limit cursor none
          none)) [ inl e ↦ rw (e, get_messages) a | inr (page, e) ↦ rw (e, get_messages) a ]

  mark_as_read_reply-Once :
      (i : Moment) (room user id : Text) (w : World p)
      → Once p w
      → Once p (mark_as_read_reply p i room user id w).1
  unfolding mark_as_read_reply
  mark_as_read_reply-Once i room user id w a =
      elim (Bool-cases
        (mark_as_read p.ids p.messages i.changed room user (message_of id) w.messages).1) [
          | inl e ↦ rw (e, mark_as_read_reply) a
          | inr e ↦ rw (e, mark_as_read_reply) a
        ]

  serve-Once : (i : Moment) (c : Call) (w : World p) → IsFit c → Once p w → Once p (serve i c w)
  serve-Once i (create_call req) w f a = create_room-Once p i req w f a
  serve-Once i (join_call room user) w f a = join_room-Once p i room user w a
  serve-Once i (leave_call room user) w f a = leave_room-Once p i room user w a
  serve-Once i (rooms_call user limit cursor) w f a =
      list_user_rooms_reply-Once i user limit cursor w a
  serve-Once i (send_call req) w f a = send_message-Once i req w a
  serve-Once i (messages_call room limit cursor) w f a = get_messages-Once i room limit cursor w a
  serve-Once i (mark_call room user id) w f a = mark_as_read_reply-Once i room user id w a

  -- Where no room of the store lists a user twice, none does after any calls of the service one
  -- after the other, with any requests and on every branch, failures of the database included, if
  -- each new room is asked for with different members.
  pub serve_all-Once :
      (cs : List (Moment × Call)) (w : World p) → AreFit cs → Once p w → Once p (serve_all cs w)
  serve_all-Once [] w f a = a
  serve_all-Once ((i, c) ∷ cs) w f a = serve_all-Once cs (serve i c w) f.1 (serve-Once i c w f.0 a)
