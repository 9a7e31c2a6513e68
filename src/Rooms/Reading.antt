-- ===== src/Rooms/Reading.antt =====
-- grpc/server.go, `MarkAsRead` and `GetUnreadCount`.
pub mod Unread
mod Examples
use chat_gateway.Prelude.{
  ℕ, suc, ◌+◌, ◌/◌, Option, none, some, Bool, true, false, not, ◌&&◌, ◌||◌, List, [], ◌∷◌, ◌++◌,
  map, length, take, ltb, if◌then◌else◌, Result, ok, err,
}
use chat_gateway.Prelude.Text.{Text, text_eq, bytes}
use chat_gateway.Prelude.Utf8.{valid, runes, encode_runes}
use chat_gateway.Security.Audit.{log_message_sent, log_message_read}
use chat_gateway.Security.MessageEncryption.{
  MessageEncryption, MessageError, Inputs, encrypt_message, decrypt_message,
}
use chat_gateway.Storage.Paging.{Page, second}
use chat_gateway.Storage.Messages.{Message, get_by_room_id}
use chat_gateway.Storage.MessageStore.{new_message, read_by, mark_as_read}
use chat_gateway.Rooms.{clean_read_by}
use chat_gateway.Rooms.World.{Platform, World, Moment, Notice, Reply, ChatMessage, plain}
use chat_gateway.Rooms.Membership.{touch_room}

-- Messages that the user neither sent nor read.
unfoldable pub count_unread : Text → List Message → ℕ
count_unread user [] = 0
count_unread user (m ∷ ms) =
    let rest = count_unread user ms in
    if not (read_by user m) && not (text_eq m.sender_id user) then rest + 1 else rest

-- An empty id stands for the whole room.
abbrev pub message_of : Text → Option Text
message_of id = if not (text_eq id []) then some id else none

module _ (p : Platform) where
  unfoldable pub mark_as_read_reply :
      Moment → Text → Text → Text → World p → Reply (Unit {0}) × World p
  mark_as_read_reply i room user id w =
      let (messages, done) =
        mark_as_read p.ids p.messages i.changed room user (message_of id) w.messages in
      let w' : World p = record w { messages = messages } in
      if not done then (plain false Notice.mark_failed, w') else (
        plain true Notice.marked,
        record w' { audit = log_message_read i.logged user room id w'.audit },
      )

  unfoldable pub get_unread_count_reply : Text → Text → World p → Reply ℕ
  unfolding count_unread
  get_unread_count_reply room user w =
      elim (get_by_room_id p.time p.limits (p.ordered_messages w.messages) room 1000 [] none none) [
        | none ↦ record { success = false; message = Notice.count_failed; body = 0 }
        | some page ↦ record {
          success = true;
          message = Notice.counted;
          body = count_unread user page.messages;
        }
      ]
