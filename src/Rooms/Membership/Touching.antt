-- ===== src/Rooms/Membership/Touching.antt =====
-- grpc/server.go, `createSystemMessageAndUpdateRoom` and `updateRoomLastMessage`: what the update of a
-- room's last message leaves as it is.
use chat_gateway.Prelude.{
  ℕ, ◌≡◌, refl, ap, ◌∙◌, inl, inr, Option, none, some, Bool, List, Bool-cases,
}
use chat_gateway.Prelude.Text.{Text, bytes}
use chat_gateway.Storage.Collection.{update_first, Counts}
use chat_gateway.Storage.Messages.{Message}
use chat_gateway.Storage.MessageStore.{new_message}
use chat_gateway.Storage.MessageStore
use chat_gateway.Storage.ChatRoomStore.{done, ChatRoom, has_id}
use chat_gateway.Storage.ChatRoomStore
use chat_gateway.Rooms.World.{Platform, World, Moment}
use chat_gateway.Rooms.Membership.{
  last_message_fields, create_system_message_and_update_room, touch_room,
}

-- The new last message of a room.
abbrev pub touched : Text → ℕ → ℕ → ChatRoom → ChatRoom
touched content time updated r = record (last_message_fields content time r) {
  updated_at = updated;
}

-- What a new last message in the room leaves as it is.
abbrev pub IsUntouched : Text → (List ChatRoom → Bool) → Type 0
IsUntouched room F =
    (content : Text) (time updated : ℕ) (rs : List ChatRoom)
    → F (update_first (has_id room) (touched content time updated) rs) ≡ F rs

module _ (p : Platform) where
  pub done_state : (r : p.rooms.State × Option Counts) → (done r).0 ≡ r.0
  done_state (s, none) = refl
  done_state (s, some n) = refl

module _ (p : Platform) (room : Text) (F : List ChatRoom → Bool) (same : IsUntouched room F) where
  pub contents-touch_room :
      (i : Moment) (content : Text) (time : ℕ) (w : World p)
      → F (p.rooms.contents (touch_room p i room content time w).rooms)
        ≡ F (p.rooms.contents w.rooms)
  unfolding ChatRoomStore.update
  contents-touch_room i content time w =
      rw (done_state p (p.rooms.update_one (has_id room) (touched content time i.updated) w.rooms))
        (elim (p.rooms.updated_or_not (has_id room) (touched content time i.updated) w.rooms) [
          | inl e ↦ ap F e
          | inr e ↦ ap F e ∙ same content time i.updated (p.rooms.contents w.rooms)
        ])

  pub contents-system_message :
      (i : Moment) (content : Text) (w : World p)
      → F (p.rooms.contents (create_system_message_and_update_room p i room content w).rooms)
        ≡ F (p.rooms.contents w.rooms)
  unfolding create_system_message_and_update_room MessageStore.create
  contents-system_message i content w =
      let message : Message = record (new_message p.ids i.first i.made) {
        room_id = room;
        sender_id = bytes "system";
        content = content;
        kind = bytes "system";
      } in
      let (message', messages, stored) =
        MessageStore.create p.ids p.messages i.now i.new message w.messages in
      let w' : World p = record w { messages = messages } in
      elim (Bool-cases stored) [
        | inl e ↦
            rw (e, create_system_message_and_update_room)
              (contents-touch_room i message'.content message'.created_at w')
        | inr e ↦ rw (e, create_system_message_and_update_room) refl
      ]
