-- ===== src/Rooms/Fixtures.antt =====
-- Concrete values for the examples: a server with its collections in memory.
use chat_gateway.Prelude.{none, true, [], ◌∷◌}
use chat_gateway.Prelude.Text.{Text, bytes}
use chat_gateway.Security.Audit.{new_audit_service}
use chat_gateway.Security.MessageEncryption.RoundTrip.{enabled_with}
use chat_gateway.Security.Fixtures.{cipher, store, keyed, inputs}
use chat_gateway.Storage.Collection.{in_memory}
use chat_gateway.Storage.Messages.{Message, created}
use chat_gateway.Storage.ChatRoomStore.{ChatRoom, activity}
use chat_gateway.Storage.Fixtures.{ids, time, ordered, In-sort_up, message, room, new}
use chat_gateway.Rooms.World.{Platform, World, Moment}

abbrev pub platform : Platform
platform = record {
  aes = cipher;
  ids = ids;
  time = time;
  limits = none;
  initial_fetch = 0;
  keys = store;
  rooms = in_memory ChatRoom;
  messages = in_memory Message;
  ordered_rooms = ordered activity;
  ordered_messages = ordered created;
  ordered_contents = λ s m. In-sort_up created m s;
}

abbrev pub r1 : Text
r1 = bytes "r1"

abbrev pub team : ChatRoom
team = record (room 1) { id = r1 }

abbrev pub world : World platform
world = record {
  rooms = team ∷ [];
  messages = message 1 ∷ [];
  encryption = enabled_with cipher store keyed;
  audit = new_audit_service true;
}

abbrev pub moment : Moment
moment = record {
  first = 30;
  made = 5;
  new = new;
  now = 6;
  changed = 7;
  updated = 8;
  logged = 9;
  sealing = inputs;
  previewing = inputs;
  showing = λ n. inputs;
}
