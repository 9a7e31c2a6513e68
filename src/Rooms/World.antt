-- ===== src/Rooms/World.antt =====
-- internal/grpc/server.go: the state of `Server` and the messages of its protocol. The collections,
-- the order of their reads, the block cipher, object ids and times are parameters; `err.Error()` in a
-- reply is left out, so its text is a `Notice`.
use chat_gateway.Prelude.{[], none, ℕ, ◌/◌, Option, Bool, List, map}
use chat_gateway.Prelude.Text.{Text}
use chat_gateway.Security.Cipher.{BlockCipher}
use chat_gateway.Security.KeyStore.{KeyDocument}
use chat_gateway.Security.MessageEncryption.{MessageEncryption, Inputs}
use chat_gateway.Security.Audit.{AuditService}
use chat_gateway.Storage.Collection.{Collection, In}
use chat_gateway.Storage.Paging.{Rfc3339, second}
use chat_gateway.Storage.Messages.{Message, MessageView, Limits}
use chat_gateway.Storage.MessageStore.{ObjectIds, NewIds}
use chat_gateway.Storage.ChatRoomStore.{ChatRoom, RoomMember, RoomSettings, RoomView}

pub record Platform : Type 1 where
  pub aes : BlockCipher
  pub ids : ObjectIds
  pub time : Rfc3339
  pub limits : Option Limits
  -- `Limits.SSE.InitialMessageFetch`
  pub initial_fetch : ℕ
  pub keys : Collection KeyDocument
  pub rooms : Collection ChatRoom
  pub messages : Collection Message
  -- What the server of the database reads in order.
  pub ordered_rooms : rooms.State → RoomView
  pub ordered_messages : messages.State → MessageView
  pub ordered_contents :
      (s : messages.State) (m : Message)
      → In m (ordered_messages s).documents
      → In m (messages.contents s)

pub record World (p : Platform) : Type 0 where
  pub rooms : p.rooms.State
  pub messages : p.messages.State
  pub encryption : MessageEncryption p.keys.State
  pub audit : AuditService

-- What the clock and the random source give to one call: the id and the time of `NewMessage`, the ids
-- and the time of `Create`, the times of `AddMember` or `RemoveMember`, of `Update` and of the audit
-- log, and what the two encryptions and the decryptions get.
pub record Moment : Type 0 where
  pub first : ℕ
  pub made : ℕ
  pub new : NewIds
  pub now : ℕ
  pub changed : ℕ
  pub updated : ℕ
  pub logged : ℕ
  pub sealing : Inputs
  pub previewing : Inputs
  pub showing : ℕ → Inputs

pub data Notice : Type 0 where
  room_exists room_created create_failed : Notice
  check_failed already_member join_failed joined : Notice
  leave_failed left : Notice
  info_found : Notice
  rooms_failed rooms_listed : Notice
  encryption_failed send_failed sent : Notice
  messages_failed messages_listed : Notice
  mark_failed marked : Notice
  count_failed counted : Notice

pub record Reply (A : Type 0) : Type 0 where
  pub success : Bool
  pub message : Notice
  pub body : A

-- Times of the protocol are Unix times, in seconds.
pub record GrpcMember : Type 0 where
  pub user_id : Text
  pub username : Text
  pub role : Text
  pub joined_at : ℕ
  pub last_seen : ℕ

-- A field that a reply leaves out is empty or 0.
pub record GrpcRoom : Type 0 where
  pub id : Text
  pub name : Text
  pub kind : Text
  pub owner_id : Text
  pub members : List GrpcMember
  pub settings : Option RoomSettings
  pub created_at : ℕ
  pub updated_at : ℕ
  pub last_message : Text
  pub last_message_time : ℕ

pub record ChatMessage : Type 0 where
  pub id : Text
  pub room_id : Text
  pub sender_id : Text
  pub content : Text
  pub kind : Text
  pub created_at : ℕ
  pub updated_at : ℕ
  pub read_by : List Text

abbrev convert_member : RoomMember → GrpcMember
convert_member m = record {
  user_id = m.user_id;
  username = m.username;
  role = m.role;
  joined_at = m.joined_at / second;
  last_seen = m.last_seen / second;
}

unfoldable pub convert_members_to_grpc : List RoomMember → List GrpcMember
convert_members_to_grpc = map convert_member

unfoldable pub convert_room_to_grpc : ChatRoom → GrpcRoom
convert_room_to_grpc r = record {
  id = r.id;
  name = r.name;
  kind = r.kind;
  owner_id = r.owner_id;
  members = convert_members_to_grpc r.members;
  settings = none;
  created_at = r.created_at / second;
  updated_at = r.updated_at / second;
  last_message = [];
  last_message_time = 0;
}

abbrev pub plain : Bool → Notice → Reply (Unit {0})
plain success message = record { success = success; message = message; body = tt }
