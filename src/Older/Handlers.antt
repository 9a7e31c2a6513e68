-- ===== src/Older/Handlers.antt =====
-- internal/message/message.go: the handlers of `MessageHandler`. A form is `none` where gin refuses it.
use chat_gateway.Prelude.{
  ℕ, Option, none, some, Bool, true, false, List, [], if◌then◌else◌, ok, err,
}
use chat_gateway.Prelude.Text.{Text, bytes, text_eq}
use chat_gateway.Storage.Collection.{Collection}
use chat_gateway.Storage.MessageStore.{ObjectIds}
use chat_gateway.Older.Requests.{
  CreateMessageRequest, RequestError, validate_create_message_request,
}
use chat_gateway.Older.Store.{Message, Document, create, get_by_id, list}

-- The answers: 400, 404, 500, 201 and 200, the last two with their data.
pub data Reply : Type 0 where
  bad_format no_id no_channel_id : Reply
  invalid : RequestError → Reply
  not_found create_failed list_failed : Reply
  created retrieved : Message → Reply
  listed : List Message → Reply

-- The record that `CreateMessage` fills.
abbrev pub record_of : CreateMessageRequest → Message
record_of r = record {
  id = [];
  content = r.content;
  sender_id = r.sender_id;
  channel_id = r.channel_id;
  kind = r.kind;
  status = bytes "sent";
  created_at = 0;
  updated_at = 0;
}

abbrev in_channel : Text → Document → Bool
in_channel channel d = text_eq d.fields.channel_id channel

module _ (ids : ObjectIds) (text_of : ℕ → Option Text) (c : Collection Document) where
  abbrev create_reply : Message × c.State × Bool → Reply × c.State
  create_reply (m, s, true) = (created m, s)
  create_reply (m, s, false) = (create_failed, s)

  unfoldable pub create_message :
      ℕ → ℕ → ℕ → Option CreateMessageRequest → c.State → Reply × c.State
  create_message now later new none s = (bad_format, s)
  create_message now later new (some r) s = elim (validate_create_message_request r) [
    | err e ↦ (invalid e, s)
    | ok checked ↦ create_reply (create ids text_of c now later new (record_of r) s)
  ]

  unfoldable pub get_message : Text → c.State → Reply
  get_message id s =
      if text_eq id []
      then no_id
      else elim (get_by_id ids text_of c id s) [ none ↦ not_found | some m ↦ retrieved m ]

  unfoldable pub list_messages : ℕ → Text → c.State → Reply
  list_messages yielded channel s =
      if text_eq channel []
      then no_channel_id
      else elim (list ids text_of c yielded (in_channel channel) 20 0 s) [
        | none ↦ list_failed
        | some ms ↦ listed ms
      ]
