-- ===== src/Older/Examples.antt =====
-- The theorem on the older handlers at a message of three fields in an empty collection.
use chat_gateway.Prelude.{none, ℕ, ◌≡◌, refl, Option, some, [], ◌∷◌}
use chat_gateway.Prelude.Text.{Text, bytes, text_eq}
use chat_gateway.Prelude.Utf8.{runes}
use chat_gateway.Storage.Collection.{Collection, in_memory}
use chat_gateway.Storage.Fixtures.{ids}
use chat_gateway.Older.Requests.{
  CreateMessageRequest, validate_create_message_request, is_valid_message_type,
}
use chat_gateway.Older.Store.{generated, Message, Document, create}
use chat_gateway.Older.Handlers.{not_found, record_of, create_message, get_message}
use chat_gateway.Older.Created.{made, get_message-create_message}

abbrev store : Collection Document
store = in_memory Document

abbrev text_of : ℕ → Option Text
text_of n = none

abbrev request : CreateMessageRequest
request = record {
  content = bytes "hi";
  sender_id = bytes "bob";
  channel_id = bytes "c";
  kind = bytes "text";
}

abbrev message : Message
message = made ids text_of store 5000001 5000002 request

get_message-create_message_example :
    (message ≡ made ids text_of store 5000001 5000002 request)
    × ((create_message ids text_of store 5000001 5000002 7 (some request) []).1
        ≡ record {
          object_id = generated 7;
          fields = record (record_of request) { created_at = 5000000; updated_at = 5000000 };
        }
          ∷ [])
    × (get_message ids text_of store
          (ids.hex 7)
          (create_message ids text_of store 5000001 5000002 7 (some request) []).1
        ≡ not_found)
unfolding create_message create validate_create_message_request is_valid_message_type text_eq runes
get_message-create_message_example =
    get_message-create_message ids text_of store 5000001 5000002 7 request [] message refl refl refl
