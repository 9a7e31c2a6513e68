-- ===== src/Older/Requests.antt =====
-- internal/message/message_record.go and validator.go: the requests and their checks.
use chat_gateway.Prelude.{Bool, not, ◌&&◌, List, [], ◌∷◌, any, if◌then◌else◌, Result, ok, err}
use chat_gateway.Prelude.Text.{Text, bytes, text_eq}
use chat_gateway.Middleware.Validation.{is_blank}

pub record CreateMessageRequest : Type 0 where
  pub content : Text
  pub sender_id : Text
  pub channel_id : Text
  pub kind : Text

pub record UpdateMessageRequest : Type 0 where
  pub content : Text
  pub status : Text

pub data RequestError : Type 0 where
  no_content no_sender no_channel bad_type bad_status : RequestError

abbrev one_of : List Text → Text → Bool
one_of texts text = any (text_eq text) texts

unfoldable pub is_valid_message_type : Text → Bool
is_valid_message_type =
    one_of (bytes "text" ∷ bytes "image" ∷ bytes "file" ∷ bytes "audio" ∷ bytes "video" ∷ [])

unfoldable pub is_valid_message_status : Text → Bool
is_valid_message_status =
    one_of (bytes "sent" ∷ bytes "delivered" ∷ bytes "read" ∷ bytes "failed" ∷ [])

unfoldable pub validate_create_message_request :
    CreateMessageRequest → Result RequestError (Unit {0})
unfolding is_valid_message_type
validate_create_message_request r =
    if is_blank r.content
    then err no_content
    else if is_blank r.sender_id
    then err no_sender
    else if is_blank r.channel_id
    then err no_channel
    else if not (is_valid_message_type r.kind)
    then err bad_type
    else ok tt

unfoldable pub validate_update_message_request :
    UpdateMessageRequest → Result RequestError (Unit {0})
unfolding is_valid_message_status
validate_update_message_request r =
    if not (text_eq r.content []) && is_blank r.content
    then err no_content
    else if not (text_eq r.status []) && not (is_valid_message_status r.status)
    then err bad_status
    else ok tt
