-- ===== src/Rooms/Messaging.antt =====
-- grpc/server.go: the calls that send and show messages.
pub mod Preview
pub mod Sending
pub mod Showing
mod Examples
use chat_gateway.Prelude.{
  ℕ, suc, ◌+◌, ◌/◌, Option, none, some, Bool, true, false, not, ◌&&◌, ◌||◌, List, [], ◌∷◌, ◌++◌,
  map, length, take, ltb, if◌then◌else◌, Result, ok, err,
}
use chat_gateway.Prelude.Text.{Text, text_eq, bytes}
use chat_gateway.Prelude.Utf8.{valid, runes, encode_runes}
use chat_gateway.Security.Audit.{log_message_sent, log_message_read}
use chat_gateway.Security.MessageEncryption.{
  MessageEncryption, MessageError, Inputs, encrypt_message, decrypt_message,
}
use chat_gateway.Storage.Paging.{Page, second}
use chat_gateway.Storage.Messages.{Message, get_by_room_id}
use chat_gateway.Storage.MessageStore.{new_message, read_by, mark_as_read}
use chat_gateway.Storage.MessageStore
use chat_gateway.Rooms.{clean_read_by}
use chat_gateway.Rooms.World.{Platform, World, Moment, Notice, Reply, ChatMessage, plain}
use chat_gateway.Rooms.Membership.{touch_room}

pub record SendMessageRequest : Type 0 where
  pub room_id : Text
  pub sender_id : Text
  pub content : Text
  pub kind : Text

abbrev readers : Message → List Text
readers m = map (λ r. r.user_id) m.read_by

-- A message of the protocol.
abbrev pub chat_message : Message → Text → List Text → ChatMessage
chat_message m content users = record {
  id = m.id;
  room_id = m.room_id;
  sender_id = m.sender_id;
  content = content;
  kind = m.kind;
  created_at = m.created_at / second;
  updated_at = m.updated_at / second;
  read_by = users;
}

abbrev pub cut_preview : Text → Text
cut_preview content =
    if ltb 30 (length (runes content))
    then encode_runes (take 30 (runes content)) ++ bytes "..."
    else content

unfoldable pub generate_last_message_preview : Text → Text → Text
generate_last_message_preview kind content =
    if text_eq kind (bytes "text")
    then if ltb 30 (length content) then cut_preview content else content
    else if text_eq kind (bytes "image")
    then bytes "[圖片]"
    else if text_eq kind (bytes "file")
    then bytes "[文件]"
    else if text_eq kind (bytes "audio")
    then bytes "[語音]"
    else if text_eq kind (bytes "video")
    then bytes "[影片]"
    else if text_eq kind (bytes "location")
    then bytes "[位置]"
    else bytes "[訊息]"

abbrev pub is_system : Text → Bool
is_system kind = text_eq kind (bytes "system")

abbrev pub shown_content : Result MessageError Text → Text
shown_content (err e) = bytes "[解密失敗]"
shown_content (ok text) = text

abbrev pub checked : Text → Text
checked text = if not (valid text) then bytes "[訊息格式錯誤]" else text

module _ (p : Platform) where
  abbrev pub store_message :
      Moment
      → SendMessageRequest
      → Result MessageError Text × MessageEncryption p.keys.State
      → World p
      → Result Notice Message × World p
  store_message i req (err e, s) w = (err Notice.encryption_failed, record w { encryption = s })
  store_message i req (ok content, s) w =
      let message : Message = record (new_message p.ids i.first i.made) {
        room_id = req.room_id;
        sender_id = req.sender_id;
        content = content;
        kind = req.kind;
      } in
      let (message', messages, done) =
        MessageStore.create p.ids p.messages i.now i.new message w.messages in
      (
        if done then ok message' else err Notice.send_failed,
        record w { encryption = s; messages = messages },
      )

  unfoldable pub create_encrypted_message :
      Moment → SendMessageRequest → World p → Result Notice Message × World p
  create_encrypted_message i req w =
      store_message i req
        (encrypt_message p.aes p.keys i.sealing req.content req.room_id w.encryption) w

  -- A preview that cannot be encrypted is stored as it is.
  abbrev pub sealed_preview :
      Text
      → Result MessageError Text × MessageEncryption p.keys.State
      → Text × MessageEncryption p.keys.State
  sealed_preview preview (err e, s) = (preview, s)
  sealed_preview preview (ok text, s) = (text, s)

  unfoldable pub preview_to_store :
      Moment
      → SendMessageRequest
      → MessageEncryption p.keys.State
      → Text × MessageEncryption p.keys.State
  unfolding generate_last_message_preview
  preview_to_store i req e =
      let preview = generate_last_message_preview req.kind req.content in
      if not (is_system req.kind)
      then sealed_preview preview (encrypt_message p.aes p.keys i.previewing preview req.room_id e)
      else (preview, e)

  unfoldable pub update_room_last_message :
      Moment → SendMessageRequest → Message → World p → World p
  unfolding preview_to_store
  update_room_last_message i req m w =
      let (text, e) = preview_to_store i req w.encryption in
      touch_room p i req.room_id text m.created_at (record w { encryption = e })

  abbrev pub with_content :
      Result MessageError Text × MessageEncryption p.keys.State
      → Text × MessageEncryption p.keys.State
  with_content (result, e) = (shown_content result, e)

  -- The content of a message under the key of a room; that of a system message is plain.
  unfoldable pub decrypted_content :
      Inputs
      → Text
      → Message
      → MessageEncryption p.keys.State
      → Text × MessageEncryption p.keys.State
  decrypted_content i room m e =
      if not (is_system m.kind)
      then with_content (decrypt_message p.aes p.keys i m.content room e)
      else (m.content, e)

  unfoldable pub build_message_response :
      Inputs
      → Message
      → MessageEncryption p.keys.State
      → ChatMessage × MessageEncryption p.keys.State
  unfolding decrypted_content
  build_message_response i m e =
      let (content, e') = decrypted_content i m.room_id m e in
      (chat_message m content (clean_read_by (readers m) m.sender_id), e')

  abbrev pub answer_sent :
      Moment
      → SendMessageRequest
      → Result Notice Message × World p
      → Reply (Option ChatMessage) × World p
  answer_sent i req (err e, w) = (record { success = false; message = e; body = none }, w)
  answer_sent i req (ok m, w) =
      let w' : World p = update_room_last_message i req m w in
      let audit = log_message_sent i.logged req.sender_id req.room_id m.id req.kind w'.audit in
      let (shown, e) = build_message_response (i.showing 0) m w'.encryption in
      (
        record { success = true; message = Notice.sent; body = some shown },
        record w' { audit = audit; encryption = e },
      )

  unfoldable pub send_message :
      Moment → SendMessageRequest → World p → Reply (Option ChatMessage) × World p
  send_message i req w = answer_sent i req (create_encrypted_message i req w)

  -- The loop of `GetMessages`.
  unfoldable pub show_messages :
      (ℕ → Inputs)
      → List Message
      → MessageEncryption p.keys.State
      → List ChatMessage × MessageEncryption p.keys.State
  unfolding decrypted_content
  show_messages inputs [] e = ([], e)
  show_messages inputs (m ∷ ms) e =
      let (content, e') = decrypted_content (inputs 0) m.room_id m e in
      let (rest, e'') = show_messages (λ n. inputs (suc n)) ms e' in
      (chat_message m (checked content) (clean_read_by (readers m) m.sender_id) ∷ rest, e'')

  unfoldable pub get_messages :
      Moment → Text → ℕ → Text → World p → Reply (Page ChatMessage) × World p
  unfolding show_messages
  get_messages i room limit cursor w =
      elim (get_by_room_id p.time p.limits (p.ordered_messages w.messages) room limit cursor none
        none) [
          | none ↦ (
            record {
              success = false;
              message = Notice.messages_failed;
              body = record { messages = []; next_cursor = []; has_more = false };
            },
            w,
          )
          | some page ↦
              let (shown, e) = show_messages i.showing page.messages w.encryption in
              (
                record {
                  success = true;
                  message = Notice.messages_listed;
                  body = record {
                    messages = shown;
                    next_cursor = page.next_cursor;
                    has_more = page.has_more;
                  };
                },
                record w { encryption = e },
              )
        ]
