-- ===== src/Rooms/Messaging/Sending.antt =====
-- grpc/server.go, `SendMessage` and `GetMessages`: a message is stored encrypted and shown as it was
-- sent.
use chat_gateway.Prelude.{
  ◌/◌, ◌<◌, ◌≡◌, ◌≢◌, refl, ap, ◌∙◌, some, true, false, [], ◌∷◌, ◌++◌, length, All, ok, err, Result,
}
use chat_gateway.Prelude.Text.{Text, bytes}
use chat_gateway.Security.Cipher.{
  block_size, xor_key_stream, xor_key_stream-bytes, xor_key_stream-twice,
}
use chat_gateway.Security.AesCtr.RoundTrip.{cipher_text}
use chat_gateway.Security.KeyManager.{KeyManager}
use chat_gateway.Security.MessageEncryption.{MessageEncryption, MessageError, Inputs}
use chat_gateway.Security.MessageEncryption.RoundTrip.{
  enabled_with, HasKey, encrypt_message_text, decrypt_message_text,
}
use chat_gateway.Security.MessageEncryption.Keyed.{encrypt_message_state, decrypt_message_state}
use chat_gateway.Storage.Paging.{second}
use chat_gateway.Storage.Messages.{Message}
use chat_gateway.Storage.MessageStore
use chat_gateway.Storage.MessageStore.{new_message}
use chat_gateway.Rooms.{clean_read_by}
use chat_gateway.Rooms.World.{Platform, World, Moment, Notice, ChatMessage}
use chat_gateway.Rooms.Messaging.{
  sealed_preview, with_content, SendMessageRequest, is_system, preview_to_store,
  create_encrypted_message, update_room_last_message, decrypted_content, build_message_response,
  send_message,
}

-- What a sent message is in the store, with the encrypted content.
abbrev pub stored_message : (p : Platform) → Moment → SendMessageRequest → Text → Message
stored_message p i req content = record {
  object_id = i.new.stored;
  id = p.ids.hex i.new.own;
  room_id = req.room_id;
  sender_id = req.sender_id;
  content = content;
  kind = req.kind;
  status = bytes "sent";
  created_at = i.now;
  updated_at = i.now;
  read_by = [];
  delivered_to = [];
}

-- What a client is shown of it.
abbrev pub sent_message : (p : Platform) → Moment → SendMessageRequest → ChatMessage
sent_message p i req = record {
  id = p.ids.hex i.new.own;
  room_id = req.room_id;
  sender_id = req.sender_id;
  content = req.content;
  kind = req.kind;
  created_at = i.now / second;
  updated_at = i.now / second;
  read_by = [];
}

-- A request and a server at which the room's key is in the cache: the content is not empty, the type
-- is not `system`, and the random source gives an IV.
pub record Sendable (p : Platform) (i : Moment) (req : SendMessageRequest) (secret iv : Text)
    (km : KeyManager p.keys.State) : Type 0 where
  pub key : HasKey p.aes p.keys req.room_id secret km
  pub given : i.sealing.iv ≡ some iv
  pub iv_size : length iv ≡ block_size
  pub iv_bytes : All (λ b. b < 256) iv
  pub content_bytes : All (λ b. b < 256) req.content
  pub not_empty : req.content ≢ []
  pub not_system : is_system req.kind ≡ false

sealed_preview_state :
    (p : Platform) (preview : Text) (r : Result MessageError Text × MessageEncryption p.keys.State)
    → (sealed_preview p preview r).1 ≡ r.1
sealed_preview_state p preview (ok t, s) = refl
sealed_preview_state p preview (err e, s) = refl

with_content_ok :
    (p : Platform) (text : Text) (e : MessageEncryption p.keys.State)
    (r : Result MessageError Text × MessageEncryption p.keys.State)
    → r.0 ≡ ok text
    → r.1 ≡ e
    → with_content p r ≡ (text, e)
with_content_ok p text e (a, b) h k = rw (h, k) refl

module _ (p : Platform) (i : Moment) (req : SendMessageRequest) (secret iv : Text)
    (km : KeyManager p.keys.State) (h : Sendable p i req secret iv km) where
  abbrev pub sealed_content : Text
  sealed_content = cipher_text iv (xor_key_stream p.aes secret iv req.content)

  abbrev pub keyed : World p → World p
  keyed w = record w { encryption = enabled_with p.aes p.keys km }

  preview_state :
      (preview_to_store p i req (enabled_with p.aes p.keys km)).1 ≡ enabled_with p.aes p.keys km
  unfolding preview_to_store
  preview_state = rw h.not_system (
      sealed_preview_state p _ _
      ∙ encrypt_message_state p.aes p.keys i.previewing _ req.room_id secret km h.key)

  sealed_bytes : All (λ b. b < 256) (xor_key_stream p.aes secret iv req.content)
  sealed_bytes = xor_key_stream-bytes p.aes secret iv req.content h.content_bytes

  pub decrypted_sealed :
      (j : Inputs) (m : Message)
      → m.content ≡ sealed_content
      → m.kind ≡ req.kind
      → decrypted_content p j req.room_id m (enabled_with p.aes p.keys km)
        ≡ (req.content, enabled_with p.aes p.keys km)
  unfolding decrypted_content
  decrypted_sealed j m e k =
      rw (k, h.not_system, e)
        (with_content_ok p req.content _ _
          (decrypt_message_text p.aes p.keys j req.room_id secret iv
              (xor_key_stream p.aes secret iv req.content) km h.key h.iv_size h.iv_bytes
              sealed_bytes
            ∙ ap ok (xor_key_stream-twice p.aes secret iv req.content))
          (decrypt_message_state p.aes p.keys j sealed_content req.room_id secret km h.key))

  created_lem :
      (w : World p)
      → (p.messages.insert_one (stored_message p i req sealed_content) w.messages).1 ≡ true
      → create_encrypted_message p i req (keyed w) ≡ (
        ok (stored_message p i req sealed_content),
        record (keyed w) {
          messages = (p.messages.insert_one (stored_message p i req sealed_content) w.messages).0;
        },
      )
  unfolding create_encrypted_message MessageStore.create new_message
  created_lem w taken =
      rw
        (encrypt_message_text p.aes p.keys i.sealing req.content req.room_id secret iv km h.key
          h.given h.not_empty)
        (rw taken refl)

  update_room_last_message_state :
      (m : Message) (w : World p)
      → (update_room_last_message p i req m (keyed w)).encryption ≡ enabled_with p.aes p.keys km
  unfolding update_room_last_message
  update_room_last_message_state m w = preview_state

  messages-update_room_last_message :
      (m : Message) (w : World p) → (update_room_last_message p i req m w).messages ≡ w.messages
  unfolding update_room_last_message
  messages-update_room_last_message m w = refl

  response_lem :
      build_message_response p
        (i.showing 0)
        (stored_message p i req sealed_content)
        (enabled_with p.aes p.keys km)
      ≡ (sent_message p i req, enabled_with p.aes p.keys km)
  unfolding build_message_response clean_read_by
  response_lem =
      rw (decrypted_sealed (i.showing 0) (stored_message p i req sealed_content) refl refl) refl

  -- Where the room's key is in the cache, the random source gives an IV, the content is not empty
  -- and the type is not `system`, sending a message that the database takes succeeds, answers with
  -- the content as it was sent, and leaves in the store one new message, whose content is
  -- encrypted under the room's key.
  pub send_message_lem :
      (w : World p)
      → (p.messages.insert_one (stored_message p i req sealed_content) w.messages).1 ≡ true
      → ((send_message p i req (keyed w)).0
          ≡ record { success = true; message = Notice.sent; body = some (sent_message p i req) })
        × (p.messages.contents (send_message p i req (keyed w)).1.messages
            ≡ p.messages.contents w.messages ++ stored_message p i req sealed_content ∷ [])
        × ((send_message p i req (keyed w)).1.encryption ≡ enabled_with p.aes p.keys km)
  unfolding send_message
  send_message_lem w taken =
      let m = stored_message p i req sealed_content in
      let w' = record w { messages = (p.messages.insert_one m w.messages).0 } in
      rw (created_lem w taken) (
        rw (update_room_last_message_state m w') (
          rw (response_lem, messages-update_room_last_message m (keyed w'))
            (refl, p.messages.inserted m w.messages taken, refl)))
