-- ===== src/Http/Sending.antt =====
-- platform/server/http.go, `sendMessage`, over the room service: a message on its way from the form to
-- the store and the answer.
mod Examples
use chat_gateway.Prelude.{
  ℕ, ◌≡◌, refl, ◌∙◌, ap, Option, none, some, Bool, true, false, List, [], ◌∷◌, ◌++◌, Result, ok,
  err,
}
use chat_gateway.Prelude.Text.{Text, text_eq}
use chat_gateway.Security.AesCtr
use chat_gateway.Security.KeyManager.{KeyManager}
use chat_gateway.Security.MessageEncryption.{encrypt_message, MessageEncryption, MessageError}
use chat_gateway.Security.MessageEncryption.RoundTrip.{enabled_with, HasKey, encrypt_with_key}
use chat_gateway.Storage.Messages.{Message}
use chat_gateway.Middleware.Validation.{
  validate_room_id, validate_user_id, validate_message_content, sanitize_input,
}
use chat_gateway.Rooms.World.{Platform, World, Moment, Notice}
use chat_gateway.Rooms.Messaging.{
  SendMessageRequest, store_message, answer_sent, create_encrypted_message, send_message,
}
use chat_gateway.Rooms.Messaging.Sending.{
  Sendable, stored_message, sent_message, sealed_content, keyed, send_message_lem,
}
use chat_gateway.Http.Errors.{Outcome, answer, told, message_data}
use chat_gateway.Http.Setup.{Config, Fate, through, Gateway, Turn, field_of, get_connection, call}
use chat_gateway.Http.Calling.{invoke, over, after_checks, bound, checked_by}
use chat_gateway.Http.MessageHandlers.{
  MessageForm, message_request, summary, sent_answer, post_message,
}

-- The request to the service that a form makes.
abbrev pub request_of : MessageForm → SendMessageRequest
request_of form = record {
  room_id = form.room_id;
  sender_id = form.sender_id;
  content = sanitize_input form.content;
  kind = form.kind;
}

-- The form passes the checks of `sendMessage`.
pub record IsValid (cfg : Option Config) (form : MessageForm) : Type 0 where
  pub room : validate_room_id form.room_id ≡ ok tt
  pub sender : validate_user_id form.sender_id ≡ ok tt
  pub content :
      validate_message_content (field_of cfg (λ c. c.max_message_length)) form.content ≡ ok tt

-- There is a connection, or one is made, and the call gets through.
pub record IsServed (p : Platform) (cfg : Option Config) (t : Turn) (g : Gateway p) : Type 0 where
  pub connected : get_connection cfg t.dialled g.connected ≡ (true, ok tt)
  pub delivered : t.fate ≡ through

message_request_lem :
    (cfg : Option Config) (id : Text) (form : MessageForm)
    → IsValid cfg form
    → message_request cfg id (ok form) ≡ ok (request_of form)
unfolding message_request
message_request_lem cfg id form v = rw (v.room, v.sender, v.content) refl

post_message_served :
    (p : Platform) (wide : ℕ → ℕ) (cfg : Option Config) (id : Text) (t : Turn) (form : MessageForm)
    (g : Gateway p)
    → IsValid cfg form
    → IsServed p cfg t g
    → post_message p wide cfg id t (ok form) g ≡ (
      sent_answer (send_message p t.moment (request_of form) g.world).0,
      record g { world = (send_message p t.moment (request_of form) g.world).1; connected = true },
    )
unfolding post_message invoke
post_message_served p wide cfg id t form g v s =
    rw (message_request_lem cfg id form v) (rw (s.connected) (rw (s.delivered) refl))

-- The gateway with the room's key in the cache of the service.
abbrev pub with_key : (p : Platform) → KeyManager p.keys.State → Gateway p → Gateway p
with_key p km g = record g { world = record g.world { encryption = enabled_with p.aes p.keys km } }

module _ (p : Platform) (wide : ℕ → ℕ) (cfg : Option Config) (id : Text) (t : Turn)
    (form : MessageForm) (secret iv : Text) (km : KeyManager p.keys.State) (g : Gateway p)
    (v : IsValid cfg form) (s : IsServed p cfg t g) where
  -- A form that passes the checks, over a connection, where the room's key is in the cache, the
  -- random source gives an IV, the content is not empty once it is cleaned, the type is not `system`
  -- and the database takes the message: the answer is 200 with the cleaned content, and the store
  -- has one message more, whose content is the cleaned one encrypted under the room's key.
  pub post_message_lem :
      (h : Sendable p t.moment (request_of form) secret iv km)
      → (p.messages.insert_one
          (stored_message p t.moment
            (request_of form)
            (sealed_content p t.moment (request_of form) secret iv km h))
          g.world.messages).1
        ≡ true
      → ((post_message p wide cfg id t (ok form) (with_key p km g)).0
          ≡ answer 200
              (message_data true Notice.sent (summary (sent_message p t.moment (request_of form)))))
        × (p.messages.contents
              (post_message p wide cfg id t (ok form) (with_key p km g)).1.world.messages
            ≡ p.messages.contents g.world.messages
              ++ stored_message p t.moment
                  (request_of form)
                  (sealed_content p t.moment (request_of form) secret iv km h)
                ∷ [])
  unfolding sent_answer
  post_message_lem h taken =
      let sent = send_message_lem p t.moment (request_of form) secret iv km h g.world taken in
      rw
        (post_message_served p wide cfg id t form (with_key p km g) v
          (record { connected = s.connected; delivered = s.delivered }))
        (rw (sent.0) refl, sent.1)

  -- A form that passes the checks but has no character left once it is cleaned, over a connection
  -- and where the room's key is in the cache: the answer is 500, not 400, and nothing is stored.
  pub post_message-unprintable :
      HasKey p.aes p.keys form.room_id secret km
      → sanitize_input form.content ≡ []
      → ((post_message p wide cfg id t (ok form) (with_key p km g)).0
          ≡ answer 500 (told false Notice.encryption_failed))
        × ((post_message p wide cfg id t (ok form) (with_key p km g)).1.world
            ≡ (with_key p km g).world)
  unfolding sent_answer send_message create_encrypted_message encrypt_message AesCtr.encrypt text_eq
  post_message-unprintable h nothing =
      rw
        (post_message_served p wide cfg id t form (with_key p km g) v
          (record { connected = s.connected; delivered = s.delivered }))
        (rw
          (encrypt_with_key p.aes p.keys t.moment.sealing (sanitize_input form.content) form.room_id
            secret km h)
          (rw nothing (refl, refl)))
