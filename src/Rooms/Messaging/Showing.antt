-- ===== src/Rooms/Messaging/Showing.antt =====
-- grpc/server.go, `GetMessages`: what a page shows of the messages in the store.
use chat_gateway.Prelude.{
  ℕ, suc, ◌≡◌, refl, sym, inl, inr, none, some, true, List, [], ◌∷◌, Bool-cases,
}
use chat_gateway.Prelude.Text.{Text, text_eq, text_eq_iff}
use chat_gateway.Prelude.Utf8.{valid}
use chat_gateway.Security.KeyManager.{KeyManager}
use chat_gateway.Security.MessageEncryption.{Inputs}
use chat_gateway.Security.MessageEncryption.RoundTrip.{enabled_with}
use chat_gateway.Security.MessageEncryption.Keyed.{decrypt_message_state}
use chat_gateway.Storage.Collection.{In}
use chat_gateway.Storage.Paging.{Page}
use chat_gateway.Storage.Messages.{Message, get_by_room_id}
use chat_gateway.Storage.Messages.Content.{In-get_by_room_id}
use chat_gateway.Rooms.{clean_read_by}
use chat_gateway.Rooms.World.{Platform, World, Moment}
use chat_gateway.Rooms.Messaging.{
  SendMessageRequest, is_system, decrypted_content, show_messages, get_messages,
}
use chat_gateway.Rooms.Messaging.Sending.{
  Sendable, stored_message, sent_message, sealed_content, keyed, decrypted_sealed,
}

module _ (p : Platform) (i : Moment) (req : SendMessageRequest) (secret iv : Text)
    (km : KeyManager p.keys.State) (h : Sendable p i req secret iv km) where
  abbrev stored : Message
  stored = stored_message p i req (sealed_content p i req secret iv km h)

  -- All messages of the page are the room's.
  abbrev IsOwn : List Message → Type 0
  IsOwn ms = (m : Message) → In m ms → text_eq m.room_id req.room_id ≡ true

  decrypted_content_state :
      (j : Inputs) (room : Text) (m : Message)
      → room ≡ req.room_id
      → (decrypted_content p j room m (enabled_with p.aes p.keys km)).1
        ≡ enabled_with p.aes p.keys km
  unfolding decrypted_content
  decrypted_content_state j room m same = rw same (elim (Bool-cases (is_system m.kind)) [
    | inl e ↦ rw e refl
    | inr e ↦ rw e (decrypt_message_state p.aes p.keys j m.content req.room_id secret km h.key)
  ])

  shown-In :
      (inputs : ℕ → Inputs) (ms : List Message)
      → IsOwn ms
      → In stored ms
      → valid req.content ≡ true
      → In (sent_message p i req) (show_messages p inputs ms (enabled_with p.aes p.keys km)).0
  unfolding show_messages clean_read_by
  shown-In inputs [] own there v = absurd there
  shown-In inputs (m ∷ ms) own (inl here) v =
      rw (sym here)
        (inl (rw (decrypted_sealed p i req secret iv km h (inputs 0) stored refl refl, v) refl))
  shown-In inputs (m ∷ ms) own (inr there) v =
      rw
        (decrypted_content_state (inputs 0) m.room_id m
          ((text_eq_iff m.room_id req.room_id).0 (own m (inl refl))))
        (inr (shown-In (λ n. inputs (suc n)) ms (λ k t. own k (inr t)) there v))

  -- A message that `SendMessage` stored under the room's key is shown with the content that was
  -- sent, on every page that holds it, where the content is valid UTF-8 and not empty, the type is
  -- not `system`, and the key is in the cache.
  pub get_messages-stored :
      (j : Moment) (limit : ℕ) (cursor : Text) (w : World p) (page : Page Message)
      → get_by_room_id p.time p.limits
          (p.ordered_messages w.messages)
          req.room_id
          limit
          cursor
          none
          none
        ≡ some page
      → In stored page.messages
      → valid req.content ≡ true
      → ((get_messages p j req.room_id limit cursor (keyed p i req secret iv km h w)).0.success
          ≡ true)
        × In
            (sent_message p i req)
            (get_messages p j req.room_id limit cursor
              (keyed p i req secret iv km h w)).0.body.messages
  unfolding get_messages
  get_messages-stored j limit cursor w page e there v =
      rw (e, get_messages)
        (
          refl,
          shown-In j.showing page.messages
              (λ m t.
                (In-get_by_room_id p.time p.limits (p.ordered_messages w.messages) req.room_id
                  cursor limit none none page m e t).0)
              there v,
        )
