-- ===== src/Rooms/Streaming.antt =====
-- grpc/server.go, `StreamMessages`: the stream of a room's new messages. A poll reads the store as
-- other calls have left it, so each has a world of its own; the stream holds the map of the seen ids
-- and the key manager's state goes from poll to poll. `Send` is the transport's: it takes a message or
-- fails, which ends the stream.
pub mod NoRepeats
pub mod Delivery
mod Examples
use chat_gateway.Prelude.{
  ℕ, suc, Option, none, some, Bool, true, false, not, List, [], ◌∷◌, ◌++◌, map, if◌then◌else◌,
}
use chat_gateway.Prelude.Text.{Text}
use chat_gateway.Prelude.Dict.{Dict, lookup, insert}
use chat_gateway.Security.MessageEncryption.{MessageEncryption, Inputs}
use chat_gateway.Storage.Paging.{Page}
use chat_gateway.Storage.Messages.{Message, get_by_room_id, setting}
use chat_gateway.Rooms.{is_set}
use chat_gateway.Rooms.World.{Platform, ChatMessage}
use chat_gateway.Rooms.Messaging.{chat_message, checked, decrypted_content}

-- One stream: what it has sent, oldest first, its map, and whether it goes on.
pub record Stream (p : Platform) : Type 0 where
  pub sent : List ChatMessage
  pub seen : Dict Bool
  pub live : Bool
  pub encryption : MessageEncryption p.keys.State

unfoldable pub mark_seen : Dict Bool → List Message → Dict Bool
mark_seen seen [] = seen
mark_seen seen (m ∷ ms) = mark_seen (insert m.id true seen) ms

abbrev mark_page : Option (Page Message) → Dict Bool
mark_page none = []
mark_page (some page) = mark_seen [] page.messages

module _ (p : Platform) where
  unfoldable pub initialize_seen_messages : Text → p.messages.State → Dict Bool
  unfolding mark_seen
  initialize_seen_messages room s = mark_page (
      get_by_room_id p.time p.limits (p.ordered_messages s) room (setting p.initial_fetch 100) []
        none none)

  -- `stream.Send`; `sends` tells whether it takes the message.
  unfoldable pub send : (ChatMessage → Bool) → ChatMessage → Stream p → Stream p
  send sends shown s =
      if sends shown then record s { sent = s.sent ++ shown ∷ [] } else record s { live = false }

  unfoldable pub process_and_send_message :
      (ChatMessage → Bool) → Inputs → Text → Message → Stream p → Stream p
  unfolding decrypted_content send
  process_and_send_message sends i room m s =
      let (content, e) = decrypted_content p i room m s.encryption in
      let shown = chat_message m (checked content) (map (λ r. r.user_id) m.read_by) in
      send sends shown (record s { encryption = e })

  -- The loop of `fetchAndStreamNewMessages`.
  unfoldable pub stream_new :
      (ChatMessage → Bool) → (ℕ → Inputs) → Text → List Message → Stream p → Stream p
  unfolding process_and_send_message
  stream_new sends inputs room [] s = s
  stream_new sends inputs room (m ∷ ms) s =
      let next =
        process_and_send_message sends (inputs 0) room m
          (record s { seen = insert m.id true s.seen }) in
      let skipped = stream_new sends inputs room ms s in
      let rest = stream_new sends (λ n. inputs (suc n)) room ms next in
      if is_set (lookup m.id s.seen) then skipped else if not next.live then next else rest

  -- A failed read does not end the stream.
  unfoldable pub fetch_and_stream_new_messages :
      (ChatMessage → Bool) → (ℕ → Inputs) → Text → p.messages.State → Stream p → Stream p
  unfolding stream_new
  fetch_and_stream_new_messages sends inputs room st s =
      elim (get_by_room_id p.time p.limits (p.ordered_messages st) room 100 [] none none) [
        | none ↦ s
        | some page ↦ stream_new sends inputs room page.messages s
      ]

  -- One tick of the clock.
  pub record Poll : Type 0 where
    pub store : p.messages.State
    pub sends : ChatMessage → Bool
    pub inputs : ℕ → Inputs

  unfoldable pub polls : Text → List Poll → Stream p → Stream p
  unfolding fetch_and_stream_new_messages
  polls room [] s = s
  polls room (t ∷ ts) s =
      let next = fetch_and_stream_new_messages t.sends t.inputs room t.store s in
      let rest = polls room ts next in if not next.live then next else rest

  -- The ticks until the client goes away.
  unfoldable pub stream_messages :
      Text → p.messages.State → MessageEncryption p.keys.State → List Poll → Stream p
  unfolding initialize_seen_messages polls
  stream_messages room st e ts =
      polls room ts
        (record { sent = []; seen = initialize_seen_messages room st; live = true; encryption = e })
