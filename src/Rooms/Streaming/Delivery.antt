-- ===== src/Rooms/Streaming/Delivery.antt =====
-- grpc/server.go, `StreamMessages`: a stream that lives has sent what its polls found.
use chat_gateway.Prelude.{
  refl, ◌+◌, ◌∙◌, ap, sym, some, none, Option-cases, ℕ, suc, ◌≡◌, inl, inr, Bool, true, List, [],
  ◌∷◌, Bool-cases, arith,
}
use chat_gateway.Prelude.Text.{text_eq_refl, Text}
use chat_gateway.Prelude.Dict.{insert}
use chat_gateway.Storage.Collection.{In}
use chat_gateway.Security.MessageEncryption.{Inputs}
use chat_gateway.Storage.Messages.{Message}
use chat_gateway.Rooms.World.{Platform, ChatMessage}
use chat_gateway.Rooms.Streaming.{
  initialize_seen_messages, get_by_room_id, MessageEncryption, Page, stream_messages, Poll, polls,
  fetch_and_stream_new_messages, Stream, send, process_and_send_message, stream_new,
}
use chat_gateway.Rooms.Streaming.NoRepeats.{
  balance-stream_messages, times, flag, marked, marked-insert,
}

module _ (p : Platform) where
  seen-send :
      (sends : ChatMessage → Bool) (c : ChatMessage) (s : Stream p)
      → (send p sends c s).seen ≡ s.seen
  unfolding send
  seen-send sends c s = ground arith

  seen-process :
      (sends : ChatMessage → Bool) (i : Inputs) (room : Text) (m : Message) (s : Stream p)
      → (process_and_send_message p sends i room m s).seen ≡ s.seen
  unfolding process_and_send_message
  seen-process sends i room m s = seen-send sends _ _

  module _ (id : Text) where
    -- What is marked stays marked.
    marked-stream_new :
        (sends : ChatMessage → Bool) (inputs : ℕ → Inputs) (room : Text) (ms : List Message)
        (s : Stream p)
        → marked id s.seen ≡ true
        → marked id (stream_new p sends inputs room ms s).seen ≡ true
    unfolding stream_new
    marked-stream_new sends inputs room [] s h = h
    marked-stream_new sends inputs room (m ∷ ms) s h =
        let next =
          process_and_send_message p sends (inputs 0) room m
            (record s { seen = insert m.id true s.seen }) in
        let kept : marked id next.seen ≡ true =
          rw (seen-process sends (inputs 0) room m (record s { seen = insert m.id true s.seen }))
            (rw (marked-insert id m.id s.seen, h) (ground arith)) in
        elim (Bool-cases (marked m.id s.seen)) [
          | inl e ↦ rw (e, stream_new) (marked-stream_new sends inputs room ms s h)
          | inr e ↦ elim (Bool-cases next.live) [
            | inl l ↦
                rw (e, l, stream_new)
                  (marked-stream_new sends (λ n. inputs (suc n)) room ms next kept)
            | inr l ↦ rw (e, l, stream_new) kept
          ]
        ]

    marked-fetch :
        (sends : ChatMessage → Bool) (inputs : ℕ → Inputs) (room : Text) (st : p.messages.State)
        (s : Stream p)
        → marked id s.seen ≡ true
        → marked id (fetch_and_stream_new_messages p sends inputs room st s).seen ≡ true
    unfolding fetch_and_stream_new_messages
    marked-fetch sends inputs room st s h =
        elim (Option-cases
          (get_by_room_id p.time p.limits (p.ordered_messages st) room 100 [] none none)) [
            | inl e ↦ rw (e, fetch_and_stream_new_messages) h
            | inr (page, e) ↦
                rw (e, fetch_and_stream_new_messages)
                  (marked-stream_new sends inputs room page.messages s h)
          ]

    marked-polls :
        (room : Text) (ts : List (Poll p)) (s : Stream p)
        → marked id s.seen ≡ true
        → marked id (polls p room ts s).seen ≡ true
    unfolding polls
    marked-polls room [] s h = h
    marked-polls room (t ∷ ts) s h =
        let h' = marked-fetch t.sends t.inputs room t.store s h in
        elim (Bool-cases (fetch_and_stream_new_messages p t.sends t.inputs room t.store s).live) [
          | inl l ↦ rw (l, polls) (marked-polls room ts _ h')
          | inr l ↦ rw (l, polls) h'
        ]

    -- The loop marks every message of the page, unless `Send` fails.
    listed-stream_new :
        (sends : ChatMessage → Bool) (inputs : ℕ → Inputs) (room : Text) (m : Message)
        (ms : List Message) (s : Stream p)
        → m.id ≡ id
        → In m ms
        → (stream_new p sends inputs room ms s).live ≡ true
        → marked id (stream_new p sends inputs room ms s).seen ≡ true
    unfolding stream_new
    listed-stream_new sends inputs room m [] s same there live = absurd there
    listed-stream_new sends inputs room m (k ∷ ks) s same (inl here) live =
        let next =
          process_and_send_message p sends (inputs 0) room k
            (record s { seen = insert k.id true s.seen }) in
        let this : k.id ≡ id = sym (ap (λ (x : Message). x.id) here) ∙ same in
        let now : marked id next.seen ≡ true =
          rw
            (
              seen-process sends (inputs 0) room k (record s { seen = insert k.id true s.seen }),
              marked-insert id k.id s.seen,
              this,
              text_eq_refl id,
            )
            refl in
        elim (Bool-cases (marked k.id s.seen)) [
          | inl e ↦ rw (e, stream_new) (marked-stream_new sends inputs room ks s (rw (sym this) e))
          | inr e ↦ elim (Bool-cases next.live) [
            | inl l ↦
                rw (e, l, stream_new)
                  (marked-stream_new sends (λ n. inputs (suc n)) room ks next now)
            | inr l ↦ rw (e, l, stream_new) now
          ]
        ]
    listed-stream_new sends inputs room m (k ∷ ks) s same (inr there) live =
        let next =
          process_and_send_message p sends (inputs 0) room k
            (record s { seen = insert k.id true s.seen }) in
        elim (Bool-cases (marked k.id s.seen)) [
          | inl e ↦
              rw (e, stream_new)
                (listed-stream_new sends inputs room m ks s same there (rw (e, stream_new) at live))
          | inr e ↦ elim (Bool-cases next.live) [
            | inl l ↦
                rw (e, l, stream_new)
                  (listed-stream_new sends (λ n. inputs (suc n)) room m ks next same there
                    (rw (e, l, stream_new) at live))
            | inr l ↦ absurd (let dead = rw (e, l, stream_new) at live in ground (arith, dead, l))
          ]
        ]

    -- The page of a poll holds the message.
    pub record IsListed (room : Text) (m : Message) (t : Poll p) : Type 0 where
      pub page : Page Message
      pub fetched :
          get_by_room_id p.time p.limits (p.ordered_messages t.store) room 100 [] none none
          ≡ some page
      pub listed : In m page.messages

    listed-fetch :
        (room : Text) (m : Message) (t : Poll p) (s : Stream p)
        → m.id ≡ id
        → IsListed room m t
        → (fetch_and_stream_new_messages p t.sends t.inputs room t.store s).live ≡ true
        → marked id (fetch_and_stream_new_messages p t.sends t.inputs room t.store s).seen ≡ true
    unfolding fetch_and_stream_new_messages
    listed-fetch room m t s same h live =
        rw (h.fetched, fetch_and_stream_new_messages)
          (listed-stream_new t.sends t.inputs room m h.page.messages s same h.listed
            (rw (h.fetched, fetch_and_stream_new_messages) at live))

    listed-polls :
        (room : Text) (m : Message) (t : Poll p) (ts : List (Poll p)) (s : Stream p)
        → m.id ≡ id
        → In t ts
        → IsListed room m t
        → (polls p room ts s).live ≡ true
        → marked id (polls p room ts s).seen ≡ true
    unfolding polls
    listed-polls room m t [] s same there h live = absurd there
    listed-polls room m t (u ∷ us) s same (inl here) h live =
        elim (Bool-cases (fetch_and_stream_new_messages p u.sends u.inputs room u.store s).live) [
          | inl l ↦
              rw (l, polls)
                (marked-polls room us _ (listed-fetch room m u s same (rw (sym here) h) l))
          | inr l ↦ absurd (let dead = rw (l, polls) at live in ground (arith, dead, l))
        ]
    listed-polls room m t (u ∷ us) s same (inr there) h live =
        elim (Bool-cases (fetch_and_stream_new_messages p u.sends u.inputs room u.store s).live) [
          | inl l ↦ rw (l, polls) (listed-polls room m t us _ same there h (rw (l, polls) at live))
          | inr l ↦ absurd (let dead = rw (l, polls) at live in ground (arith, dead, l))
        ]

  -- A message on the page of any of the polls has been sent exactly once when the polls are over, or
  -- was on the page that the stream read at its start, unless a failed `Send` has ended the stream.
  pub stream_messages-listed :
      (room : Text) (st : p.messages.State) (e : MessageEncryption p.keys.State) (m : Message)
      (t : Poll p) (ts : List (Poll p))
      → In t ts
      → IsListed m.id room m t
      → (stream_messages p room st e ts).live ≡ true
      → flag (marked m.id (initialize_seen_messages p room st))
          + times m.id (stream_messages p room st e ts).sent
        ≡ 1
  unfolding stream_messages
  stream_messages-listed room st e m t ts there h live =
      (balance-stream_messages p m.id _ room st e ts refl).exact live
      ∙ ap flag (listed-polls m.id room m t ts _ refl there h live)
