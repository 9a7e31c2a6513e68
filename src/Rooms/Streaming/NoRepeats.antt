-- ===== src/Rooms/Streaming/NoRepeats.antt =====
-- grpc/server.go, `StreamMessages`: which messages a stream sends, and how often.
use chat_gateway.Prelude.{
  ℕ, ◌+◌, ◌≤◌, ◌≡◌, refl, ap, ◌∙◌, inl, inr, sym, suc, Option-cases, none, Bool, true, false, List,
  [], ◌∷◌, ◌++◌, if◌then◌else◌, Bool-cases, arith,
}
use chat_gateway.Prelude.Text.{Text, text_eq, text_eq_iff}
use chat_gateway.Prelude.Dict.{Dict, lookup, insert, lookup-insert}
use chat_gateway.Security.MessageEncryption.{Inputs}
use chat_gateway.Storage.Messages.{Message, get_by_room_id}
use chat_gateway.Rooms.{is_set}
use chat_gateway.Rooms.World.{Platform, ChatMessage}
use chat_gateway.Rooms.Streaming.{
  initialize_seen_messages, MessageEncryption, stream_messages, Stream, Poll, send,
  process_and_send_message, stream_new, fetch_and_stream_new_messages, polls,
}

abbrev pub flag : Bool → ℕ
flag b = if b then 1 else 0

-- How many of the messages have the id.
abbrev pub times : Text → List ChatMessage → ℕ
times id [] = 0
times id (m ∷ ms) = flag (text_eq m.id id) + times id ms

-- Whether the map has the id.
abbrev pub marked : Text → Dict Bool → Bool
marked id seen = is_set (lookup id seen)

times_append :
    (id : Text) (ms : List ChatMessage) (m : ChatMessage)
    → times id (ms ++ m ∷ []) ≡ times id ms + flag (text_eq m.id id)
times_append id [] m = omega arith
times_append id (k ∷ ks) m = omega (arith, times_append id ks m)

pub marked-insert :
    (id k : Text) (seen : Dict Bool)
    → marked id (insert k true seen) ≡ (if text_eq k id then true else marked id seen)
marked-insert id k seen = rw (lookup-insert k id true seen) (ground arith)

flag_or :
    (same seen : Bool) (n : ℕ)
    → (same ≡ true → seen ≡ false)
    → n ≡ flag seen
    → n + flag same ≡ flag (if same then true else seen)
flag_or true true n new h = absurd ground (arith, new refl)
flag_or true false n new h = omega (arith, h)
flag_or false seen n new h = omega (arith, h)

flag_less : (same seen : Bool) → flag seen ≤ flag (if same then true else seen)
flag_less true true = omega arith
flag_less true false = omega arith
flag_less false seen = omega arith

module _ (p : Platform) (id : Text) (base : ℕ) where
  -- What was marked at the start and what was sent is marked, and as long as the stream lives, all
  -- that is marked is one of the two.
  pub record IsBalanced (s : Stream p) : Type 0 where
    pub bound : base + times id s.sent ≤ flag (marked id s.seen)
    pub exact : s.live ≡ true → base + times id s.sent ≡ flag (marked id s.seen)

  IsBalanced-send :
      (sends : ChatMessage → Bool) (c : ChatMessage) (s t : Stream p)
      → s.live ≡ true
      → marked c.id s.seen ≡ false
      → t.sent ≡ s.sent
      → t.live ≡ true
      → t.seen ≡ insert c.id true s.seen
      → IsBalanced s
      → IsBalanced (send p sends c t)
  unfolding send
  IsBalanced-send sends c s t live new same live' added b =
      let found : flag (marked id t.seen)
          ≡ flag (if text_eq c.id id then true else marked id s.seen) =
        ap flag (ap (marked id) added ∙ marked-insert id c.id s.seen) in
      let grown =
        flag_or (text_eq c.id id) (marked id s.seen) _
          (λ e. rw (sym ((text_eq_iff c.id id).0 e)) new) (b.exact live) in
      let total : base + times id (t.sent ++ c ∷ []) ≡ flag (marked id t.seen) =
        rw same (omega (arith, times_append id s.sent c, grown, found)) in
      let kept : base + times id t.sent ≤ flag (marked id t.seen) =
        rw same (omega (arith, b.bound, flag_less (text_eq c.id id) (marked id s.seen), found)) in
      elim (Bool-cases (sends c)) [
        | inl e ↦ rw (e, send) (record { bound = omega (arith, total); exact = λ l. total })
        | inr e ↦ rw (e, send) (record { bound = kept; exact = λ l. cc })
      ]

  -- A message that is passed on: what the stream was told of it before.
  IsBalanced-process :
      (sends : ChatMessage → Bool) (i : Inputs) (room : Text) (m : Message) (s : Stream p)
      → s.live ≡ true
      → marked m.id s.seen ≡ false
      → IsBalanced s
      → IsBalanced
          (process_and_send_message p sends i room m (record s { seen = insert m.id true s.seen }))
  unfolding process_and_send_message
  IsBalanced-process sends i room m s live new b =
      IsBalanced-send sends _ s _ live new refl live refl b

  IsBalanced-stream_new :
      (sends : ChatMessage → Bool) (inputs : ℕ → Inputs) (room : Text) (ms : List Message)
      (s : Stream p)
      → s.live ≡ true
      → IsBalanced s
      → IsBalanced (stream_new p sends inputs room ms s)
  unfolding stream_new
  IsBalanced-stream_new sends inputs room [] s live b = b
  IsBalanced-stream_new sends inputs room (m ∷ ms) s live b =
      elim (Bool-cases (marked m.id s.seen)) [
        | inl e ↦ rw (e, stream_new) (IsBalanced-stream_new sends inputs room ms s live b)
        | inr e ↦
            let b' = IsBalanced-process sends (inputs 0) room m s live e b in
            elim (Bool-cases
              (process_and_send_message p sends (inputs 0) room m
                (record s { seen = insert m.id true s.seen })).live) [
                  | inl l ↦
                      rw (e, l, stream_new)
                        (IsBalanced-stream_new sends (λ n. inputs (suc n)) room ms _ l b')
                  | inr l ↦ rw (e, l, stream_new) b'
                ]
      ]

  IsBalanced-fetch :
      (sends : ChatMessage → Bool) (inputs : ℕ → Inputs) (room : Text) (st : p.messages.State)
      (s : Stream p)
      → s.live ≡ true
      → IsBalanced s
      → IsBalanced (fetch_and_stream_new_messages p sends inputs room st s)
  unfolding fetch_and_stream_new_messages
  IsBalanced-fetch sends inputs room st s live b =
      elim (Option-cases
        (get_by_room_id p.time p.limits (p.ordered_messages st) room 100 [] none none)) [
          | inl e ↦ rw (e, fetch_and_stream_new_messages) b
          | inr (page, e) ↦
              rw (e, fetch_and_stream_new_messages)
                (IsBalanced-stream_new sends inputs room page.messages s live b)
        ]

  IsBalanced-polls :
      (room : Text) (ts : List (Poll p)) (s : Stream p)
      → s.live ≡ true
      → IsBalanced s
      → IsBalanced (polls p room ts s)
  unfolding polls
  IsBalanced-polls room [] s live b = b
  IsBalanced-polls room (t ∷ ts) s live b =
      let b' = IsBalanced-fetch t.sends t.inputs room t.store s live b in
      elim (Bool-cases (fetch_and_stream_new_messages p t.sends t.inputs room t.store s).live) [
        | inl l ↦ rw (l, polls) (IsBalanced-polls room ts _ l b')
        | inr l ↦ rw (l, polls) b'
      ]

  pub balance-stream_messages :
      (room : Text) (st : p.messages.State) (e : MessageEncryption p.keys.State)
      (ts : List (Poll p))
      → base ≡ flag (marked id (initialize_seen_messages p room st))
      → IsBalanced (stream_messages p room st e ts)
  unfolding stream_messages
  balance-stream_messages room st e ts h =
      IsBalanced-polls room ts _ refl
        (record { bound = omega (arith, h); exact = λ l. omega (arith, h) })
