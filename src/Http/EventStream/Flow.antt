-- ===== src/Http/EventStream/Flow.antt =====
-- stream.go: the messages on their way from the service to the client.
use chat_gateway.Prelude.{
  ℕ, ◌≤◌, ◌≡◌, ◌∙◌, refl, sym, ap, List, [], ◌∷◌, ◌++◌, length, append_assoc, append-nil,
  length-append, arith,
}
use chat_gateway.Rooms.World.{ChatMessage}
use chat_gateway.Http.EventStream.{
  Event, connected, ping, message, failure, StreamError, eof, broken, Reader, receiving, sending,
  over, Pump, new_pump, last_words, Step, receive, break_off, put, leave, beat, write, give_up,
  Reach, here, next,
}

-- The messages among the events.
abbrev pub messages_of : List Event → List ChatMessage
messages_of [] = []
messages_of (connected ∷ es) = messages_of es
messages_of (ping ∷ es) = messages_of es
messages_of (message m ∷ es) = m ∷ messages_of es
messages_of (failure e ∷ es) = messages_of es

abbrev pub held : Reader → List ChatMessage
held receiving = []
held (sending m) = m ∷ []
held over = []

messages_of-append :
    (es fs : List Event) → messages_of (es ++ fs) ≡ messages_of es ++ messages_of fs
messages_of-append [] fs = refl
messages_of-append (connected ∷ es) fs = messages_of-append es fs
messages_of-append (ping ∷ es) fs = messages_of-append es fs
messages_of-append (message m ∷ es) fs = ap (◌∷◌ m) (messages_of-append es fs)
messages_of-append (failure e ∷ es) fs = messages_of-append es fs

pub messages_of-last_words : (e : StreamError) → messages_of (last_words e) ≡ []
messages_of-last_words eof = refl
messages_of-last_words (broken e) = refl

-- Nothing is lost, doubled or out of order on the way, and the channel is within its capacity.
pub record IsInOrder (k : ℕ) (s : Pump) : Type 0 where
  pub order : messages_of s.written ++ s.buffer ++ held s.reader ≡ s.received
  pub bounded : length s.buffer ≤ k

Step-IsInOrder : (k : ℕ) (s t : Pump) → Step k s t → IsInOrder k s → IsInOrder k t
Step-IsInOrder k s t (receive m now) h = record {
  order =
      let before = rw now at h.order in
      ap (λ (ms : List ChatMessage). ms ++ m ∷ [])
        (sym (append-nil (messages_of s.written ++ s.buffer)) ∙ before);
  bounded = h.bounded;
}
Step-IsInOrder k s t (break_off e now) h = record { order = rw now at h.order; bounded = h.bounded }
Step-IsInOrder k s t (put m now room) h = record {
  order =
      append-nil (messages_of s.written ++ (s.buffer ++ m ∷ []))
      ∙ sym (append_assoc (messages_of s.written) s.buffer (m ∷ []))
      ∙ rw now at h.order;
  bounded = omega (arith, room, length-append s.buffer (m ∷ []));
}
Step-IsInOrder k s t (leave on) h = record { order = h.order; bounded = h.bounded }
Step-IsInOrder k s t (beat on) h = record {
  order =
      ap (λ (ms : List ChatMessage). ms ++ s.buffer ++ held s.reader)
        (messages_of-append s.written (ping ∷ []) ∙ append-nil (messages_of s.written))
      ∙ h.order;
  bounded = h.bounded;
}
Step-IsInOrder k s t (write m rest on first) h = record {
  order =
      ap (λ (ms : List ChatMessage). ms ++ held s.reader)
        (ap (λ (ms : List ChatMessage). ms ++ rest) (messages_of-append s.written (message m ∷ []))
          ∙ append_assoc (messages_of s.written) (m ∷ []) rest)
      ∙ rw first at h.order;
  bounded = let few = rw first at h.bounded in omega (arith, few);
}
Step-IsInOrder k s t (give_up e on there) h = record {
  order =
      ap (λ (ms : List ChatMessage). ms ++ s.buffer ++ held s.reader)
        (messages_of-append s.written (last_words e)
          ∙ ap (λ (ms : List ChatMessage). messages_of s.written ++ ms) (messages_of-last_words e)
          ∙ append-nil (messages_of s.written))
      ∙ h.order;
  bounded = h.bounded;
}

-- However the goroutine and the loop interleave, and whenever the stream or the client ends: the
-- messages written, those in the channel and the one that the goroutine holds are, in this order,
-- exactly what the service's stream has given, and the channel holds no more than its capacity.
pub Reach-IsInOrder : (k : ℕ) (s : Pump) → Reach k new_pump s → IsInOrder k s
unfolding new_pump
Reach-IsInOrder k s here = record { order = refl; bounded = omega arith }
Reach-IsInOrder k s (next {t = t} r step) = Step-IsInOrder k t s step (Reach-IsInOrder k t r)
