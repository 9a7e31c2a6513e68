-- ===== src/Http/EventStream/Leak.antt =====
-- stream.go: the goroutine that outlives its client, and the messages that a broken stream leaves
-- behind.
use chat_gateway.Prelude.{
  ℕ, ◌+◌, ◌≤◌, ◌≡◌, ◌∙◌, refl, sym, subst, ap, none, some, false, List, [], ◌∷◌, ◌++◌, length,
  append_assoc, append-nil, length-append, arith,
}
use chat_gateway.Rooms.World.{ChatMessage}
use chat_gateway.Http.EventStream.{
  Event, StreamError, receiving, sending, over, Pump, new_pump, last_words, Step, receive,
  break_off, put, leave, beat, write, give_up, Reach, here, next,
}
use chat_gateway.Http.EventStream.Flow.{messages_of, messages_of-last_words}

-- The goroutine is at a full channel that nobody reads.
pub record IsStuck (k : ℕ) (s : Pump) : Type 0 where
  pub last : ChatMessage
  pub blocked : s.reader ≡ sending last
  pub full : length s.buffer ≡ k
  pub ended : s.looping ≡ false

stuck_step : (k : ℕ) (s t : Pump) → IsStuck k s → ¬ Step k s t
stuck_step k s t h (receive m now) = let no_way = sym h.blocked ∙ now in cc
stuck_step k s t h (break_off e now) = let no_way = sym h.blocked ∙ now in cc
stuck_step k s t h (put m now room) = omega (arith, room, h.full)
stuck_step k s t h (leave on) = let no_way = sym h.ended ∙ on in cc
stuck_step k s t h (beat on) = let no_way = sym h.ended ∙ on in cc
stuck_step k s t h (write m rest on first) = let no_way = sym h.ended ∙ on in cc
stuck_step k s t h (give_up e on there) = let no_way = sym h.ended ∙ on in cc

stuck_forever : (k : ℕ) (s t : Pump) → IsStuck k s → Reach k s t → t ≡ s
stuck_forever k s t h here = refl
stuck_forever k s u h (next {t = t} r step) =
    let same = stuck_forever k s t h r in
    absurd (stuck_step k s u h (subst (λ (x : Pump). Step k x u) same step))

-- One run after another.
Reach-append : {k : ℕ} {s t u : Pump} → Reach k s t → Reach k t u → Reach k s u
Reach-append r here = r
Reach-append r (next q step) = next (Reach-append r q) step

-- What a goroutine with room in its channel does with the messages that come in.
pub record Filled (k : ℕ) (s : Pump) (ms : List ChatMessage) : Type 0 where
  pub end : Pump
  pub run : Reach k s end
  pub free : end.reader ≡ receiving
  pub loop : end.looping ≡ s.looping
  pub text : end.written ≡ s.written
  pub holds : end.buffer ≡ s.buffer ++ ms
  pub got : end.received ≡ s.received ++ ms

fill :
    (k : ℕ) (s : Pump) (ms : List ChatMessage)
    → s.reader ≡ receiving
    → length s.buffer + length ms ≤ k
    → Filled k s ms
fill k s [] free room = record {
  end = s;
  run = here;
  free = free;
  loop = refl;
  text = refl;
  holds = sym (append-nil s.buffer);
  got = sym (append-nil s.received);
}
fill k s (m ∷ ms) free room =
    let taken : Pump = record s { reader = sending m; received = s.received ++ m ∷ [] } in
    let passed : Pump = record taken { reader = receiving; buffer = s.buffer ++ m ∷ [] } in
    let rest = fill k passed ms refl (omega (arith, room, length-append s.buffer (m ∷ []))) in
    record {
      end = rest.end;
      run =
          Reach-append (next (next here (receive m free)) (put m refl (omega (arith, room))))
            rest.run;
      free = rest.free;
      loop = rest.loop;
      text = rest.text;
      holds = rest.holds ∙ append_assoc s.buffer (m ∷ []) ms;
      got = rest.got ∙ append_assoc s.received (m ∷ []) ms;
    }

-- The goroutine of a client that goes away at once takes as many messages as the channel holds, and
-- one more: then it stands at the channel for ever, whatever the channel's capacity. No step of
-- either side is left, so its stream of the service is never closed.
pub goroutine_leaks :
    (k : ℕ) (ms : List ChatMessage) (m : ChatMessage)
    → length ms ≡ k
    → (t : Pump) × Reach k new_pump t
      × IsStuck k t
      × (t.received ≡ ms ++ m ∷ [])
      × ((u : Pump) → Reach k t u → u ≡ t)
unfolding new_pump
goroutine_leaks k ms m size =
    let gone : Pump = record new_pump { looping = false } in
    let f = fill k gone ms refl (omega (arith, size)) in
    let t : Pump = record f.end { reader = sending m; received = f.end.received ++ m ∷ [] } in
    let stuck : IsStuck k t = record {
      last = m;
      blocked = refl;
      full = ap (λ (x : List ChatMessage). length x) f.holds ∙ size;
      ended = f.loop;
    } in
    (
      t,
      next (Reach-append (next here (leave refl)) f.run) (receive m f.free),
      stuck,
      ap (λ (x : List ChatMessage). x ++ m ∷ []) f.got,
      λ u r. stuck_forever k t u stuck r,
    )

-- Where the service's stream breaks off, messages that the gateway has received before may never be
-- written: for any that fit the channel there is a run in which the loop ends with the error and the
-- client is sent none of them.
pub broken_stream-loses :
    (k : ℕ) (ms : List ChatMessage) (e : StreamError)
    → length ms ≤ k
    → (t : Pump) × Reach k new_pump t
      × (t.looping ≡ false)
      × (t.buffer ≡ ms)
      × (messages_of t.written ≡ [])
unfolding new_pump
broken_stream-loses k ms e fits =
    let f = fill k new_pump ms refl (omega (arith, fits)) in
    let cut : Pump = record f.end { reader = over; error = some e } in
    (
      record cut { error = none; looping = false; written = cut.written ++ last_words e },
      next (next f.run (break_off e f.free)) (give_up e f.loop refl),
      refl,
      f.holds,
      ap (λ (x : List Event). messages_of (x ++ last_words e)) f.text ∙ messages_of-last_words e,
    )
