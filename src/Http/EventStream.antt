-- ===== src/Http/EventStream.antt =====
-- platform/server/stream.go: the event stream of a room's messages. A goroutine reads the stream of
-- the service into a channel, and the handler's loop writes what it finds there; they are interleaved
-- steps. A tick of the heartbeat and the end of the client's request may come at any time; the times
-- in the pings are left out.
pub mod Flow
pub mod Leak
mod Examples
use chat_gateway.Prelude.{
  ℕ, ◌<◌, ◌≡◌, Option, none, some, Bool, true, false, List, [], ◌∷◌, ◌++◌, length, Result, ok, err,
}
use chat_gateway.Prelude.Text.{Text, bytes}
use chat_gateway.Rooms.World.{ChatMessage}
use chat_gateway.Http.Setup.{Config, configured}

-- What is written to the client.
pub data Event : Type 0 where
  connected ping : Event
  message : ChatMessage → Event
  failure : Text → Event

-- The error of `stream.Recv`: `io.EOF` or another.
pub data StreamError : Type 0 where
  eof : StreamError
  broken : Text → StreamError

-- `setupSSEHeaders` and `createGRPCStream`: the events, and whether the loop is entered.
unfoldable pub open_events : Result Text (Unit {0}) → Result Text (Unit {0}) → List Event × Bool
open_events (err e) opened = (connected ∷ failure (bytes "連接 gRPC 服務失敗") ∷ [], false)
open_events (ok done) (err e) = (connected ∷ failure (bytes "建立訊息流失敗: " ++ e) ∷ [], false)
open_events (ok done) (ok opened) = (connected ∷ [], true)

-- The capacity of the channel of `setupMessageChannels`.
unfoldable pub channel_buffer : Option Config → ℕ
channel_buffer cfg = configured cfg (λ c. c.channel_buffer) 10

-- The goroutine: in `Recv`, at `msgChan <- msg`, or over.
pub data Reader : Type 0 where
  receiving : Reader
  sending : ChatMessage → Reader
  over : Reader

pub record Pump : Type 0 where
  pub reader : Reader
  -- What `Recv` has given so far.
  pub received : List ChatMessage
  -- What the two channels hold.
  pub buffer : List ChatMessage
  pub error : Option StreamError
  -- Whether the loop of `handleSSELoop` runs.
  pub looping : Bool
  pub written : List Event

unfoldable pub new_pump : Pump
new_pump = record {
  reader = receiving;
  received = [];
  buffer = [];
  error = none;
  looping = true;
  written = connected ∷ [];
}

-- What the loop writes for an error.
abbrev pub last_words : StreamError → List Event
last_words eof = []
last_words (broken e) = failure (bytes "接收訊息失敗: " ++ e) ∷ []

-- The step of either side, with a channel of capacity `k`. The channel of the errors holds one, and
-- the goroutine sends no second one.
pub data Step (k : ℕ) (s : Pump) : Pump → Type 0 where
  receive :
      (m : ChatMessage)
      → s.reader ≡ receiving
      → Step k s (record s { reader = sending m; received = s.received ++ m ∷ [] })
  break_off :
      (e : StreamError)
      → s.reader ≡ receiving
      → Step k s (record s { reader = over; error = some e })
  put :
      (m : ChatMessage)
      → s.reader ≡ sending m
      → length s.buffer < k
      → Step k s (record s { reader = receiving; buffer = s.buffer ++ m ∷ [] })
  leave : s.looping ≡ true → Step k s (record s { looping = false })
  beat : s.looping ≡ true → Step k s (record s { written = s.written ++ ping ∷ [] })
  write :
      (m : ChatMessage) (rest : List ChatMessage)
      → s.looping ≡ true
      → s.buffer ≡ m ∷ rest
      → Step k s (record s { buffer = rest; written = s.written ++ message m ∷ [] })
  give_up :
      (e : StreamError)
      → s.looping ≡ true
      → s.error ≡ some e
      → Step k s (record s { error = none; looping = false; written = s.written ++ last_words e })

pub data Reach (k : ℕ) (s : Pump) : Pump → Type 0 where
  here : Reach k s s
  next : {t u : Pump} → Reach k s t → Step k t u → Reach k s u
