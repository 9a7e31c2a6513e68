-- ===== src/Http/EventStream/Examples.antt =====
-- The theorems on event streams at a few messages.
use chat_gateway.Prelude.{◌≡◌, refl, [], ◌∷◌, ◌++◌, arith}
use chat_gateway.Prelude.Text.{bytes}
use chat_gateway.Rooms.World.{ChatMessage}
use chat_gateway.Http.EventStream.{message, Pump, new_pump, receive, put, write, Reach, here, next}
use chat_gateway.Http.EventStream.Flow.{IsInOrder, Reach-IsInOrder}
use chat_gateway.Http.EventStream.Leak.{IsStuck, goroutine_leaks}

abbrev hi : ChatMessage
hi = record {
  id = bytes "1";
  room_id = bytes "r1";
  sender_id = bytes "alice";
  content = bytes "hi";
  kind = bytes "text";
  created_at = 5;
  updated_at = 5;
  read_by = [];
}

abbrev shown : Pump
shown = record new_pump { received = hi ∷ []; written = new_pump.written ++ message hi ∷ [] }

goroutine_leaks_example :
    (t : Pump) × Reach 1 new_pump t
    × IsStuck 1 t
    × (t.received ≡ hi ∷ hi ∷ [])
    × ((u : Pump) → Reach 1 t u → u ≡ t)
goroutine_leaks_example = goroutine_leaks 1 (hi ∷ []) hi refl

shown_run : Reach 1 new_pump shown
unfolding new_pump
shown_run =
    next (next (next here (receive hi refl)) (put hi refl (omega arith))) (write hi [] refl refl)

Reach-IsInOrder_example : IsInOrder 1 shown
Reach-IsInOrder_example = Reach-IsInOrder 1 shown shown_run
