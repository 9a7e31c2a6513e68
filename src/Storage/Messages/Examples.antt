-- ===== src/Storage/Messages/Examples.antt =====
-- The theorems on pages at a room with three messages.
use chat_gateway.Prelude.{
  ℕ, ◌+◌, ◌*◌, ◌≡◌, refl, none, some, true, false, List, [], ◌∷◌, keep, All, arith,
}
use mathlib.Core.List.{reverse}
use chat_gateway.Prelude.Text.{text_eq, bytes}
use chat_gateway.Storage.Collection.{In}
use chat_gateway.Storage.Paging.{Page, process_pagination_result, cursor_time}
use chat_gateway.Storage.Fixtures.{time, ordered, message}
use chat_gateway.Storage.Messages.{
  created, Message, MessageView, Limits, get_by_room_id, get_history_messages, history_limit,
  history_filter,
}
use chat_gateway.Storage.Paging.Walk.{walk}
use chat_gateway.Storage.Messages.Walk.{in_room, walk-get_by_room_id}
use chat_gateway.Storage.Messages.History.{get_history_messages-again}

abbrev three : List Message
three = message 1 ∷ message 2 ∷ message 3 ∷ []

abbrev collection : MessageView
collection = ordered created three

abbrev first : Page Message
first = record { messages = message 1 ∷ message 2 ∷ []; next_cursor = 84 ∷ 2 ∷ []; has_more = true }

abbrev second_page : Page Message
second_page = record { messages = message 1 ∷ []; next_cursor = []; has_more = false }

get_history_messages-again_example : All (λ m. In m first.messages) second_page.messages
unfolding get_history_messages history_limit history_filter cursor_time process_pagination_result
    text_eq
get_history_messages-again_example =
    get_history_messages-again time none collection (bytes "r1") 2 first second_page (message 2)
      refl refl refl refl

abbrev limits : Limits
limits = record { default_page_size = 20; max_history_size = 50; max_query_limit = 2 }

abbrev newest : Page Message
newest = record {
  messages = message 3 ∷ message 2 ∷ [];
  next_cursor = 84 ∷ 2 ∷ [];
  has_more = true;
}

-- Times that are no whole seconds.
abbrev late : ℕ → Message
late n = record (message n) { created_at = n * 1000000000 + 5 * n }

abbrev fractional : MessageView
fractional = ordered created (late 1 ∷ late 2 ∷ late 3 ∷ [])

walk-get_by_room_id_example :
    walk
      (λ cursor. get_by_room_id time (some limits) fractional (bytes "r1") 2 cursor none none)
      9
      []
    ≡ some (keep (in_room (bytes "r1")) (reverse fractional.documents))
unfolding text_eq
walk-get_by_room_id_example =
    walk-get_by_room_id time (some limits) fractional (bytes "r1") 2 9 (λ g k. (_, refl))
      (ground arith) (omega arith)
