-- ===== src/Storage/Messages/Bounds.antt =====
-- message.go, `GetByRoomID`: how long a page is, and what a cursor does to a range of times.
use chat_gateway.Prelude.{
  ◌/◌, ◌*◌, ◌&&◌, ℕ, ◌≤◌, ◌≡◌, refl, inl, inr, max, Option, none, some, List, length, length-take,
  ltb, Bool-cases, arith,
}
use chat_gateway.Prelude.Text.{text_eq, Text}
use chat_gateway.Storage.Paging.{second, Rfc3339, Page, process_pagination_result, page_of}
use chat_gateway.Storage.Messages.{
  created, Message, MessageView, Limits, setting, normalize_pagination_limit, build_message_filter,
  get_by_room_id,
}
use chat_gateway.Storage.Paging.Cursors.{cursor_time-format}

length-process_pagination_result :
    (time : Rfc3339) (ms : List Message) (n : ℕ)
    → length (process_pagination_result created time ms n).messages ≤ n
unfolding process_pagination_result
length-process_pagination_result time ms n = elim (Bool-cases (ltb n (length ms))) [
  | inl e ↦ rw e (omega (arith, length-take n ms))
  | inr e ↦ rw e (ground (arith, e))
]

length-page_of :
    (time : Rfc3339) (n : ℕ) (answer : Option (List Message)) (page : Page Message)
    → page_of created time n answer ≡ some page
    → length page.messages ≤ n
length-page_of time n none page h = cc
length-page_of time n (some ms) page h =
    let same : process_pagination_result created time ms n ≡ page = ground (arith, h) in
    rw (← same) (length-process_pagination_result time ms n)

limit_bound :
    (cfg : Limits) (limit : ℕ)
    → normalize_pagination_limit (some cfg) limit
      ≤ max (setting cfg.default_page_size 20) (setting cfg.max_query_limit 100)
unfolding normalize_pagination_limit
limit_bound cfg limit = ground arith

-- Whatever limit is asked for and whatever the server answers, a page holds no more messages than
-- the larger of the configured page size and the configured maximum, or their defaults.
pub length-get_by_room_id :
    (time : Rfc3339) (cfg : Limits) (c : MessageView) (room cursor : Text) (limit : ℕ)
    (since until : Option ℕ) (page : Page Message)
    → get_by_room_id time (some cfg) c room limit cursor since until ≡ some page
    → length page.messages
      ≤ max (setting cfg.default_page_size 20) (setting cfg.max_query_limit 100)
unfolding get_by_room_id
length-get_by_room_id time cfg c room cursor limit since until page h =
    omega (arith, length-page_of time _ _ page h, limit_bound cfg limit)

-- The cursor of a time selects the room's messages from before the whole second of that time, and
-- nothing else: it takes the place of the range that the caller asks for, and leaves out the messages
-- created earlier in the same second.
pub build_message_filter-cursor :
    (time : Rfc3339) (room : Text) (t : ℕ) (since until : Option ℕ) (m : Message)
    → build_message_filter time room (time.format t) since until m
      ≡ (text_eq m.room_id room && ltb m.created_at (t / second * second))
unfolding build_message_filter
build_message_filter-cursor time room t since until m =
    rw (cursor_time-format time t, build_message_filter) refl
