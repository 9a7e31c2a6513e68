-- ===== src/Storage/Messages/Walk.antt =====
-- message.go, `GetByRoomID`: all pages of a room.
use mathlib.Core.List.{reverse}
use chat_gateway.Prelude.{
  [], ℕ, zero, suc, ◌<◌, ◌≡◌, refl, Option, none, some, Bool, List, length, keep, arith,
}
use chat_gateway.Prelude.Text.{Text, text_eq}
use chat_gateway.Storage.Paging.{Rfc3339, cursor_time}
use chat_gateway.Storage.Paging.Cursors.{cursor_time-format}
use chat_gateway.Storage.Paging.Walk.{after, text_at, IsApart, walk, walk_complete}
use chat_gateway.Storage.Messages.{
  Message, MessageView, Limits, created, normalize_pagination_limit, build_message_filter,
  get_by_room_id,
}

abbrev pub in_room : Text → Message → Bool
in_room room m = text_eq m.room_id room

limit_positive : (cfg : Option Limits) (limit : ℕ) → 0 < normalize_pagination_limit cfg limit
unfolding normalize_pagination_limit
limit_positive none limit = ground arith
limit_positive (some cfg) limit = ground arith

successor : (n : ℕ) → 0 < n → (k : ℕ) × (n ≡ suc k)
successor zero h = absurd (omega (arith, h))
successor (suc n) h = (n, refl)

filters :
    (time : Rfc3339) (room : Text) (cursor : Option ℕ) (m : Message)
    → build_message_filter time room (text_at time cursor) none none m
      ≡ after created (in_room room) cursor m
unfolding build_message_filter cursor_time text_eq
filters time room none m = ground arith
filters time room (some t) m = rw (cursor_time-format time t, build_message_filter) refl

-- A client that begins without a cursor and follows the cursors gets every message of the room,
-- newest first and each once, as long as the server answers from one state and no two messages of
-- the room are created within one second; whatever limit it asks for, one page more than there are
-- messages is enough.
pub walk-get_by_room_id :
    (time : Rfc3339) (cfg : Option Limits) (c : MessageView) (room : Text) (limit fuel : ℕ)
    → ((g : Message → Bool) (k : ℕ) → (ms : List Message) × (c.find_down g k ≡ some ms))
    → IsApart created (keep (in_room room) (reverse c.documents))
    → length (keep (in_room room) (reverse c.documents)) < fuel
    → walk (λ cursor. get_by_room_id time cfg c room limit cursor none none) fuel []
      ≡ some (keep (in_room room) (reverse c.documents))
unfolding get_by_room_id
walk-get_by_room_id time cfg c room limit fuel answers apart enough =
    let (k, e) = successor (normalize_pagination_limit cfg limit) (limit_positive cfg limit) in
    rw e (
      walk_complete created time c (λ cursor. build_message_filter time room cursor none none)
        (in_room room) k answers (filters time room) fuel apart enough)
