-- ===== src/Storage/Messages.antt =====
-- internal/storage/database/chatroom/message.go: the messages of the rooms. The record has the fields
-- that the operations set or read. A limit of 0 or less is 0 here, and so is one that is not
-- configured.
pub mod History
pub mod Walk
pub mod Content
pub mod Bounds
mod Examples
use chat_gateway.Prelude.{
  ℕ, ◌*◌, ◌/◌, ◌+◌, ◌≤◌, ◌≡◌, ◌≢◌, Option, none, some, Bool, true, false, not, ◌&&◌, List, [], ◌∷◌,
  length, take, keep, get_last?, All, ltb, leb, ◌==◌, if◌then◌else◌,
}
use chat_gateway.Prelude.Text.{Text, text_eq, bytes}
use chat_gateway.Storage.Paging.{Rfc3339, View, Page, cursor_time, before, page_of}

pub record ReadMark : Type 0 where
  pub user_id : Text
  pub read_at : ℕ

pub record Delivery : Type 0 where
  pub user_id : Text
  pub delivered_at : ℕ

-- `object_id` is the `_id` of the stored document, `kind` the `Type`.
pub record Message : Type 0 where
  pub object_id : ℕ
  pub id : Text
  pub room_id : Text
  pub sender_id : Text
  pub content : Text
  pub kind : Text
  pub status : Text
  pub created_at : ℕ
  pub updated_at : ℕ
  pub read_by : List ReadMark
  pub delivered_to : List Delivery

-- The messages as the server holds them, by their time of creation.
abbrev pub created : Message → ℕ
created m = m.created_at

abbrev pub MessageView : Type 0
MessageView = View Message created

-- `config.Get()`, where it is there.
pub record Limits : Type 0 where
  pub default_page_size : ℕ
  pub max_history_size : ℕ
  pub max_query_limit : ℕ

-- A configured value that is positive, or the default.
abbrev pub setting : ℕ → ℕ → ℕ
setting value default = if ltb 0 value then value else default

abbrev limit_between : ℕ → ℕ → ℕ → ℕ
limit_between default max limit =
    if leb limit 0 then default else if ltb max limit then max else limit

unfoldable pub normalize_pagination_limit : Option Limits → ℕ → ℕ
normalize_pagination_limit none limit = limit_between 20 100 limit
normalize_pagination_limit (some cfg) limit =
    limit_between (setting cfg.default_page_size 20) (setting cfg.max_query_limit 100) limit

-- The default of a history is cut to its maximum, too.
abbrev history_between : ℕ → ℕ → ℕ → ℕ
history_between default max limit =
    let limit' = if leb limit 0 then default else limit in if ltb max limit' then max else limit'

unfoldable pub history_limit : Option Limits → ℕ → ℕ
history_limit none limit = history_between 20 50 limit
history_limit (some cfg) limit =
    history_between (setting cfg.default_page_size 20) (setting cfg.max_history_size 50) limit

abbrev pub since_test : Option ℕ → Message → Bool
since_test none m = true
since_test (some t) m = leb t m.created_at

abbrev pub until_test : Option ℕ → Message → Bool
until_test none m = true
until_test (some t) m = leb m.created_at t

abbrev filter_at : Text → Option ℕ → Option ℕ → Option ℕ → Message → Bool
filter_at room since until none m =
    text_eq m.room_id room && since_test since m && until_test until m
filter_at room since until (some t) m = text_eq m.room_id room && before created t m

-- The condition of a cursor takes the place of `since` and `until`.
unfoldable pub build_message_filter : Rfc3339 → Text → Text → Option ℕ → Option ℕ → Message → Bool
build_message_filter time room cursor since until m =
    filter_at room since until (cursor_time time cursor) m

module _ (time : Rfc3339) (cfg : Option Limits) (c : MessageView) where
  unfoldable pub get_by_room_id : Text → ℕ → Text → Option ℕ → Option ℕ → Option (Page Message)
  get_by_room_id room limit cursor since until =
      let n = normalize_pagination_limit cfg limit in
      page_of created time n
        (c.find_down (build_message_filter time room cursor since until) (n + 1))

  abbrev history_at : Text → Option ℕ → Message → Bool
  history_at room none m = text_eq m.room_id room && not (text_eq m.kind (bytes "system"))
  history_at room (some t) m =
      text_eq m.room_id room && not (text_eq m.kind (bytes "system")) && before created t m

  unfoldable pub history_filter : Text → Text → Message → Bool
  history_filter room cursor m = history_at room (cursor_time time cursor) m

  -- A history is sorted the other way round.
  unfoldable pub get_history_messages : Text → ℕ → Text → Option (Page Message)
  get_history_messages room limit cursor =
      let n = history_limit cfg limit in
      page_of created time n (c.find_up (history_filter room cursor) (n + 1))
