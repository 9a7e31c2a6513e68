-- ===== src/Storage/MessageStore.antt =====
-- internal/storage/database/chatroom/message.go: the operations of `MessageStore` on the collection
-- `messages`. The field `_ID` of a message is not exported, so it is not stored, and the driver gives
-- each document that it inserts an `_id` of its own. A call reads the clock once, where `Create` reads it
-- twice in a row; a document keeps its times as they are given, where BSON cuts them to milliseconds.
pub mod Reading
pub mod Identity
mod Examples
use chat_gateway.Prelude.{
  ◌≡◌, ℕ, ◌+◌, Option, none, some, Bool, true, false, not, ◌&&◌, List, [], ◌∷◌, ◌++◌, any, ltb, leb,
  ◌==◌, if◌then◌else◌,
}
use chat_gateway.Prelude.Text.{Text, text_eq, bytes}
use chat_gateway.Storage.Collection.{Collection, Found}
use chat_gateway.Storage.Paging.{Rfc3339, View, Page, cursor_time, before, page_of}
use chat_gateway.Storage.Messages.{
  Message, ReadMark, Delivery, Limits, MessageView, created, setting, since_test, until_test,
}

-- `bson.ObjectID`: its hexadecimal text and `ObjectIDFromHex`.
pub record ObjectIds : Type 0 where
  pub hex : ℕ → Text
  pub from_hex : Text → Option ℕ
  pub from_hex-hex : (n : ℕ) → from_hex (hex n) ≡ some n

-- What one insertion gets: the `ObjectID` that the program makes and the one that the driver makes.
pub record NewIds : Type 0 where
  pub own : ℕ
  pub stored : ℕ

-- `NewMessage`; the zero values of the fields that are not set.
unfoldable pub new_message : ObjectIds → ℕ → ℕ → Message
new_message ids own now = record {
  object_id = own;
  id = ids.hex own;
  room_id = [];
  sender_id = [];
  content = [];
  kind = [];
  status = [];
  created_at = now;
  updated_at = now;
  read_by = [];
  delivered_to = [];
}

abbrev pub read_by : Text → Message → Bool
read_by user m = any (λ r. text_eq r.user_id user) m.read_by

abbrev pub unread : Text → Message → Bool
unread user m = not (read_by user m)

abbrev pub has_id : Option ℕ → Message → Bool
has_id none m = true
has_id (some n) m = m.object_id == n

abbrev pub read_mark : Text → ℕ → Message → Message
read_mark user now m = record m {
  read_by = m.read_by ++ record { user_id = user; read_at = now } ∷ [];
  updated_at = now;
}

-- `$addToSet` adds a record that is not there yet.
abbrev pub add_delivery : Delivery → List Delivery → List Delivery
add_delivery d ds =
    if any (λ e. text_eq e.user_id d.user_id && (e.delivered_at == d.delivered_at)) ds
    then ds
    else ds ++ d ∷ []

abbrev pub delivery_mark : Text → ℕ → Message → Message
delivery_mark user now m = record m {
  delivered_to = add_delivery (record { user_id = user; delivered_at = now }) m.delivered_to;
  updated_at = now;
}

abbrev pub room_test : Option Text → Message → Bool
room_test none m = true
room_test (some room) m = text_eq m.room_id room

module _ (ids : ObjectIds) (c : Collection Message) where
  -- The message as it is inserted is returned in place of the one that the caller holds.
  unfoldable pub create : ℕ → NewIds → Message → c.State → Message × c.State × Bool
  create now new m s =
      let m' : Message = record m {
        object_id = new.stored;
        id = ids.hex new.own;
        created_at = now;
        updated_at = now;
        status = bytes "sent";
      } in
      let (s', done) = c.insert_one m' s in (m', s', done)

  unfoldable pub get_by_id : Text → c.State → Found Message
  get_by_id id s = elim (ids.from_hex id) [
    | none ↦ Found.failed
    | some n ↦ c.find_one (has_id (some n)) s
  ]

  -- `g` sets the fields of the update.
  unfoldable pub update : ℕ → Text → (Message → Message) → c.State → c.State × Bool
  update now id g s = elim (ids.from_hex id) [
    | none ↦ (s, false)
    | some n ↦
        let (s', result) =
          c.update_one (has_id (some n)) (λ m. record (g m) { updated_at = now }) s in
        elim result [ none ↦ (s', false) | some counts ↦ (s', true) ]
  ]

  unfoldable pub delete : Text → c.State → c.State × Bool
  delete id s = elim (ids.from_hex id) [
    | none ↦ (s, false)
    | some n ↦ c.delete_one (has_id (some n)) s
  ]

  abbrev mark_at : ℕ → Text → Text → Option ℕ → c.State → c.State × Bool
  mark_at now room user id s =
      c.update_many (λ m. text_eq m.room_id room && unread user m && has_id id m)
        (read_mark user now) s

  unfoldable pub mark_as_read : ℕ → Text → Text → Option Text → c.State → c.State × Bool
  mark_as_read now room user none s = mark_at now room user none s
  mark_as_read now room user (some id) s = elim (ids.from_hex id) [
    | none ↦ (s, false)
    | some n ↦ mark_at now room user (some n) s
  ]

  abbrev deliver_at : ℕ → Text → Text → Option ℕ → c.State → c.State × Bool
  deliver_at now room user id s =
      c.update_many (λ m. text_eq m.room_id room && has_id id m) (delivery_mark user now) s

  unfoldable pub mark_as_delivered : ℕ → Text → Text → Option Text → c.State → c.State × Bool
  mark_as_delivered now room user none s = deliver_at now room user none s
  mark_as_delivered now room user (some id) s = elim (ids.from_hex id) [
    | none ↦ (s, false)
    | some n ↦ deliver_at now room user (some n) s
  ]

  unfoldable pub get_unread_count : Text → Option Text → c.State → Option ℕ
  get_unread_count user room s = c.count_documents (λ m. unread user m && room_test room m) s

-- `limit <= 0` takes the default, which is cut to the maximum, too.
abbrev recent_between : ℕ → ℕ → ℕ → ℕ
recent_between default max limit =
    let limit' = if leb limit 0 then default else limit in if ltb max limit' then max else limit'

unfoldable pub recent_limit : Option Limits → ℕ → ℕ
recent_limit none limit = recent_between 20 100 limit
recent_limit (some cfg) limit =
    recent_between (setting cfg.default_page_size 20) (setting cfg.max_query_limit 100) limit

unfoldable pub get_recent_messages :
    Option Limits → MessageView → Text → ℕ → ℕ → Option (List Message)
get_recent_messages cfg c room since limit =
    c.find_up (λ m. text_eq m.room_id room && ltb since m.created_at) (recent_limit cfg limit)

pub record Query : Type 0 where
  pub room : Text
  pub words : Text
  pub user : Option Text
  pub kind : Option Text
  pub since : Option ℕ
  pub until : Option ℕ

abbrev field_test : Option Text → Text → Bool
field_test none t = true
field_test (some wanted) t = text_eq t wanted

abbrev time_test : Option ℕ → Option ℕ → Option ℕ → Message → Bool
time_test since until none m = since_test since m && until_test until m
time_test since until (some t) m = before created t m

pub record SearchResult : Type 0 where
  pub page : Page Message
  pub total_count : ℕ

-- The text index of the server decides which messages match words. The limit is taken as it is, and
-- the total is counted with the condition of the cursor.
module _ (time : Rfc3339) (matches : Text → Message → Bool) where
  unfoldable pub search_filter : Query → Text → Message → Bool
  search_filter q cursor m =
      text_eq m.room_id q.room
      && matches q.words m
      && field_test q.user m.sender_id
      && field_test q.kind m.kind
      && time_test q.since q.until (cursor_time time cursor) m

  abbrev with_total : Page Message → Option ℕ → Option SearchResult
  with_total page none = none
  with_total page (some n) = some (record { page = page; total_count = n })

  unfoldable pub search :
      (c : Collection Message) → MessageView → Query → ℕ → Text → c.State → Option SearchResult
  unfolding search_filter
  search c view q limit cursor s =
      elim (page_of created time limit (view.find_down (search_filter q cursor) (limit + 1))) [
        | none ↦ none
        | some page ↦ with_total page (c.count_documents (search_filter q cursor) s)
      ]
