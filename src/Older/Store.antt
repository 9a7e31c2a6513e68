-- ===== src/Older/Store.antt =====
-- storage/database/message/message_store.go: the operations on a collection. The driver gives a message
-- without an id an `ObjectID`, in the document only, and the database keeps milliseconds. What the
-- driver makes of an `ObjectID` where the program wants a text is a parameter, `none` an error.
use chat_gateway.Prelude.{
  ℕ, ◌*◌, ◌/◌, Option, none, some, Bool, true, false, List, [], ◌∷◌, take, drop, ◌==◌,
  if◌then◌else◌,
}
use chat_gateway.Prelude.Text.{Text, text_eq}
use chat_gateway.Storage.Collection.{Collection, Counts, Found, missing, found, failed}
use chat_gateway.Storage.MessageStore.{ObjectIds}

pub record Message : Type 0 where
  pub id : Text
  pub content : Text
  pub sender_id : Text
  pub channel_id : Text
  pub kind : Text
  pub status : Text
  pub created_at : ℕ
  pub updated_at : ℕ

-- The `_id` of a document.
pub data DocumentId : Type 0 where
  generated : ℕ → DocumentId
  given : Text → DocumentId

pub record Document : Type 0 where
  pub object_id : DocumentId
  pub fields : Message

abbrev pub has_id : ℕ → Document → Bool
has_id n d = elim d.object_id [ generated k ↦ k == n | given id ↦ false ]

abbrev pub milliseconds : ℕ → ℕ
milliseconds time = time / 1000000 * 1000000

abbrev pub stored : ℕ → Message → Document
stored new m = record {
  object_id = if text_eq m.id [] then generated new else given m.id;
  fields = record m {
    created_at = milliseconds m.created_at;
    updated_at = milliseconds m.updated_at;
  };
}

module _ (ids : ObjectIds) (text_of : ℕ → Option Text) (c : Collection Document) where
  -- `Decode`
  abbrev pub decoded : Document → Option Message
  decoded d = elim d.object_id [
    | given id ↦ some (record d.fields { id = id })
    | generated n ↦ elim (text_of n) [ none ↦ none | some id ↦ some (record d.fields { id = id }) ]
  ]

  abbrev decoded_all : List Document → Option (List Message)
  decoded_all [] = some []
  decoded_all (d ∷ ds) =
      let rest = decoded_all ds in
      elim (decoded d) [
        | none ↦ none
        | some m ↦ elim rest [ none ↦ none | some ms ↦ some (m ∷ ms) ]
      ]

  abbrev pub decoded_found : Found Document → Option Message
  decoded_found missing = none
  decoded_found (found d) = decoded d
  decoded_found failed = none

  -- The message as the call leaves it, the collection, and whether there is no error.
  unfoldable pub create : ℕ → ℕ → ℕ → Message → c.State → Message × c.State × Bool
  create now later new m s =
      let m' : Message = record m { created_at = now; updated_at = later } in
      let (s', done) = c.insert_one (stored new m') s in (m', s', done)

  unfoldable pub get_by_id : Text → c.State → Option Message
  get_by_id id s = elim (ids.from_hex id) [
    | none ↦ none
    | some n ↦ decoded_found (c.find_one (has_id n) s)
  ]

  -- A limit of 0 is none.
  abbrev limited : ℕ → List Document → List Document
  limited limit ds = if limit == 0 then ds else take limit ds

  -- The latest first. An error of the cursor ends the loop like its end: `yielded` is how many
  -- documents it gives at most.
  unfoldable pub list : ℕ → (Document → Bool) → ℕ → ℕ → c.State → Option (List Message)
  list yielded filter limit offset s = elim (c.find filter (λ d. d.fields.created_at) s) [
    | none ↦ none
    | some ds ↦ decoded_all (take yielded (limited limit (drop offset ds)))
  ]

  abbrev counted : c.State × Option Counts → c.State × Bool
  counted (s, none) = (s, false)
  counted (s, some n) = (s, true)

  -- The update sets fields of the message.
  unfoldable pub update : ℕ → Text → (Message → Message) → c.State → c.State × Bool
  update now id change s = elim (ids.from_hex id) [
    | none ↦ (s, false)
    | some n ↦ counted (
        c.update_one (has_id n)
          (λ d. record d { fields = record (change d.fields) { updated_at = milliseconds now } }) s)
  ]

  unfoldable pub delete : Text → c.State → c.State × Bool
  delete id s = elim (ids.from_hex id) [ none ↦ (s, false) | some n ↦ c.delete_one (has_id n) s ]
