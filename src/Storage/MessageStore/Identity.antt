-- ===== src/Storage/MessageStore/Identity.antt =====
-- message.go: a message that was created, looked up by the id that the program gave it.
use chat_gateway.Prelude.{ℕ, some, Bool, not, List, any}
use chat_gateway.Storage.Collection.{Collection}
use chat_gateway.Storage.Messages.{Message}
use chat_gateway.Storage.MessageStore.{create, Text, NewIds, ObjectIds, has_id}

-- No document is stored under the number.
abbrev pub absent : ℕ → List Message → Bool
absent n ms = not (any (has_id (some n)) ms)

module _ (ids : ObjectIds) (c : Collection Message) (now : ℕ) (new : NewIds) (m : Message)
    (s : c.State) where
  abbrev pub id : Text
  id = (create ids c now new m s).0.id

  abbrev pub after : c.State
  after = (create ids c now new m s).1
