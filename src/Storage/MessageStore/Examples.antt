-- ===== src/Storage/MessageStore/Examples.antt =====
-- The theorems on the message store at a collection in memory.
use chat_gateway.Prelude.Text.{Text, bytes}
use chat_gateway.Storage.Collection.{Collection, in_memory}
use chat_gateway.Storage.Messages.{Message}

abbrev store : Collection Message
store = in_memory Message

abbrev room : Text
room = bytes "r1"
