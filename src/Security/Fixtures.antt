-- ===== src/Security/Fixtures.antt =====
-- Concrete values for the examples: a block function, a room with its key, an empty key store.
use chat_gateway.Prelude.{
  ◌<◌, All, List, ◌==◌, if◌then◌else◌, none, some, true, [], ◌∷◌, replicate, arith,
}
use chat_gateway.Prelude.Text.{Text, bytes}
use chat_gateway.Storage.Collection.{Collection, in_memory}
use chat_gateway.Security.Cipher.{BlockCipher}
use chat_gateway.Security.KeyStore.{KeyDocument}
use chat_gateway.Security.KeyManager.{KeyManager, Key, active}
use chat_gateway.Security.MessageEncryption.{Inputs}

pub block_of_bytes : All (λ b. b < 256) (replicate 16 90)
block_of_bytes = ground arith

abbrev pub cipher : BlockCipher
cipher = record {
  encrypt_block = λ key block. replicate 16 90;
  block_bytes = λ key block. block_of_bytes;
}

abbrev pub store : Collection KeyDocument
store = in_memory KeyDocument

abbrev pub room : Text
room = bytes "r1"

abbrev pub master : Text
master = replicate 32 1

abbrev pub secret : Text
secret = replicate 32 7

abbrev pub iv : Text
iv = replicate 16 3

abbrev pub hello : Text
hello = bytes "hi"

abbrev pub room_key : Key
room_key = record {
  id = room;
  value = 0;
  created_at = 5;
  rotated_at = 5;
  version = 1;
  status = active;
}

-- The room's key is in the cache.
abbrev pub keyed : KeyManager (List KeyDocument)
keyed = record {
  heap = record { next = 1; cell = λ p. if p == 0 then secret else [] };
  keys = (room, room_key) ∷ [];
  old_keys = [];
  master_key = master;
  store = [];
  rotation_policy = record {
    enabled = true;
    rotation_interval = 100;
    max_key_age = 200;
    keep_old_keys = 5;
  };
}

-- A new manager.
abbrev pub empty : KeyManager (List KeyDocument)
empty = record keyed { keys = [] }

abbrev pub inputs : Inputs
inputs = record { now = 9; key_entropy = none; key_iv = none; iv = some iv }

abbrev pub document : KeyDocument
document = record {
  room_id = room;
  key_version = 1;
  encrypted_key = bytes "AAAA";
  created_at = 5;
  rotated_at = 5;
  is_active = true;
  expires_at = 7;
}
