-- ===== src/Security/KeyManager/Restart.antt =====
-- key_manager_v2.go: a room key that was created is found again by the next process.
use chat_gateway.Prelude.{ℕ, ◌≡◌, ◌⊎◌, none, [], Result, ok, err}
use chat_gateway.Prelude.Text.{Text}
use chat_gateway.Storage.Collection.{Collection}
use chat_gateway.Security.Cipher.{BlockCipher}
use chat_gateway.Security.KeyManager.{document, KeyManager, KeyError, loading_error}
use chat_gateway.Security.KeyStore.{KeyDocument, get_active_key}
use chat_gateway.Security.KeyManager.Creation.{IsCreated}

-- A new process: the same master key and the same store, and nothing in the cache.
abbrev pub restarted : {S : Type 0} → KeyManager S → KeyManager S
restarted m = record m { keys = []; old_keys = [] }

-- The answer is the address of a buffer with these bytes, or the store could not be read.
abbrev pub Yields : {S : Type 0} → Text → Result KeyError ℕ × KeyManager S → Type 0
Yields bytes (r, m) = (r ≡ err loading_error) ⊎ ((b : ℕ) × (r ≡ ok b) × (m.heap.cell b ≡ bytes))

module _ (aes : BlockCipher) (c : Collection KeyDocument) (room bytes iv : Text)
    (m : KeyManager c.State) where
  -- The next process finds the document of the new key, and opens it.
  module _ (now a : ℕ) (m' : KeyManager c.State) (made : IsCreated aes c now bytes iv room m a m')
      (absent : get_active_key c room m.store ≡ ok none) where
    abbrev doc : KeyDocument
    doc = document aes c room 1 made.encrypted now now m.rotation_policy.max_key_age
