-- ===== src/Security/KeyManager/Upkeep/Due.antt =====
-- key_manager_v2.go, `shouldRotateKey` and `rotateKey`: when a key is due again.
use chat_gateway.Prelude.{ℕ, ◌+◌, ◌≤◌, ◌<◌, ◌≡◌, true, some, Option, ok, arith}
use chat_gateway.Prelude.Text.{Text}
use chat_gateway.Prelude.Dict.{lookup}
use chat_gateway.Storage.Collection.{Collection}
use chat_gateway.Security.Cipher.{BlockCipher}
use chat_gateway.Security.KeyStore.{KeyDocument}
use chat_gateway.Security.KeyManager.{
  KeyManager, Key, RotationPolicy, rotate_key, should_rotate_key,
}
use chat_gateway.Security.KeyManager.Rotation.{rotated}

past_age :
    (p : RotationPolicy) (now : ℕ) (k : Key)
    → p.enabled ≡ true
    → 0 < p.max_key_age
    → k.created_at + p.max_key_age < now
    → should_rotate_key p now k ≡ true
unfolding should_rotate_key
past_age p now k on limit past = ground (arith, on, limit, past)

-- A key past the maximal age stays due: a rotation keeps the time of creation, so at any later time
-- the key that a successful rotation put in its place is to be rotated again.
pub should_rotate_key-rotate_key :
    (aes : BlockCipher) (c : Collection KeyDocument) (now later : ℕ) (bytes : Text)
    (iv : Option Text) (room : Text) (m : KeyManager c.State) (old new : Key)
    → lookup room m.keys ≡ some old
    → (rotate_key aes c now (some bytes) iv room m).0 ≡ ok tt
    → m.rotation_policy.enabled ≡ true
    → 0 < m.rotation_policy.max_key_age
    → old.created_at + m.rotation_policy.max_key_age < now
    → now ≤ later
    → lookup room (rotate_key aes c now (some bytes) iv room m).1.keys ≡ some new
    → should_rotate_key (rotate_key aes c now (some bytes) iv room m).1.rotation_policy later new
      ≡ true
should_rotate_key-rotate_key aes c now later bytes iv room m old new e h on limit past after e' =
    let r = rotated aes c now bytes iv room m old e h in
    let same : r.key ≡ new = ground (arith, r.cached, e') in
    rw (r.same_policy, ← same)
      (past_age m.rotation_policy later r.key on limit
        (ground (arith, r.same_creation, past, after)))
