-- ===== src/Security/KeyManager/Rotation.antt =====
-- key_manager_v2.go, `rotateKey` and `cleanupOldKeys`: what a rotation leaves in memory and in the
-- store.
use chat_gateway.Prelude.{
  ℕ, ◌+◌, ◌-◌, drop, ◌++◌, ◌∙◌, ◌≡◌, refl, ap, min, inl, inr, Option, none, some, List, [], ◌∷◌,
  length, length-append, length-drop, ok, arith, Bool-cases,
}
use chat_gateway.Prelude.Text.{Text}
use chat_gateway.Prelude.Dict.{lookup, lookup-insert_self}
use chat_gateway.Storage.Collection.{Collection}
use chat_gateway.Security.Cipher.{BlockCipher}
use chat_gateway.Security.KeyStore.{KeyDocument, save_key}
use chat_gateway.Security.KeyStore.Saving.{saved, contents-save_key}
use chat_gateway.Security.KeyManager.{
  KeyManager, Key, active, archived, rotate_key, persist_rotated, document, fresh_key, entries_of,
  cleanup_old_keys, encrypt_room_key,
}
use chat_gateway.Security.KeyManager.Buffers.{alloc, wipe, wipe_both, zeros, zeros-length}

length-cleanup_old_keys :
    (n : ℕ) (ks : List Key) → length (cleanup_old_keys n ks) ≡ min (length ks) n
unfolding cleanup_old_keys
length-cleanup_old_keys n ks = ground (arith, length-drop (length ks - n) ks)

cleanup_old_keys-drop : (n : ℕ) (ks : List Key) → cleanup_old_keys n ks ≡ drop (length ks - n) ks
unfolding cleanup_old_keys
cleanup_old_keys-drop n ks = ground arith

archive_after :
    (n : ℕ) (ks : List Key) (k : Key)
    → cleanup_old_keys n (ks ++ k ∷ []) ≡ drop (length ks + 1 - n) (ks ++ k ∷ [])
archive_after n ks k =
    cleanup_old_keys-drop n (ks ++ k ∷ [])
    ∙ ap (λ l. drop (l - n) (ks ++ k ∷ [])) (length-append ks (k ∷ []))

module _ (aes : BlockCipher) (c : Collection KeyDocument) (now : ℕ) (bytes : Text)
    (iv : Option Text) (room : Text) (m : KeyManager c.State) where
  -- The state that a successful rotation of the key `old` leaves.
  pub record IsRotated (old : Key) (m' : KeyManager c.State) : Type 0 where
    pub key : Key
    pub cached : lookup room m'.keys ≡ some key
    pub next_version : key.version ≡ old.version + 1
    pub is_active : key.status ≡ active
    pub same_creation : key.created_at ≡ old.created_at
    pub same_policy : m'.rotation_policy ≡ m.rotation_policy
    pub new_bytes : m'.heap.cell key.value ≡ zeros (length bytes)
    pub old_bytes : m'.heap.cell old.value ≡ zeros (length (m'.heap.cell old.value))
    pub encrypted : Text
    pub sealed : encrypt_room_key aes m.master_key iv bytes ≡ some encrypted
    pub stored :
        c.contents m'.store
        ≡ saved
            (document aes c room
              (old.version + 1)
              encrypted
              old.created_at
              now
              m.rotation_policy.max_key_age)
            (c.contents m.store)
    pub archive :
        entries_of (lookup room m'.old_keys)
        ≡ drop
            (length (entries_of (lookup room m.old_keys)) + 1 - m.rotation_policy.keep_old_keys)
            (entries_of (lookup room m.old_keys) ++ record old { status = archived } ∷ [])
    pub archived_count :
        length (entries_of (lookup room m'.old_keys))
        ≡ min (length (entries_of (lookup room m.old_keys)) + 1) m.rotation_policy.keep_old_keys

  IsRotated-persist_rotated :
      (old : Key) (sealed : Option Text)
      → encrypt_room_key aes m.master_key iv bytes ≡ sealed
      → (persist_rotated aes c now room old
          (alloc bytes m.heap).0
          sealed
          (record m { heap = (alloc bytes m.heap).1 })).0
        ≡ ok tt
      → IsRotated old
          (persist_rotated aes c now room old
            (alloc bytes m.heap).0
            sealed
            (record m { heap = (alloc bytes m.heap).1 })).1
  unfolding persist_rotated alloc wipe
  IsRotated-persist_rotated old none e h = cc
  IsRotated-persist_rotated old (some x) e h =
      let doc : KeyDocument =
        document aes c room (old.version + 1) x old.created_at now m.rotation_policy.max_key_age in
      elim (Bool-cases (save_key c doc m.store).1) [
        | inl k ↦ rw k (record {
          key = fresh_key aes c room m.heap.next old.created_at now (old.version + 1);
          cached = lookup-insert_self room _ m.keys;
          next_version = refl;
          is_active = refl;
          same_creation = refl;
          same_policy = refl;
          new_bytes = (wipe_both m.heap.next old.value (alloc bytes m.heap).1).0 ∙ ground (arith);
          old_bytes = zeros-length _ _ (wipe_both m.heap.next old.value (alloc bytes m.heap).1).1;
          encrypted = x;
          sealed = e;
          stored = contents-save_key c doc m.store k;
          archive =
              ap entries_of (lookup-insert_self room _ m.old_keys)
              ∙ archive_after m.rotation_policy.keep_old_keys (entries_of (lookup room m.old_keys))
                  (record old { status = archived });
          archived_count =
              ap (λ (o : Option (List Key)). length (entries_of o))
                (lookup-insert_self room _ m.old_keys)
              ∙ omega (
                arith,
                length-cleanup_old_keys m.rotation_policy.keep_old_keys _,
                length-append (entries_of (lookup room m.old_keys))
                    (record old { status = archived } ∷ []),
              );
        })
        | inr k ↦ ground (arith, k)
      ]

  -- A rotation that reports no error saves the new random key, encrypted, as the next version. The
  -- archive is then the last ones, as many as the policy keeps, of the earlier archive with the old
  -- key at its end. But in memory the new key's bytes, like the old one's, are all 0.
  pub rotated :
      (old : Key)
      → lookup room m.keys ≡ some old
      → (rotate_key aes c now (some bytes) iv room m).0 ≡ ok tt
      → IsRotated old (rotate_key aes c now (some bytes) iv room m).1
  unfolding rotate_key
  rotated old e h =
      rw (e, rotate_key)
        (IsRotated-persist_rotated old (encrypt_room_key aes m.master_key iv bytes) refl
          (rw (e, rotate_key) at h))
