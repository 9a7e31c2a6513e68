-- ===== src/Start/Boot/Rotation.antt =====
-- main.go: the automatic rotation of a process that has started. `StartAutoRotation` runs its loop,
-- but the policy that the loop asks stays as the manager is made, off: no code of the program sets it.
use chat_gateway.Prelude.{
  ℕ, ◌≡◌, ◌∙◌, refl, subst, ap, Option, none, some, Bool, false, ◌&&◌, List, [], ◌∷◌, Bool-cases,
  Option-cases, Result-cases, ok, inl, inr, ltb, length, take,
}
use chat_gateway.Prelude.Text.{Text, text_eq}
use chat_gateway.Prelude.Dict.{Dict, lookup}
use chat_gateway.Storage.Collection.{Collection}
use chat_gateway.Security.Cipher.{BlockCipher}
use chat_gateway.Security.KeyStore.{KeyDocument, save_key, get_active_key}
use chat_gateway.Security.KeyManager.{
  KeyManager, Key, RotationPolicy, active_key, should_rotate_key, encrypt_room_key, persist_new,
  create_room_key, load_key, slow_path, get_or_create_room_key, document,
}
use chat_gateway.Security.KeyManager.Upkeep.{due_rooms, rotate_rooms, check_and_rotate_keys}
use chat_gateway.Security.MessageEncryption.{
  MessageEncryption, Inputs, new_message_encryption, encrypt_with, encrypt_message, decrypt_with,
  decrypt_enabled, decrypt_message,
}
use chat_gateway.Security.AesCtr.{plaintext_prefix, encrypted_prefix}
use chat_gateway.Start.Boot.{Surroundings, Services, boot}
use chat_gateway.Start.Boot.Encrypted.{Fits, plain, keyed, Started, boot-Started}

-- A message that the service encrypts or decrypts.
pub data Use : Type 0 where
  encrypts decrypts : Inputs → Text → Text → Use

module _ (aes : BlockCipher) (c : Collection KeyDocument) where
  abbrev pub use_one : Use → MessageEncryption c.State → MessageEncryption c.State
  use_one (encrypts i content room) e = (encrypt_message aes c i content room e).1
  use_one (decrypts i content room) e = (decrypt_message aes c i content room e).1

  abbrev pub use_all : List Use → MessageEncryption c.State → MessageEncryption c.State
  use_all [] e = e
  use_all (u ∷ us) e = use_all us (use_one u e)

  policy-persist_new :
      (now : ℕ) (room bytes : Text) (value cached : ℕ) (encrypted : Option Text)
      (m : KeyManager c.State)
      → (persist_new aes c now room bytes value cached encrypted m).1.rotation_policy
        ≡ m.rotation_policy
  unfolding persist_new
  policy-persist_new now room bytes value cached none m = refl
  policy-persist_new now room bytes value cached (some encrypted) m =
      elim (Bool-cases
        (save_key c (document aes c room 1 encrypted now now m.rotation_policy.max_key_age)
          m.store).1) [ inl e ↦ rw e refl | inr e ↦ rw e refl ]

  policy-create_room_key :
      (now : ℕ) (entropy iv : Option Text) (room : Text) (m : KeyManager c.State)
      → (create_room_key aes c now entropy iv room m).1.rotation_policy ≡ m.rotation_policy
  unfolding create_room_key
  policy-create_room_key now none iv room m =
      elim (Option-cases (active_key (lookup room m.keys))) [
        | inl e ↦ rw (e, create_room_key) refl
        | inr (k, e) ↦ rw (e, create_room_key) refl
      ]
  policy-create_room_key now (some bytes) iv room m =
      elim (Option-cases (active_key (lookup room m.keys))) [
        | inl e ↦
            rw (e, create_room_key)
              (policy-persist_new now room bytes _ _ (encrypt_room_key aes m.master_key iv bytes) _)
        | inr (k, e) ↦ rw (e, create_room_key) refl
      ]

  policy-load_key :
      (room : Text) (doc : KeyDocument) (bytes : Option Text) (m : KeyManager c.State)
      → (load_key aes c room doc bytes m).1.rotation_policy ≡ m.rotation_policy
  unfolding load_key
  policy-load_key room doc none m = refl
  policy-load_key room doc (some bytes) m = refl

  policy-slow_path :
      (now : ℕ) (entropy iv : Option Text) (room : Text) (m : KeyManager c.State)
      → (slow_path aes c now entropy iv room m).1.rotation_policy ≡ m.rotation_policy
  unfolding slow_path
  policy-slow_path now entropy iv room m = elim (Option-cases (active_key (lookup room m.keys))) [
    | inr (k, e) ↦ rw (e, slow_path) refl
    | inl e ↦ elim (Result-cases (get_active_key c room m.store)) [
      | inr (x, g) ↦ rw (e, g, slow_path) refl
      | inl (found, g) ↦ elim (Option-cases found) [
        | inl n ↦ rw (e, g, n, slow_path) (policy-create_room_key now entropy iv room m)
        | inr (doc, n) ↦ rw (e, g, n, slow_path) (policy-load_key room doc _ m)
      ]
    ]
  ]

  policy-get_or_create_room_key :
      (now : ℕ) (entropy iv : Option Text) (room : Text) (m : KeyManager c.State)
      → (get_or_create_room_key aes c now entropy iv room m).1.rotation_policy ≡ m.rotation_policy
  unfolding get_or_create_room_key
  policy-get_or_create_room_key now entropy iv room m = elim (Bool-cases (text_eq room [])) [
    | inl b ↦ rw b refl
    | inr b ↦ elim (Option-cases (active_key (lookup room m.keys))) [
      | inr (k, e) ↦ rw (b, e, get_or_create_room_key) refl
      | inl e ↦ rw (b, e, get_or_create_room_key) (policy-slow_path now entropy iv room m)
    ]
  ]

  abbrev OffIn : Option (KeyManager c.State) → Type 0
  OffIn none = Unit {0}
  OffIn (some km) = km.rotation_policy.enabled ≡ false

  encrypt_message-off :
      (i : Inputs) (content room : Text) (e : MessageEncryption c.State)
      → OffIn e.key_manager
      → OffIn (encrypt_message aes c i content room e).1.key_manager
  unfolding encrypt_message encrypt_with
  encrypt_message-off i content room e h = elim (Bool-cases e.enabled) [
    | inr b ↦ rw b h
    | inl b ↦ elim (Option-cases e.key_manager) [
      | inl k ↦ rw (b, k, encrypt_message) h
      | inr (km, k) ↦
          rw (b, k, encrypt_message)
            (ap (λ (p : RotationPolicy). p.enabled)
                (policy-get_or_create_room_key i.now i.key_entropy i.key_iv room km)
              ∙ subst OffIn k h)
    ]
  ]

  decrypt_enabled-off :
      (i : Inputs) (content room : Text) (km : KeyManager c.State)
      → km.rotation_policy.enabled ≡ false
      → OffIn (decrypt_enabled aes c i content room km).1.key_manager
  unfolding decrypt_enabled decrypt_with
  decrypt_enabled-off i content room km h =
      elim (Bool-cases (ltb 10 (length content) && text_eq (take 10 content) plaintext_prefix)) [
        | inl a ↦ rw a h
        | inr a ↦
            elim (Bool-cases
              (ltb 10 (length content) && text_eq (take 10 content) encrypted_prefix)) [
                | inl b ↦ rw (a, b) h
                | inr b ↦
                    rw (a, b)
                      (ap (λ (p : RotationPolicy). p.enabled)
                          (policy-get_or_create_room_key i.now i.key_entropy i.key_iv room km)
                        ∙ h)
              ]
      ]

  decrypt_message-off :
      (i : Inputs) (content room : Text) (e : MessageEncryption c.State)
      → OffIn e.key_manager
      → OffIn (decrypt_message aes c i content room e).1.key_manager
  unfolding decrypt_message
  decrypt_message-off i content room e h = elim (Bool-cases e.enabled) [
    | inr b ↦
        elim (Bool-cases (
          ltb (length plaintext_prefix) (length content)
          && text_eq (take (length plaintext_prefix) content) plaintext_prefix)) [
            | inl a ↦ rw (b, a) h
            | inr a ↦ rw (b, a) h
          ]
    | inl b ↦ elim (Option-cases e.key_manager) [
      | inl k ↦ rw (b, k, decrypt_message) h
      | inr (km, k) ↦
          rw (b, k, decrypt_message) (decrypt_enabled-off i content room km (subst OffIn k h))
    ]
  ]

  use_all-off :
      (us : List Use) (e : MessageEncryption c.State)
      → OffIn e.key_manager
      → OffIn (use_all us e).key_manager
  use_all-off [] e h = h
  use_all-off (encrypts i content room ∷ us) e h =
      use_all-off us _ (encrypt_message-off i content room e h)
  use_all-off (decrypts i content room ∷ us) e h =
      use_all-off us _ (decrypt_message-off i content room e h)

  -- No key is due where the policy is off.
  due_rooms-off :
      (p : RotationPolicy) (now : ℕ) (ks : Dict Key) → p.enabled ≡ false → due_rooms p now ks ≡ []
  unfolding due_rooms should_rotate_key
  due_rooms-off p now [] h = refl
  due_rooms-off p now ((room, k) ∷ ks) h = rw h (due_rooms-off p now ks h)

  check_and_rotate_keys-off :
      (now : ℕ) (entropy iv : Text → Option Text) (km : KeyManager c.State)
      → km.rotation_policy.enabled ≡ false
      → check_and_rotate_keys aes c now entropy iv km ≡ km
  unfolding check_and_rotate_keys rotate_rooms
  check_and_rotate_keys-off now entropy iv km h =
      rw (due_rooms-off km.rotation_policy now km.keys h) refl

  fits_off :
      (on : Bool) (manager : Option (KeyManager c.State))
      → Fits on manager
      → OffIn (new_message_encryption on manager).key_manager
  unfolding new_message_encryption
  fits_off on none (plain off) = tt
  fits_off on (some km) (keyed k is_on fresh) = fresh.off

  Started-off :
      (o : Surroundings c.State) (v : Services c.State)
      → Started o v
      → OffIn v.encryption.key_manager
  unfolding new_message_encryption
  Started-off o v s = rw s.encrypts (fits_off s.settings.encryption s.manager s.fits)

  -- In a process that has started, whether or not the automatic rotation runs, after any messages
  -- that it has encrypted and decrypted, a round of the rotation changes nothing at any time: the
  -- rotation that the process starts never rotates a key.
  pub never_rotates :
      (o : Surroundings c.State) (v : Services c.State) (us : List Use) (km : KeyManager c.State)
      (now : ℕ) (entropy iv : Text → Option Text)
      → boot o ≡ ok v
      → (use_all us v.encryption).key_manager ≡ some km
      → check_and_rotate_keys aes c now entropy iv km ≡ km
  never_rotates o v us km now entropy iv h there =
      let off = use_all-off us v.encryption (Started-off o v (boot-Started o v h)) in
      check_and_rotate_keys-off now entropy iv km (subst OffIn there off)
