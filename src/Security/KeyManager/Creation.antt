-- ===== src/Security/KeyManager/Creation.antt =====
-- key_manager_v2.go: a new room key, from its creation over the store to the next start.
use chat_gateway.Prelude.{
  subst, ℕ, ◌+◌, ◌≡◌, ◌≢◌, ◌⊎◌, inl, inr, refl, ap, ◌∙◌, Option, none, some, Bool, true, false,
  List, [], ◌∷◌, any, if◌then◌else◌, Result, ok, arith, Bool-cases,
}
use chat_gateway.Prelude.Text.{Text}
use chat_gateway.Prelude.Dict.{lookup, lookup-insert_self}
use chat_gateway.Storage.Collection.{Collection, In, upsert, update_all}
use chat_gateway.Security.Cipher.{BlockCipher}
use chat_gateway.Security.KeyStore.{
  KeyDocument, active_in, same_version, other_active, deactivate, save_key,
}
use chat_gateway.Security.KeyStore.Saving.{saved, contents-save_key}
use chat_gateway.Security.KeyManager.{
  KeyManager, Key, KeyError, create_room_key, persist_new, document, fresh_key, active_key,
  encrypt_room_key,
}
use chat_gateway.Security.KeyManager.Buffers.{alloc, wipe}

-- Where no key of the room is active, a save changes no document.
update_none :
    (doc : KeyDocument) (ds : List KeyDocument)
    → any (active_in doc.room_id) ds ≡ false
    → update_all (other_active doc) deactivate ds ≡ ds
update_none doc [] h = refl
update_none doc (d ∷ ds) h = ground (arith, update_none doc ds)

pub In-inactive :
    (room : Text) (d : KeyDocument) (ds : List KeyDocument)
    → any (active_in room) ds ≡ false
    → In d ds
    → active_in room d ≡ false
In-inactive room d [] h m = absurd m
In-inactive room d (x ∷ ds) h (inl e) = ground (arith, ap (active_in room) e)
In-inactive room d (x ∷ ds) h (inr m) = In-inactive room d ds (ground arith) m

upsert-In :
    (f : KeyDocument → Bool) (d doc : KeyDocument) (ds : List KeyDocument)
    → In d (upsert f doc ds)
    → (d ≡ doc) ⊎ In d ds
upsert-In f d doc [] m = m
upsert-In f d doc (x ∷ ds) m = elim (Bool-cases (f x)) [
  | inl e ↦
      let m' : (d ≡ doc) ⊎ In d ds = rw e at m in elim m' [ inl p ↦ inl p | inr q ↦ inr (inr q) ]
  | inr e ↦ let m' : (d ≡ x) ⊎ In d (upsert f doc ds) = rw e at m in later m' (upsert-In f d doc ds)
]
  where
    later :
        (d ≡ x) ⊎ In d (upsert f doc ds)
        → (In d (upsert f doc ds) → (d ≡ doc) ⊎ In d ds)
        → (d ≡ doc) ⊎ ((d ≡ x) ⊎ In d ds)
    later (inl p) ih = inr (inl p)
    later (inr q) ih = elim (ih q) [ inl p ↦ inl p | inr r ↦ inr (inr r) ]

-- Then the new document is the only active one of its room.
pub only_active :
    (doc d : KeyDocument) (ds : List KeyDocument)
    → doc.is_active ≡ true
    → any (active_in doc.room_id) ds ≡ false
    → In d (saved doc ds)
    → active_in doc.room_id d ≡ true
    → d ≡ doc
only_active doc d ds active none_active m a =
    let same : (if doc.is_active then update_all (other_active doc) deactivate ds else ds) ≡ ds =
      ap (λ (b : Bool). if b then update_all (other_active doc) deactivate ds else ds) active
      ∙ update_none doc ds none_active in
    let m' : In d (upsert (same_version doc) doc ds) =
      subst (λ (xs : List KeyDocument). In d (upsert (same_version doc) doc xs)) same m in
    elim (upsert-In (same_version doc) d doc ds m') [
      | inl p ↦ p
      | inr q ↦ cc (a, In-inactive doc.room_id d ds none_active q)
    ]

module _ (aes : BlockCipher) (c : Collection KeyDocument) (now : ℕ) (bytes iv room : Text)
    (m : KeyManager c.State) (a : ℕ) where
  -- What `create_room_key` does when it succeeds for a room that has no active key in the cache.
  pub record IsCreated (m' : KeyManager c.State) : Type 0 where
    pub returned : m'.heap.cell a ≡ bytes
    pub key : Key
    pub cached : lookup room m'.keys ≡ some key
    pub cached_bytes : m'.heap.cell key.value ≡ bytes
    pub own_copy : key.value ≢ a
    pub same_master : m'.master_key ≡ m.master_key
    pub encrypted : Text
    pub sealed : encrypt_room_key aes m.master_key (some iv) bytes ≡ some encrypted
    pub stored :
        c.contents m'.store
        ≡ saved
            (document aes c room 1 encrypted now now m.rotation_policy.max_key_age)
            (c.contents m.store)

  -- The manager with the new key's two buffers.
  abbrev allocated : KeyManager c.State
  allocated = record m { heap = (alloc bytes (alloc bytes m.heap).1).1 }

  persist : Option Text → Result KeyError ℕ × KeyManager c.State
  persist sealed =
      persist_new aes c now room bytes (alloc bytes m.heap).0 (alloc bytes (alloc bytes m.heap).1).0
        sealed allocated

  persisted :
      (sealed : Option Text)
      → encrypt_room_key aes m.master_key (some iv) bytes ≡ sealed
      → (persist sealed).0 ≡ ok a
      → IsCreated (persist sealed).1
  unfolding persist persist_new alloc wipe
  persisted none e h = cc
  persisted (some x) e h =
      let doc : KeyDocument = document aes c room 1 x now now m.rotation_policy.max_key_age in
      elim (Bool-cases (save_key c doc m.store).1) [
        | inl k ↦
            let copy : m.heap.next + 1 + 1 ≡ a = ground (arith, k) in
            rw k (record {
              returned = ground (arith, copy);
              key = fresh_key aes c room (m.heap.next + 1) now now 1;
              cached = lookup-insert_self room _ m.keys;
              cached_bytes = ground arith;
              own_copy = ground (arith, copy);
              same_master = refl;
              encrypted = x;
              sealed = e;
              stored = contents-save_key c doc m.store k;
            })
        | inr k ↦ ground (arith, k)
      ]

  pub created :
      active_key (lookup room m.keys) ≡ none
      → (create_room_key aes c now (some bytes) (some iv) room m).0 ≡ ok a
      → IsCreated (create_room_key aes c now (some bytes) (some iv) room m).1
  unfolding create_room_key persist
  created unknown h =
      rw (unknown, create_room_key)
        (persisted (encrypt_room_key aes m.master_key (some iv) bytes) refl
          (rw (unknown, create_room_key) at h))
