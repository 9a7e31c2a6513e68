-- ===== src/Security/KeyManager/Upkeep/Loading.antt =====
-- key_manager_v2.go, `LoadAllKeys`: the keys that a load puts into the cache.
use chat_gateway.Prelude.{
  ℕ, ◌≡◌, ◌∙◌, refl, ap, sym, Option, not, List, [], ◌∷◌, ◌++◌, map, keep, ok, append_assoc,
  append-nil, if◌then◌else◌, Bool-cases, Option-cases, inl, inr, arith,
}
use chat_gateway.Prelude.Text.{Text}
use chat_gateway.Prelude.Dict.{lookup, lookup-insert_self}
use chat_gateway.Storage.Collection.{Collection}
use chat_gateway.Security.Cipher.{BlockCipher}
use chat_gateway.Security.KeyStore.{KeyDocument}
use chat_gateway.Security.KeyManager.{KeyManager, Key, entries_of, decrypt_room_key}
use chat_gateway.Security.KeyManager.Upkeep.{load_document, load_documents}

abbrev pub archive : {S : Type 0} → Text → KeyManager S → List ℕ
archive room m = map (λ k. k.version) (entries_of (lookup room m.old_keys))

abbrev pub inactive : List KeyDocument → List ℕ
inactive docs = map (λ d. d.key_version) (keep (λ d. not d.is_active) docs)

map-append :
    {A : Type 0} {B : Type 0} (f : A → B) (xs ys : List A) → map f (xs ++ ys) ≡ map f xs ++ map f ys
map-append f [] ys = refl
map-append f (x ∷ xs) ys = ap (◌∷◌ (f x)) (map-append f xs ys)

next_inactive :
    (d : KeyDocument) (docs : List KeyDocument)
    → (if d.is_active then [] else d.key_version ∷ []) ++ inactive docs ≡ inactive (d ∷ docs)
next_inactive d docs = ground arith

module _ (aes : BlockCipher) (c : Collection KeyDocument) (room : Text) where
  archive-load_document :
      (doc : KeyDocument) (bytes : Text) (m : KeyManager c.State)
      → archive room (load_document aes c room doc bytes m)
        ≡ archive room m ++ (if doc.is_active then [] else doc.key_version ∷ [])
  unfolding load_document
  archive-load_document doc bytes m = elim (Bool-cases doc.is_active) [
    | inl e ↦ rw (e, load_document) (sym (append-nil (archive room m)))
    | inr e ↦
        rw (e, load_document)
          (ap (λ (o : Option (List Key)). map (λ k. k.version) (entries_of o))
              (lookup-insert_self room _ m.old_keys)
            ∙ map-append (λ (k : Key). k.version) (entries_of (lookup room m.old_keys)) _)
  ]

  -- A load that reports no error appends the versions of the room's inactive keys to its archive in
  -- the order of the documents.
  pub archive-load_documents :
      (docs : List KeyDocument) (m : KeyManager c.State)
      → (load_documents aes c room docs m).0 ≡ ok tt
      → archive room (load_documents aes c room docs m).1 ≡ archive room m ++ inactive docs
  unfolding load_documents
  archive-load_documents [] m h = sym (append-nil (archive room m))
  archive-load_documents (d ∷ docs) m h =
      elim (Option-cases (decrypt_room_key aes m.master_key d.encrypted_key)) [
        | inl e ↦ let h' = rw (e, load_documents) at h in absurd ground arith
        | inr (bytes, e) ↦
            rw (e, load_documents)
              (archive-load_documents docs (load_document aes c room d bytes m)
                  (rw (e, load_documents) at h)
                ∙ ap (λ (vs : List ℕ). vs ++ inactive docs) (archive-load_document d bytes m)
                ∙ append_assoc (archive room m) _ (inactive docs)
                ∙ ap (λ (vs : List ℕ). archive room m ++ vs) (next_inactive d docs))
      ]
