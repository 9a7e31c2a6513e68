-- ===== src/Security/KeyStore/Saving.antt =====
-- persistence.go, `SaveKey` and `DeleteExpiredKeys`: what they leave in the collection.
use chat_gateway.Prelude.{
  ℕ, ◌≡◌, refl, ap, ◌∙◌, inl, inr, Bool, true, false, not, ◌||◌, List, [], ◌∷◌, keep, all, ◌==◌,
  if◌then◌else◌, arith, Bool-cases,
}
use chat_gateway.Prelude.Text.{text_eq, text_eq_refl}
use chat_gateway.Storage.Collection.{Collection, In, upsert, update_all}
use chat_gateway.Security.KeyStore.{
  deactivate_if, KeyDocument, other_active, same_version, active_in, expired, deactivate, save_key,
  save_key_with_context, delete_expired_keys,
}

-- The collection that a successful save leaves.
abbrev pub saved : KeyDocument → List KeyDocument → List KeyDocument
saved doc ds =
    upsert (same_version doc) doc
      (if doc.is_active then update_all (other_active doc) deactivate ds else ds)

-- If the document's room has an active key, it is the document's version.
abbrev pub only_version : KeyDocument → KeyDocument → Bool
only_version doc d = not (active_in doc.room_id d) || (d.key_version == doc.key_version)

update-only_version :
    (doc : KeyDocument) (ds : List KeyDocument)
    → all (only_version doc) (update_all (other_active doc) deactivate ds) ≡ true
update-only_version doc [] = refl
update-only_version doc (d ∷ ds) = ground (arith, update-only_version doc ds)

upsert-only_version :
    (doc : KeyDocument) (ds : List KeyDocument)
    → all (only_version doc) ds ≡ true
    → all (only_version doc) (upsert (same_version doc) doc ds) ≡ true
upsert-only_version doc [] h = ground arith
upsert-only_version doc (d ∷ ds) h = ground (arith, upsert-only_version doc ds)

pub In-upsert :
    (f : KeyDocument → Bool) (doc : KeyDocument) (ds : List KeyDocument) → In doc (upsert f doc ds)
In-upsert f doc [] = inl refl
In-upsert f doc (d ∷ ds) = elim (Bool-cases (f d)) [
  | inl e ↦ rw e (inl refl)
  | inr e ↦ rw e (inr (In-upsert f doc ds))
]

-- The documents of the other rooms.
abbrev pub elsewhere : KeyDocument → KeyDocument → Bool
elsewhere doc d = not (text_eq d.room_id doc.room_id)

upsert-elsewhere :
    (doc : KeyDocument) (ds : List KeyDocument)
    → keep (elsewhere doc) (upsert (same_version doc) doc ds) ≡ keep (elsewhere doc) ds
upsert-elsewhere doc [] = ground (arith, text_eq_refl doc.room_id)
upsert-elsewhere doc (d ∷ ds) = ground (arith, text_eq_refl doc.room_id, upsert-elsewhere doc ds)

update-elsewhere :
    (doc : KeyDocument) (ds : List KeyDocument)
    → keep (elsewhere doc) (update_all (other_active doc) deactivate ds) ≡ keep (elsewhere doc) ds
update-elsewhere doc [] = refl
update-elsewhere doc (d ∷ ds) = ground (arith, update-elsewhere doc ds)

module _ (c : Collection KeyDocument) (doc : KeyDocument) where
  contents-deactivate_if :
      (active : Bool) (s : c.State)
      → (deactivate_if c active doc s).1 ≡ true
      → c.contents (deactivate_if c active doc s).0
        ≡ (if active then update_all (other_active doc) deactivate (c.contents s) else c.contents s)
  unfolding deactivate_if
  contents-deactivate_if true s h = c.updated (other_active doc) deactivate s h
  contents-deactivate_if false s h = refl

  contents-written :
      (t : c.State × Bool)
      → (if t.1 then c.replace_one (same_version doc) doc t.0 else (t.0, false)).1 ≡ true
      → (t.1 ≡ true)
        × (c.contents (if t.1 then c.replace_one (same_version doc) doc t.0 else (t.0, false)).0
            ≡ upsert (same_version doc) doc (c.contents t.0))
  contents-written (t, true) h = (refl, c.replaced (same_version doc) doc t h)
  contents-written (t, false) h = cc

  contents-save_key_with_context :
      (s : c.State)
      → (save_key_with_context c doc s).1 ≡ true
      → c.contents (save_key_with_context c doc s).0 ≡ saved doc (c.contents s)
  unfolding save_key_with_context
  contents-save_key_with_context s h =
      let (done, e) = contents-written (deactivate_if c doc.is_active doc s) h in
      e ∙ ap (upsert (same_version doc) doc) (contents-deactivate_if doc.is_active s done)

  -- Whether the transaction works or the save falls back, a save that reports no error leaves what
  -- the update and the upsert make of the collection.
  pub contents-save_key :
      (s : c.State)
      → (save_key c doc s).1 ≡ true
      → c.contents (save_key c doc s).0 ≡ saved doc (c.contents s)
  unfolding save_key
  contents-save_key s h = elim (Bool-cases (c.start_session s)) [
    | inl e ↦
        let t : c.State × Bool = c.with_transaction (save_key_with_context c doc) s in
        elim (Bool-cases t.1) [
          | inl k ↦
              let (done, same) = c.committed (save_key_with_context c doc) s k in
              rw (e, k) (same ∙ contents-save_key_with_context s done)
          | inr k ↦
              rw (e, k)
                (contents-save_key_with_context t.0 (rw (e, k) at h)
                  ∙ ap (saved doc) (c.aborted (save_key_with_context c doc) s k))
        ]
    | inr e ↦ rw e (contents-save_key_with_context s (rw e at h))
  ]

module _ (c : Collection KeyDocument) (doc : KeyDocument) (s : c.State) where
  -- Saving an active key without an error leaves it in the collection and leaves its room with no
  -- other active version; the documents of the other rooms stay as they are.
  pub save_key_active :
      doc.is_active ≡ true
      → (save_key c doc s).1 ≡ true
      → In doc (c.contents (save_key c doc s).0)
        × (all (only_version doc) (c.contents (save_key c doc s).0) ≡ true)
        × (keep (elsewhere doc) (c.contents (save_key c doc s).0)
            ≡ keep (elsewhere doc) (c.contents s))
  save_key_active active h =
      let left : c.contents (save_key c doc s).0
          ≡ upsert (same_version doc) doc
              (update_all (other_active doc) deactivate (c.contents s)) =
        contents-save_key c doc s h
        ∙ ap
            (λ (b : Bool).
              upsert (same_version doc) doc (
                if b
                then update_all (other_active doc) deactivate (c.contents s)
                else c.contents s))
            active in
      rw left (
        In-upsert (same_version doc) doc _,
        upsert-only_version doc _ (update-only_version doc (c.contents s)),
        upsert-elsewhere doc _ ∙ update-elsewhere doc (c.contents s),
      )

keep-expired-active :
    (now : ℕ) (ds : List KeyDocument)
    → keep (λ d. d.is_active) (keep (λ d. not (expired now d)) ds) ≡ keep (λ d. d.is_active) ds
keep-expired-active now [] = refl
keep-expired-active now (d ∷ ds) = ground (arith, keep-expired-active now ds)

-- Deleting the expired keys deletes no active key, however old it is.
pub delete_expired_keys-active :
    (c : Collection KeyDocument) (now : ℕ) (s : c.State)
    → (delete_expired_keys c now s).1 ≡ true
    → keep (λ d. d.is_active) (c.contents (delete_expired_keys c now s).0)
      ≡ keep (λ d. d.is_active) (c.contents s)
unfolding delete_expired_keys
delete_expired_keys-active c now s h =
    ap (keep (λ d. d.is_active)) (c.deleted (expired now) s h)
    ∙ keep-expired-active now (c.contents s)
