-- ===== src/Security/KeyStore.antt =====
-- internal/security/keymanager/persistence.go: room keys in the collection `encryption_keys`.
pub mod Saving
use chat_gateway.Prelude.{
  ◌+◌, List, ℕ, Option, none, some, Bool, true, false, not, ◌&&◌, ltb, ◌==◌, if◌then◌else◌, Result,
  ok, err,
}
use chat_gateway.Prelude.Text.{Text, text_eq}
use chat_gateway.Storage.Collection.{Collection, Found, missing, found, failed}

pub record KeyDocument : Type 0 where
  pub room_id : Text
  pub key_version : ℕ
  pub encrypted_key : Text
  pub created_at : ℕ
  pub rotated_at : ℕ
  pub is_active : Bool
  pub expires_at : ℕ

pub data StoreError : Type 0 where
  find_failed : StoreError

-- The filters of the queries.
abbrev pub other_active : KeyDocument → KeyDocument → Bool
other_active doc d =
    text_eq d.room_id doc.room_id && d.is_active && not (d.key_version == doc.key_version)

abbrev pub same_version : KeyDocument → KeyDocument → Bool
same_version doc d = text_eq d.room_id doc.room_id && (d.key_version == doc.key_version)

abbrev pub active_in : Text → KeyDocument → Bool
active_in room d = text_eq d.room_id room && d.is_active

abbrev pub expired : ℕ → KeyDocument → Bool
expired now d = ltb d.expires_at now && not d.is_active

abbrev pub deactivate : KeyDocument → KeyDocument
deactivate d = record d { is_active = false }

module _ (c : Collection KeyDocument) where
  -- `if doc.IsActive { UpdateMany … }`
  unfoldable pub deactivate_if : Bool → KeyDocument → c.State → c.State × Bool
  deactivate_if true doc s = c.update_many (other_active doc) deactivate s
  deactivate_if false doc s = (s, true)

  -- The new document is written only if the update before it succeeds.
  unfoldable pub save_key_with_context : KeyDocument → c.State → c.State × Bool
  unfolding deactivate_if
  save_key_with_context doc s =
      let (s', done) = deactivate_if doc.is_active doc s in
      if done then c.replace_one (same_version doc) doc s' else (s', false)

  -- In a transaction if that works, else without.
  unfoldable pub save_key : KeyDocument → c.State → c.State × Bool
  save_key doc s =
      let (s', done) = c.with_transaction (save_key_with_context doc) s in
      if c.start_session s
      then if done then (s', true) else save_key_with_context doc s'
      else save_key_with_context doc s

  abbrev find_result : Found KeyDocument → Result StoreError (Option KeyDocument)
  find_result missing = ok none
  find_result (found d) = ok (some d)
  find_result failed = err find_failed

  unfoldable pub find_one_key :
      (KeyDocument → Bool) → c.State → Result StoreError (Option KeyDocument)
  find_one_key f s = find_result (c.find_one f s)

  unfoldable pub get_active_key : Text → c.State → Result StoreError (Option KeyDocument)
  unfolding find_one_key
  get_active_key room s = find_one_key (active_in room) s

  unfoldable pub get_key_by_version : Text → ℕ → c.State → Result StoreError (Option KeyDocument)
  unfolding find_one_key
  get_key_by_version room version s =
      find_one_key (λ d. text_eq d.room_id room && (d.key_version == version)) s

  unfoldable pub delete_expired_keys : ℕ → c.State → c.State × Bool
  delete_expired_keys now s = c.delete_many (expired now) s

  -- All versions of a room's key, the newest first.
  unfoldable pub get_all_keys : Text → c.State → Option (List KeyDocument)
  get_all_keys room s = c.find (λ d. text_eq d.room_id room) (λ d. d.key_version) s

  -- `$lt: now - rotationInterval`; the order is the server's.
  unfoldable pub get_keys_to_rotate : ℕ → ℕ → c.State → Option (List KeyDocument)
  get_keys_to_rotate now interval s =
      c.find (λ d. d.is_active && ltb (d.rotated_at + interval) now) (λ d. 0) s
