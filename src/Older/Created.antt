-- ===== src/Older/Created.antt =====
-- The older handlers: a message that was made, looked up under the id of its document.
use chat_gateway.Prelude.{
  false, none, ℕ, ◌≡◌, ◌∙◌, inl, inr, refl, ap, Option, some, true, [], ◌∷◌, ◌++◌, arith,
  Bool-cases, Result-cases,
}
use chat_gateway.Prelude.Text.{Text, text_eq}
use chat_gateway.Storage.Collection.{Collection, Found, missing, found, failed}
use chat_gateway.Storage.MessageStore.{ObjectIds}
use chat_gateway.Older.Requests.{CreateMessageRequest, validate_create_message_request}
use chat_gateway.Older.Store.{
  given, DocumentId, generated, Message, Document, has_id, stored, milliseconds, decoded,
  decoded_found, create, get_by_id,
}
use chat_gateway.Older.Handlers.{not_found, created, record_of, create_message, get_message}

module _ (ids : ObjectIds) (text_of : ℕ → Option Text) (c : Collection Document) where
  -- The message of the answer, as the clock and the form make it.
  abbrev pub made : ℕ → ℕ → CreateMessageRequest → Message
  made now later r = record (record_of r) { created_at = now; updated_at = later }

  create_message_ok :
      (now later new : ℕ) (r : CreateMessageRequest) (s : c.State) (m : Message)
      → (create_message ids text_of c now later new (some r) s).0 ≡ created m
      → (m ≡ made now later r)
        × (c.contents (create_message ids text_of c now later new (some r) s).1
            ≡ c.contents s ++ stored new (made now later r) ∷ [])
  unfolding create_message create
  create_message_ok now later new r s m h =
      elim (Result-cases (validate_create_message_request r)) [
        | inr (e, v) ↦ absurd (ground (arith, h, v))
        | inl (checked, v) ↦ elim (Bool-cases (c.insert_one (stored new (made now later r)) s).1) [
          | inr refused ↦ absurd (ground (arith, h, v, refused))
          | inl done ↦
              let h' = rw (v, done, create_message) at h in
              (
                ground (arith, h'),
                rw (v, done, create_message) (c.inserted (stored new (made now later r)) s done),
              )
        ]
      ]

  -- Every document with the number for its id is refused, where the driver refuses the number.
  refused_number :
      (n : ℕ) (id : DocumentId) (m : Message)
      → text_of n ≡ none
      → has_id n (record { object_id = id; fields = m }) ≡ true
      → decoded ids text_of c (record { object_id = id; fields = m }) ≡ none
  refused_number n (given id) m e h = cc
  refused_number n (generated k) m e h =
      let number : k ≡ n = ground (arith, h) in
      let refused : text_of k ≡ none = ap text_of number ∙ e in rw (refused, decoded) refl

  refused_found :
      (n : ℕ) (f : Found Document)
      → ((d : Document) → f ≡ found d → has_id n d ≡ true)
      → text_of n ≡ none
      → decoded_found ids text_of c f ≡ none
  refused_found n missing has e = refl
  refused_found n (found d) has e = refused_number n d.object_id d.fields e (has d refl)
  refused_found n failed has e = refl

  nothing_found :
      (n : ℕ) (s : c.State)
      → text_of n ≡ none
      → decoded_found ids text_of c (c.find_one (has_id n) s) ≡ none
  nothing_found n s e =
      refused_found n (c.find_one (has_id n) s) (λ d f. (c.find_found (has_id n) d s f).0) e

  -- Where the driver makes no text of the number that it gives a new document, as it does by default,
  -- and the number's digits are not empty: a message that was made without an error is answered with an
  -- empty id and with the times of the call, and stored under the number with its form's fields, its
  -- times cut to milliseconds; but a lookup by the number's digits answers that there is no such message.
  pub get_message-create_message :
      (now later new : ℕ) (r : CreateMessageRequest) (s : c.State) (m : Message)
      → text_of new ≡ none
      → text_eq (ids.hex new) [] ≡ false
      → (create_message ids text_of c now later new (some r) s).0 ≡ created m
      → (m ≡ made now later r)
        × (c.contents (create_message ids text_of c now later new (some r) s).1
            ≡ c.contents s
              ++ record {
                object_id = generated new;
                fields = record (record_of r) {
                  created_at = milliseconds now;
                  updated_at = milliseconds later;
                };
              }
                ∷ [])
        × (get_message ids text_of c
              (ids.hex new)
              (create_message ids text_of c now later new (some r) s).1
            ≡ not_found)
  unfolding get_message get_by_id text_eq
  get_message-create_message now later new r s m refused full h =
      let (same, grown) = create_message_ok now later new r s m h in
      let s' = (create_message ids text_of c now later new (some r) s).1 in
      (same, grown, rw (full, ids.from_hex-hex new, nothing_found new s' refused, get_message) refl)
