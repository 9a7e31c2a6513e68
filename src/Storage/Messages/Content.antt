-- ===== src/Storage/Messages/Content.antt =====
-- message.go, `GetByRoomID`: whose messages a page holds.
use mathlib.Core.List.{reverse, reverse_aux}
use chat_gateway.Prelude.{
  ℕ, ◌+◌, ◌≡◌, ◌⊎◌, refl, inl, inr, Option, none, some, Option-cases, true, List, [], ◌∷◌, keep,
  arith,
}
use chat_gateway.Prelude.Text.{Text, text_eq}
use chat_gateway.Storage.Collection.{In}
use chat_gateway.Storage.Paging.{Rfc3339, Page, page_of, process_pagination_result, cursor_time}
use chat_gateway.Storage.Paging.Cursors.{page_In}
use chat_gateway.Storage.Paging.Order.{In-keep, In-In-take}
use chat_gateway.Storage.Messages.{
  created, Message, MessageView, Limits, normalize_pagination_limit, build_message_filter,
  get_by_room_id,
}

In-reverse_aux :
    {D : Type 0} (x : D) (xs ys : List D) → In x (reverse_aux xs ys) → In x xs ⊎ In x ys
In-reverse_aux x [] ys h = inr h
In-reverse_aux x (a ∷ xs) ys h = elim (In-reverse_aux x xs (a ∷ ys) h) [
  | inl i ↦ inl (inr i)
  | inr (inl e) ↦ inl (inl e)
  | inr (inr i) ↦ inr i
]

In-reverse : {D : Type 0} (x : D) (xs : List D) → In x (reverse xs) → In x xs
In-reverse x xs h = elim (In-reverse_aux x xs [] h) [ inl i ↦ i | inr n ↦ absurd n ]

In-kept : {D : Type 0} (x : D) (xs : List D) → In x (keep (λ d. true) xs) → In x xs
In-kept x [] h = h
In-kept x (y ∷ ys) (inl e) = inl e
In-kept x (y ∷ ys) (inr i) = inr (In-kept x ys i)

room-build_message_filter :
    (time : Rfc3339) (room cursor : Text) (since until : Option ℕ) (m : Message)
    → build_message_filter time room cursor since until m ≡ true
    → text_eq m.room_id room ≡ true
unfolding build_message_filter
room-build_message_filter time room cursor since until m h =
    elim (Option-cases (cursor_time time cursor)) [
      | inl e ↦ let h' = rw (e, build_message_filter) at h in ground (arith, h')
      | inr (t, e) ↦ let h' = rw (e, build_message_filter) at h in ground (arith, h')
    ]

pub In-page_of :
    (time : Rfc3339) (n : ℕ) (answer : Option (List Message)) (page : Page Message) (m : Message)
    → page_of created time n answer ≡ some page
    → In m page.messages
    → (ms : List Message) × (answer ≡ some ms) × In m ms
In-page_of time n none page m h i = absurd cc
In-page_of time n (some ms) page m h i =
    let same : process_pagination_result created time ms n ≡ page = ground (arith, h) in
    (ms, refl, page_In created time n m ms (rw same i))

-- A message on a page is one of the room's.
pub In-get_by_room_id :
    (time : Rfc3339) (cfg : Option Limits) (c : MessageView) (room cursor : Text) (limit : ℕ)
    (since until : Option ℕ) (page : Page Message) (m : Message)
    → get_by_room_id time cfg c room limit cursor since until ≡ some page
    → In m page.messages
    → (text_eq m.room_id room ≡ true) × In m c.documents
unfolding get_by_room_id
In-get_by_room_id time cfg c room cursor limit since until page m h i =
    let f = build_message_filter time room cursor since until in
    let (ms, answered, i') = In-page_of time _ _ page m h i in
    let same = c.found_down f (normalize_pagination_limit cfg limit + 1) ms answered in
    let i'' =
      In-In-take (normalize_pagination_limit cfg limit + 1) m (keep f (reverse c.documents))
        (rw (← same) i') in
    let (passes, there) = In-keep (λ d. true) f m (reverse c.documents) (λ e. refl) i'' in
    (
      room-build_message_filter time room cursor since until m passes,
      In-reverse m c.documents (In-kept m (reverse c.documents) there),
    )
