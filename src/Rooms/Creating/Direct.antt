-- ===== src/Rooms/Creating/Direct.antt =====
-- grpc/server.go, `findExistingDirectChat`: which room `CreateRoom` answers with in place of a new one.
use chat_gateway.Prelude.{
  ◌≡◌, refl, ◌∙◌, inl, inr, Option, none, some, Option-cases, Bool, true, not, ◌&&◌, ◌||◌, List, [],
  ◌∷◌, all, length, ◌==◌, Bool-cases, arith,
}
use chat_gateway.Prelude.Text.{Text, bytes, text_eq}
use chat_gateway.Prelude.Dict.{Dict, lookup, insert, lookup-insert}
use chat_gateway.Storage.Paging.{Page}
use chat_gateway.Storage.ChatRoomStore.{ChatRoom, RoomMember, list_user_rooms}
use chat_gateway.Storage.ChatRoomStore
use chat_gateway.Rooms.{is_set, all_set, has_same_members}
use chat_gateway.Rooms.Readers.{has}
use chat_gateway.Rooms.World.{Platform, World, Moment, Notice, convert_room_to_grpc}
use chat_gateway.Rooms.Creating.{
  CreateRoomRequest, id_map, find_same, found_in, find_existing_direct_chat, existing_room,
  requested_room, create_new_room, create_room,
}

is_set-id_map :
    (id : Text) (seen : Dict Bool) (ids : List Text)
    → is_set (lookup id (id_map seen ids)) ≡ (is_set (lookup id seen) || has id ids)
unfolding id_map
is_set-id_map id seen [] = ground arith
is_set-id_map id seen (k ∷ ks) =
    is_set-id_map id (insert k true seen) ks ∙ rw (lookup-insert k id true seen) (ground arith)

all-all_set :
    (ids : List Text) (ms : List RoomMember)
    → all_set (id_map [] ids) ms ≡ true
    → all (λ m. has m.user_id ids) ms ≡ true
unfolding all_set lookup
all-all_set ids [] h = refl
all-all_set ids (m ∷ ms) h = ground (arith, h, is_set-id_map m.user_id [] ids, all-all_set ids ms)

-- A direct chat of two users, both among the ids.
abbrev pub is_direct_of : List Text → ChatRoom → Bool
is_direct_of ids r =
    text_eq r.kind (bytes "direct")
    && (length r.members == 2)
    && all (λ m. has m.user_id ids) r.members

same_members :
    (ids : List Text) (ms : List RoomMember)
    → has_same_members ms (id_map [] ids) ≡ true
    → all_set (id_map [] ids) ms ≡ true
unfolding has_same_members
same_members ids ms h = ground (arith, h)

find_same-is_direct_of :
    (ids : List Text) (rs : List ChatRoom) (r : ChatRoom)
    → find_same (id_map [] ids) rs ≡ some r
    → is_direct_of ids r ≡ true
unfolding find_same
find_same-is_direct_of ids [] r h = absurd cc
find_same-is_direct_of ids (k ∷ ks) r h =
    elim (Bool-cases (not (text_eq k.kind (bytes "direct")) || not (length k.members == 2))) [
      | inl e ↦ find_same-is_direct_of ids ks r (rw (e, find_same) at h)
      | inr e ↦ elim (Bool-cases (has_same_members k.members (id_map [] ids))) [
        | inl s ↦
            let same : k ≡ r = ground (arith, rw (e, s, find_same) at h) in
            rw (← same)
              (ground (arith, e, all-all_set ids k.members (same_members ids k.members s)))
        | inr s ↦ find_same-is_direct_of ids ks r (rw (e, s, find_same) at h)
      ]
    ]

found_in-is_direct_of :
    (ids : List Text) (answer : Option (Page ChatRoom)) (r : ChatRoom)
    → found_in (id_map [] ids) answer ≡ some r
    → is_direct_of ids r ≡ true
found_in-is_direct_of ids none r h = absurd cc
found_in-is_direct_of ids (some page) r h = find_same-is_direct_of ids page.messages r h

module _ (p : Platform) where
  existing-is_direct_of :
      (req : CreateRoomRequest) (w : World p) (r : ChatRoom)
      → existing_room p req w ≡ some r
      → is_direct_of req.member_ids r ≡ true
  unfolding find_existing_direct_chat
  existing-is_direct_of req w r h =
      elim (Bool-cases (text_eq req.kind (bytes "direct") && (length req.member_ids == 2))) [
        | inl e ↦ found_in-is_direct_of req.member_ids _ r (rw e at h)
        | inr e ↦ absurd (let h' = rw e at h in cc)
      ]

  created_ne_exists :
      (i : Moment) (req : CreateRoomRequest) (w : World p)
      → (create_new_room p i req w).0.message ≡ Notice.room_exists
      → ⊥
  unfolding create_new_room ChatRoomStore.create
  created_ne_exists i req w h =
      elim (Bool-cases
        (ChatRoomStore.create p.ids p.rooms i.now i.new (requested_room i req) w.rooms).2) [
          | inl e ↦ let h' = rw (e, create_new_room) at h in cc
          | inr e ↦ let h' = rw (e, create_new_room) at h in cc
        ]

  -- `CreateRoom` answers that a room exists only with a direct chat of two members, both among the
  -- requested ones, and then it changes nothing.
  pub create_room-exists :
      (i : Moment) (req : CreateRoomRequest) (w : World p)
      → (create_room p i req w).0.message ≡ Notice.room_exists
      → (r : ChatRoom) × ((create_room p i req w).0.body ≡ some (convert_room_to_grpc r))
        × (is_direct_of req.member_ids r ≡ true)
        × ((create_room p i req w).1 ≡ w)
  unfolding create_room
  create_room-exists i req w h = elim (Option-cases (existing_room p req w)) [
    | inl e ↦ absurd (created_ne_exists i req w (rw (e, create_room) at h))
    | inr (r, e) ↦
        (r, rw (e, create_room) refl, existing-is_direct_of req w r e, rw (e, create_room) refl)
  ]
