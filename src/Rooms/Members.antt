-- ===== src/Rooms/Members.antt =====
-- grpc/server.go, `ensureOwnerInMembers` and `createRoomMembers`: the members of a new room.
use chat_gateway.Prelude.{
  ℕ, ◌≡◌, refl, ap, true, inl, inr, List, [], ◌∷◌, map, any, keep, not, Bool-cases,
}
use chat_gateway.Prelude.Text.{Text, text_eq, text_eq_refl}
use chat_gateway.Rooms.{RoomMember, ensure_owner_in_members, create_room_members}
use chat_gateway.Rooms.Readers.{has}

abbrev pub ids : List RoomMember → List Text
ids ms = map (λ m. m.user_id) ms

-- The ids of everybody but the owner.
abbrev pub others : Text → List Text → List Text
others owner us = keep (λ u. not (text_eq u owner)) us

pub ids-create_room_members : (now : ℕ) (us : List Text) → ids (create_room_members now us) ≡ us
unfolding create_room_members
ids-create_room_members now [] = refl
ids-create_room_members now (u ∷ us) = ap (◌∷◌ u) (ids-create_room_members now us)

-- A new room has its owner among its members, and otherwise exactly the requested ones, in order.
pub create_room_members-ensure_owner_in_members :
    (now : ℕ) (owner : Text) (us : List Text)
    → (has owner (ids (create_room_members now (ensure_owner_in_members owner us))) ≡ true)
      × (others owner (ids (create_room_members now (ensure_owner_in_members owner us)))
          ≡ others owner us)
unfolding ensure_owner_in_members
create_room_members-ensure_owner_in_members now owner us =
    rw (ids-create_room_members now (ensure_owner_in_members owner us))
      (elim (Bool-cases (any (λ member. text_eq member owner) us)) [
        | inl e ↦ rw (e, ensure_owner_in_members) (e, refl)
        | inr e ↦ rw (e, ensure_owner_in_members) (rw (text_eq_refl owner) (refl, refl))
      ])
