-- ===== src/Rooms/Membership/Roster/Effects.antt =====
-- grpc/server.go, `JoinRoom` and `LeaveRoom`: what one call does to the set of a room's members,
-- whether it reports success or a failure.
use chat_gateway.Prelude.{
  ℕ, ◌≡◌, refl, ap, ◌∙◌, ◌⊎◌, inl, inr, Bool, true, false, List, [], ◌∷◌, ◌++◌, any, Bool-cases,
  Option-cases, Result-cases, arith,
}
use chat_gateway.Prelude.Text.{Text, bytes}
use chat_gateway.Storage.Collection.{update_first}
use chat_gateway.Storage.ChatRoomStore.{
  ChatRoom, RoomMember, has_id, push_member, pull_member, is_member, add_member, remove_member,
}
use chat_gateway.Storage.ChatRoomStore.Membership.{
  lone, member_in, member_in-push, member_in-pull, contents-remove_member,
}
use chat_gateway.Rooms.World.{Platform, World, Moment}
use chat_gateway.Rooms.Membership.{new_member, join_new, join_room, leave_room}
use chat_gateway.Rooms.Membership.Touching.{IsUntouched, contents-system_message, done_state}
use chat_gateway.Rooms.Membership.Joining.{contents-join_new}
use chat_gateway.Rooms.Membership.Results.{join_room-member_in, leave_room-member_in}
use chat_gateway.Rooms.Membership.Roster.{enter, exit, roster, roster-enter, roster-exit}

lone-IsUntouched : (room : Text) → IsUntouched room (lone room)
lone-IsUntouched room content time updated [] = refl
lone-IsUntouched room content time updated (r ∷ rs) =
    ground (arith, lone-IsUntouched room content time updated rs)

lone-push :
    (room : Text) (now : ℕ) (m : RoomMember) (rs : List ChatRoom)
    → lone room (update_first (has_id room) (push_member now m) rs) ≡ lone room rs
lone-push room now m [] = refl
lone-push room now m (r ∷ rs) = ground (arith, lone-push room now m rs)

lone-pull :
    (room : Text) (now : ℕ) (user : Text) (rs : List ChatRoom)
    → lone room (update_first (has_id room) (pull_member now user) rs) ≡ lone room rs
lone-pull room now user [] = refl
lone-pull room now user (r ∷ rs) = ground (arith, lone-pull room now user rs)

update_first-absent :
    (f : ChatRoom → Bool) (g : ChatRoom → ChatRoom) (rs : List ChatRoom)
    → any f rs ≡ false
    → update_first f g rs ≡ rs
update_first-absent f g [] h = refl
update_first-absent f g (r ∷ rs) h = ground (arith, update_first-absent f g rs)

module _ (p : Platform) (i : Moment) (room user : Text) (w : World p) where
  abbrev entered : ChatRoom → ChatRoom
  entered = push_member i.changed (record (new_member user) {
    joined_at = i.changed;
    last_seen = i.changed;
    last_read_at = i.changed;
  })

  abbrev before : List ChatRoom
  before = p.rooms.contents w.rooms

  failed_join :
      (join_room p i room user w).0.success ≡ false
      → (p.rooms.contents (join_room p i room user w).1.rooms ≡ before)
        ⊎ (p.rooms.contents (join_room p i room user w).1.rooms
            ≡ update_first (has_id room) entered before)
  unfolding join_room join_new add_member
  failed_join h = elim (Option-cases (is_member p.ids p.rooms room user w.rooms)) [
    | inl e ↦ rw (e, join_room) (inl refl)
    | inr (true, e) ↦ rw (e, join_room) (inl refl)
    | inr (false, e) ↦
        elim (Result-cases (add_member p.ids p.rooms i.changed room (new_member user) w.rooms).1) [
          | inl (fine, r) ↦ absurd (let h' = rw (e, r, join_room, join_new) at h in cc)
          | inr (x, r) ↦
              rw (e, r, join_room, join_new) (p.rooms.updated_or_not (has_id room) entered w.rooms)
        ]
  ]

  failed_leave :
      (leave_room p i room user w).0.success ≡ false
      → (p.rooms.contents (leave_room p i room user w).1.rooms ≡ before)
        ⊎ (p.rooms.contents (leave_room p i room user w).1.rooms
            ≡ update_first (has_id room) (pull_member i.changed user) before)
  unfolding leave_room remove_member
  failed_leave h = elim (Bool-cases (remove_member p.ids p.rooms i.changed room user w.rooms).1) [
    | inl e ↦ absurd (let h' = rw (e, leave_room) at h in cc)
    | inr e ↦
        rw
          (
            e,
            leave_room,
            done_state p (p.rooms.update_one (has_id room) (pull_member i.changed user) w.rooms),
          )
          (p.rooms.updated_or_not (has_id room) (pull_member i.changed user) w.rooms)
  ]

  joined_lone :
      (join_room p i room user w).0.success ≡ true
      → lone room (p.rooms.contents (join_room p i room user w).1.rooms) ≡ lone room before
  unfolding join_room
  joined_lone h = elim (Option-cases (is_member p.ids p.rooms room user w.rooms)) [
    | inl e ↦ absurd (let h' = rw (e, join_room) at h in cc)
    | inr (true, e) ↦ rw (e, join_room) refl
    | inr (false, e) ↦
        rw (e, join_room)
          ((contents-join_new p i room user w (lone room) (lone-IsUntouched room)
              (rw (e, join_room) at h)).0
            ∙ lone-push room i.changed _ before)
  ]

  left_lone :
      (leave_room p i room user w).0.success ≡ true
      → lone room (p.rooms.contents (leave_room p i room user w).1.rooms) ≡ lone room before
  unfolding leave_room
  left_lone h = elim (Bool-cases (remove_member p.ids p.rooms i.changed room user w.rooms).1) [
    | inr e ↦ absurd (let h' = rw (e, leave_room) at h in cc)
    | inl e ↦
        rw (e, leave_room)
          (contents-system_message p room (lone room) (lone-IsUntouched room) i
              (user ++ bytes " 已離開群組") _
            ∙ ap (lone room) (contents-remove_member p.ids p.rooms i.changed room user w.rooms e)
            ∙ lone-pull room i.changed user before)
  ]

  -- No call adds a room under the id.
  pub lone-join_room :
      lone room (p.rooms.contents (join_room p i room user w).1.rooms) ≡ lone room before
  lone-join_room = elim (Bool-cases (join_room p i room user w).0.success) [
    | inl h ↦ joined_lone h
    | inr h ↦ elim (failed_join h) [
      | inl e ↦ ap (lone room) e
      | inr e ↦ ap (lone room) e ∙ lone-push room i.changed _ before
    ]
  ]

  pub lone-leave_room :
      lone room (p.rooms.contents (leave_room p i room user w).1.rooms) ≡ lone room before
  lone-leave_room = elim (Bool-cases (leave_room p i room user w).0.success) [
    | inl h ↦ left_lone h
    | inr h ↦ elim (failed_leave h) [
      | inl e ↦ ap (lone room) e
      | inr e ↦ ap (lone room) e ∙ lone-pull room i.changed user before
    ]
  ]

  -- A push that finds no room changes nothing.
  pushed :
      (after : List ChatRoom)
      → after ≡ update_first (has_id room) entered before
      → (roster room after ≡ enter user (roster room before))
        ⊎ (roster room after ≡ roster room before)
  pushed after e = elim (Bool-cases (any (has_id room) before)) [
    | inl there ↦ inl (
        roster-enter room before after user (λ other.
          ap (member_in room other) e ∙ member_in-push room i.changed other _ before there))
    | inr absent ↦
        inr (ap (roster room) (e ∙ update_first-absent (has_id room) entered before absent))
  ]

  pub roster-join_room :
      (roster room (p.rooms.contents (join_room p i room user w).1.rooms)
        ≡ enter user (roster room before))
      ⊎ (((join_room p i room user w).0.success ≡ false)
          × (roster room (p.rooms.contents (join_room p i room user w).1.rooms)
              ≡ roster room before))
  roster-join_room = elim (Bool-cases (join_room p i room user w).0.success) [
    | inl h ↦
        inl (roster-enter room before _ user (λ other. join_room-member_in p i room user other w h))
    | inr h ↦ elim (failed_join h) [
      | inl e ↦ inr (h, ap (roster room) e)
      | inr e ↦ elim (pushed _ e) [ inl q ↦ inl q | inr q ↦ inr (h, q) ]
    ]
  ]

  pub roster-leave_room :
      lone room before ≡ true
      → (roster room (p.rooms.contents (leave_room p i room user w).1.rooms)
          ≡ exit user (roster room before))
        ⊎ (((leave_room p i room user w).0.success ≡ false)
            × (roster room (p.rooms.contents (leave_room p i room user w).1.rooms)
                ≡ roster room before))
  roster-leave_room single = elim (Bool-cases (leave_room p i room user w).0.success) [
    | inl h ↦ inl (
        roster-exit room before _ user
          (λ other. leave_room-member_in p i room user other w single h))
    | inr h ↦ elim (failed_leave h) [
      | inl e ↦ inr (h, ap (roster room) e)
      | inr e ↦ inl (
          roster-exit room before _ user (λ other.
            ap (member_in room other) e ∙ member_in-pull room i.changed user other before single))
    ]
  ]
